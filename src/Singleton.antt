-- ===== src/Singleton.antt =====
-- LogicServer/Singleton.h, which IOContextPoolServer and IOThreadPoolServer have too: GetInstance, called by
-- several threads. `std::call_once` lets one caller run the function and the others wait until it has
-- come to its end; where the function throws, the next caller runs it.
use asio_network.Base.{
  ◌⊎◌, inl, inr, ℕ, ◌+◌, ◌≤◌, ◌≡◌, refl, ap, Option, none, some, List, [], ◌∷◌, arith, All,
}

-- `static_flag`: not called, being called by some thread, or done.
pub data OnceFlag : Type 0 where
  fresh completed : OnceFlag
  active : (thread : ℕ) → OnceFlag

-- An object is its number among those that have been made. `callers` are the threads that are in
-- GetInstance, and `returned` the threads that have returned from it, with what they got.
pub record Static : Type 0 where
  pub static_flag : OnceFlag
  pub instance_ptr : Option ℕ
  pub objects : ℕ
  pub returned : List (ℕ × Option ℕ)

-- Line 30, with the number of the thread.
unfoldable pub return_instance : ℕ → Static → Static
return_instance thread s = record s { returned = (thread, s.instance_ptr) ∷ s.returned }

-- `_instance = std::shared_ptr<T>(new T);`
unfoldable pub make_instance : Static → Static
make_instance s = record s {
  static_flag = completed;
  instance_ptr = some s.objects;
  objects = s.objects + 1;
}

pub data StaticStep (s : Static) : Static → Type 0 where
  -- A thread finds the flag fresh and runs the function.
  begins :
      (thread : ℕ) → s.static_flag ≡ fresh → StaticStep s (record s { static_flag = active thread })
  makes : (thread : ℕ) → s.static_flag ≡ active thread → StaticStep s (make_instance s)
  -- The constructor of T throws, and GetInstance with it.
  fails :
      (thread : ℕ) → s.static_flag ≡ active thread → StaticStep s (record s { static_flag = fresh })
  -- call_once has come back.
  returns : (thread : ℕ) → s.static_flag ≡ completed → StaticStep s (return_instance thread s)

-- `_instance` starts as nullptr.
abbrev pub never_called : Static
never_called = record { static_flag = fresh; instance_ptr = none; objects = 0; returned = [] }

pub data StaticReach : Static → Type 0 where
  here : StaticReach never_called
  next : {s t : Static} → StaticReach s → StaticStep s t → StaticReach t

abbrev pub GotFirst : ℕ × Option ℕ → Type 0
GotFirst r = r.1 ≡ some 0

-- What the flag says of the object.
abbrev FlagHolds : OnceFlag → Static → Type 0
FlagHolds completed s = (s.instance_ptr ≡ some 0) × (s.objects ≡ 1)
FlagHolds fresh s = (s.objects ≡ 0) × (s.returned ≡ [])
FlagHolds (active thread) s = (s.objects ≡ 0) × (s.returned ≡ [])

record IsOnce (s : Static) : Type 0 where
  flag_holds : FlagHolds s.static_flag s
  same_object : All GotFirst s.returned

stepped-IsOnce : {s t : Static} → IsOnce s → StaticStep s t → IsOnce t
unfolding make_instance return_instance
stepped-IsOnce {s} v (begins thread free) =
    let h : FlagHolds fresh s = rw free at v.flag_holds in
    record { flag_holds = (h.0, h.1); same_object = v.same_object }
stepped-IsOnce {s} v (makes thread running) =
    let h : FlagHolds (active thread) s = rw running at v.flag_holds in
    record { flag_holds = (ap some h.0, omega (arith, h.0)); same_object = v.same_object }
stepped-IsOnce {s} v (fails thread running) =
    let h : FlagHolds (active thread) s = rw running at v.flag_holds in
    record { flag_holds = (h.0, h.1); same_object = v.same_object }
stepped-IsOnce {s} v (returns thread over) =
    let h : FlagHolds completed s = rw over at v.flag_holds in
    record { flag_holds = rw over (h.0, h.1); same_object = (h.0, v.same_object) }

reached-IsOnce : {s : Static} → StaticReach s → IsOnce s
reached-IsOnce here = record { flag_holds = (refl, refl); same_object = tt }
reached-IsOnce (next r step) = stepped-IsOnce (reached-IsOnce r) step

flag_says :
    (flag : OnceFlag) (s : Static)
    → FlagHolds flag s
    → (s.objects ≤ 1) × ((s.returned ≡ []) ⊎ (s.objects ≡ 1))
flag_says fresh s h = (omega (arith, h.0), inl h.1)
flag_says (active thread) s h = (omega (arith, h.0), inl h.1)
flag_says completed s h = (omega (arith, h.1), inr h.1)

-- However the calls of GetInstance interleave, and however often the constructor throws, at most one
-- object is made, every call that has returned has given the first, and where one has returned there is
-- exactly one.
pub get_instance_lem :
    (s : Static)
    → StaticReach s
    → All GotFirst s.returned × (s.objects ≤ 1) × ((s.returned ≡ []) ⊎ (s.objects ≡ 1))
get_instance_lem s r =
    let v : IsOnce s = reached-IsOnce r in
    let (few, some_returned) = flag_says s.static_flag s v.flag_holds in
    (v.same_object, few, some_returned)
