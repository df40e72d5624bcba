-- ===== src/Pool/Contexts.antt =====
-- IOContextPoolServer/AsioIOContextPool.h and AsioIOContextPool.cpp.
use asio_network.Base.{
  ℕ, zero, suc, ◌+◌, ◌%◌, ◌<◌, ◌≡◌, ◌⊎◌, inl, inr, refl, ap, ◌∙◌, sym, Bool, true, false, List, [],
  ◌∷◌, arith, ltb, ◌==◌, if◌then◌else◌, length, replicate, length-replicate, lt→ltb,
}
use native.Mathlib.Nat.{mod_self, mod-add-mod, mod-eq_of_lt, mod-lt}
use asio_network.Wire.Exec.{Exec, done, undefined, ◌>>=◌}
use asio_network.Pool.Joins.{join_all, join_all-replicate}

-- An `io_context` is whether it has been stopped. The work at index i belongs to the context there,
-- and is whether it is still there; a thread is whether it is joinable.
pub record AsioIoContextPool : Type 0 where
  pub io_contexts : List Bool
  pub works : List Bool
  pub threads : List Bool
  pub next_io_context : ℕ

-- The constructor, once its loops have run.
unfoldable pub new_context_pool : ℕ → AsioIoContextPool
new_context_pool size = record {
  io_contexts = replicate size false;
  works = replicate size true;
  threads = replicate size true;
  next_io_context = 0;
}

-- GetIOContext: the index of the context that is returned. Outside the vector it is undefined.
unfoldable pub get_io_context : AsioIoContextPool → Exec (ℕ × AsioIoContextPool)
get_io_context pool =
    if ltb pool.next_io_context (length pool.io_contexts)
    then done (
      pool.next_io_context,
      record pool {
        next_io_context =
            if pool.next_io_context + 1 == length pool.io_contexts
            then 0
            else pool.next_io_context + 1;
      },
    )
    else undefined

-- The first loop of Stop, over the works and their contexts. A work that is gone is a null pointer.
unfoldable pub stop_contexts : List Bool → List Bool → Exec (List Bool × List Bool)
stop_contexts [] contexts = done ([], contexts)
stop_contexts (true ∷ works) (_ ∷ contexts) = do
  rest ← stop_contexts works contexts
  done (false ∷ rest.0, true ∷ rest.1)
stop_contexts (_ ∷ works) contexts = undefined

unfoldable pub stop_pool : AsioIoContextPool → Exec AsioIoContextPool
stop_pool pool = do
  stopped ← stop_contexts pool.works pool.io_contexts
  threads ← join_all pool.threads
  done (record pool { works = stopped.0; io_contexts = stopped.1; threads = threads })

-- The contexts that `n` calls of GetIOContext return.
unfoldable pub get_many : ℕ → AsioIoContextPool → Exec (List ℕ)
get_many zero pool = done []
get_many (suc n) pool = do r ← get_io_context pool; rest ← get_many n r.1; done (r.0 ∷ rest)

-- `start`, `start + 1`, ... modulo `size`.
abbrev pub round_robin : ℕ → ℕ → ℕ → List ℕ
round_robin zero size start = []
round_robin (suc n) size start = start % size ∷ round_robin n size (start + 1)

-- The index of the next context, once `count` have been given out.
at_count : ℕ → ℕ → AsioIoContextPool
at_count size count = record (new_context_pool size) { next_io_context = count % size }

-- The test on an index below the size, as arithmetic.
turned : ℕ → ℕ → ℕ
turned size i = if i + 1 == size then 0 else i + 1

turned_lem :
    (size i : ℕ)
    → i < size
    → ((turned size i ≡ 0) × (i + 1 ≡ size)) ⊎ ((turned size i ≡ i + 1) × (i + 1 < size))
unfolding turned
turned_lem size i h = ground arith

next_index :
    (size count : ℕ)
    → 0 < size
    → (if count % size + 1 == size then 0 else count % size + 1) ≡ (count + 1) % size
unfolding turned
next_index size count h = elim (turned_lem size (count % size) (mod-lt count h)) [
  | inl (e, last) ↦
      e ∙ sym (mod_self size) ∙ ap (λ (i : ℕ). i % size) (sym last) ∙ mod-add-mod count size 1
  | inr (e, inside) ↦ e ∙ sym (mod-eq_of_lt inside) ∙ mod-add-mod count size 1
]

get_io_context_lem :
    (size count : ℕ)
    → 0 < size
    → get_io_context (at_count size count) ≡ done (count % size, at_count size (count + 1))
unfolding get_io_context at_count new_context_pool
get_io_context_lem size count h =
    rw
      (
        length-replicate {A = Bool} size false,
        lt→ltb (count % size) size (mod-lt count h),
        next_index size count h,
      )
      refl

get_many_lem :
    (n size count : ℕ)
    → 0 < size
    → get_many n (at_count size count) ≡ done (round_robin n size count)
unfolding get_many
get_many_lem zero size count h = refl
get_many_lem (suc n) size count h =
    rw (get_io_context_lem size count h, get_many_lem n size (count + 1) h) refl

-- A pool of at least one context gives its contexts out in turn, from the first, for ever: the k-th
-- call returns context k modulo the size, and no call goes outside the vector.
get_many-round_robin :
    (n size : ℕ) → 0 < size → get_many n (new_context_pool size) ≡ done (round_robin n size 0)
unfolding at_count new_context_pool
get_many-round_robin n size h =
    ap (λ (i : ℕ). get_many n (record (new_context_pool size) { next_io_context = i }))
      (sym (mod-eq_of_lt h))
    ∙ get_many_lem n size 0 h

stop_contexts-replicate :
    (n : ℕ)
    → stop_contexts (replicate n true) (replicate n false)
      ≡ done (replicate n false, replicate n true)
unfolding stop_contexts
stop_contexts-replicate zero = refl
stop_contexts-replicate (suc n) = rw (stop_contexts-replicate n) refl

-- Stop of a pool of at least one context, wherever the turn is, stops every context, drops every
-- work and joins every thread; a second Stop goes through a null pointer.
pub stop_pool-twice :
    (size count : ℕ)
    → 0 < size
    → let stopped : AsioIoContextPool = record {
      io_contexts = replicate size true;
      works = replicate size false;
      threads = replicate size false;
      next_io_context = count;
    } in
      (stop_pool (record (new_context_pool size) { next_io_context = count }) ≡ done stopped)
      × (stop_pool stopped ≡ undefined)
unfolding stop_pool new_context_pool stop_contexts
stop_pool-twice zero count h = absurd (omega arith)
stop_pool-twice (suc n) count h =
    (rw (stop_contexts-replicate (suc n), join_all-replicate (suc n)) refl, refl)
