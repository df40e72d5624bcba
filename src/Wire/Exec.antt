-- ===== src/Wire/Exec.antt =====
-- What running a piece of the program comes to: a value, undefined behaviour (a copy outside its
-- block, a null pointer), or an exception.
use asio_network.Base.{◌≡◌, refl, ◌≡◌, Option, none, some}

pub data Exec {ℓ} (A : Type ℓ) : Type ℓ where
  done : A → Exec A
  undefined : Exec A
  throws : Exec A

infixl 5 ◌>>=◌
abbrev pub ◌>>=◌ {ℓ κ} : {A : Type ℓ} {B : Type κ} → Exec A → (A → Exec B) → Exec B
done a >>= f = f a
undefined >>= f = undefined
throws >>= f = throws

-- A copy that leaves its block.
abbrev pub defined {ℓ} : {A : Type ℓ} → Option A → Exec A
defined none = undefined
defined (some a) = done a

-- The value of a run, or another where there is none.
abbrev pub value_or {ℓ} : {A : Type ℓ} → A → Exec A → A
value_or default (done a) = a
value_or default undefined = default
value_or default throws = default

-- The run gives no value.
abbrev pub Fails {ℓ} : {A : Type ℓ} → Exec A → Type 0
Fails (done a) = ⊥
Fails undefined = Unit
Fails throws = Unit

pub Fails-bind {ℓ κ} :
    {A : Type ℓ} {B : Type κ} (m : Exec A) (f : A → Exec B)
    → ((a : A) → Fails (f a))
    → Fails (m >>= f)
Fails-bind (done a) f h = h a
Fails-bind undefined f h = tt
Fails-bind throws f h = tt

pub >>=-assoc {ℓ κ ν} :
    {A : Type ℓ} {B : Type κ} {C : Type ν} (m : Exec A) (f : A → Exec B) (g : B → Exec C)
    → ((m >>= f) >>= g) ≡ (m >>= λ a. f a >>= g)
>>=-assoc (done a) f g = refl
>>=-assoc undefined f g = refl
>>=-assoc throws f g = refl

pub >>=-ext {ℓ κ} :
    {A : Type ℓ} {B : Type κ} (m : Exec A) {f g : A → Exec B}
    → ((a : A) → f a ≡ g a)
    → (m >>= f) ≡ (m >>= g)
>>=-ext (done a) h = h a
>>=-ext undefined h = refl
>>=-ext throws h = refl

pub Fails-first {ℓ κ} :
    {A : Type ℓ} {B : Type κ} (m : Exec A) (f : A → Exec B) → Fails m → Fails (m >>= f)
Fails-first (done a) f h = absurd h
Fails-first undefined f h = tt
Fails-first throws f h = tt
