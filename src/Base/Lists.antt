-- ===== src/Base/Lists.antt =====
-- Lists measured and cut by native numbers, under the library's names.
use Prim.Native.Nat.{ℕ, zero, suc, ◌+◌, ◌-◌, ◌≤◌, min}
use mathlib.Core.Path.{◌∙◌, ◌≡◌, refl, ap}
use mathlib.Core.List.{List, [], ◌∷◌, ◌++◌}
use mathlib.Core.Option.{Option, none, some}
use native.Mathlib.Omega.{arith}

module _ {ℓ} {A : Type ℓ} where
  abbrev pub length : List A → ℕ
  length [] = 0
  length (x ∷ xs) = suc (length xs)

  abbrev pub take : ℕ → List A → List A
  take zero xs = []
  take (suc n) [] = []
  take (suc n) (x ∷ xs) = x ∷ take n xs

  abbrev pub drop : ℕ → List A → List A
  drop zero xs = xs
  drop (suc n) [] = []
  drop (suc n) (x ∷ xs) = drop n xs

  abbrev pub replicate : ℕ → A → List A
  replicate zero a = []
  replicate (suc n) a = a ∷ replicate n a

  abbrev pub get_elem? : List A → ℕ → Option A
  get_elem? [] i = none
  get_elem? (x ∷ xs) zero = some x
  get_elem? (x ∷ xs) (suc i) = get_elem? xs i

  abbrev pub All {κ} : (A → Type κ) → List A → Type κ
  All P [] = Unit {κ}
  All P (x ∷ xs) = P x × All P xs

module _ {ℓ} {A : Type ℓ} where
  pub length-append : (xs ys : List A) → length (xs ++ ys) ≡ length xs + length ys
  length-append [] ys = omega arith
  length-append (x ∷ xs) ys = omega (arith, length-append xs ys)

  pub length-take : (n : ℕ) (xs : List A) → length (take n xs) ≡ min n (length xs)
  length-take zero xs = omega arith
  length-take (suc n) [] = omega arith
  length-take (suc n) (x ∷ xs) = omega (arith, length-take n xs)

  pub length-drop : (n : ℕ) (xs : List A) → length (drop n xs) ≡ length xs - n
  length-drop zero xs = omega arith
  length-drop (suc n) [] = omega arith
  length-drop (suc n) (x ∷ xs) = omega (arith, length-drop n xs)

  pub length-replicate : (n : ℕ) (a : A) → length (replicate n a) ≡ n
  length-replicate zero a = refl
  length-replicate (suc n) a = ap suc (length-replicate n a)

  pub take-append-drop : (n : ℕ) (xs : List A) → take n xs ++ drop n xs ≡ xs
  take-append-drop zero xs = refl
  take-append-drop (suc n) [] = refl
  take-append-drop (suc n) (x ∷ xs) = ap (◌∷◌ x) (take-append-drop n xs)

  -- The length is a variable with an equation, so that it need not be computed.
  pub take-append : (n : ℕ) (xs ys : List A) → length xs ≡ n → take n (xs ++ ys) ≡ xs
  take-append zero [] ys e = refl
  take-append zero (x ∷ xs) ys e = absurd (omega arith)
  take-append (suc n) [] ys e = absurd (omega arith)
  take-append (suc n) (x ∷ xs) ys e = ap (◌∷◌ x) (take-append n xs ys (omega arith))

  pub drop-append : (n : ℕ) (xs ys : List A) → length xs ≡ n → drop n (xs ++ ys) ≡ ys
  drop-append zero [] ys e = refl
  drop-append zero (x ∷ xs) ys e = absurd (omega arith)
  drop-append (suc n) [] ys e = absurd (omega arith)
  drop-append (suc n) (x ∷ xs) ys e = drop-append n xs ys (omega arith)

  pub take-length : (n : ℕ) (xs : List A) → length xs ≤ n → take n xs ≡ xs
  take-length zero [] h = refl
  take-length zero (x ∷ xs) h = absurd (omega arith)
  take-length (suc n) [] h = refl
  take-length (suc n) (x ∷ xs) h = ap (◌∷◌ x) (take-length n xs (omega arith))

  pub take-take : (k n : ℕ) (xs : List A) → k ≤ n → take k (take n xs) ≡ take k xs
  take-take zero n xs h = refl
  take-take (suc k) zero xs h = absurd (omega arith)
  take-take (suc k) (suc n) [] h = refl
  take-take (suc k) (suc n) (x ∷ xs) h = ap (◌∷◌ x) (take-take k n xs (omega arith))

  pub drop-drop : (c k n : ℕ) (xs : List A) → c + k ≡ n → drop k (drop c xs) ≡ drop n xs
  drop-drop zero zero zero xs e = refl
  drop-drop zero zero (suc n) xs e = absurd (omega arith)
  drop-drop zero (suc k) zero xs e = absurd (omega arith)
  drop-drop zero (suc k) (suc n) [] e = refl
  drop-drop zero (suc k) (suc n) (x ∷ xs) e = drop-drop zero k n xs (omega arith)
  drop-drop (suc c) k zero xs e = absurd (omega arith)
  drop-drop (suc c) zero (suc n) [] e = refl
  drop-drop (suc c) (suc k) (suc n) [] e = refl
  drop-drop (suc c) k (suc n) (x ∷ xs) e = drop-drop c k n xs (omega arith)

  pub drop-take : (k m n : ℕ) (xs : List A) → k + m ≡ n → drop k (take n xs) ≡ take m (drop k xs)
  drop-take zero zero zero xs e = refl
  drop-take zero zero (suc n) xs e = absurd (omega arith)
  drop-take zero (suc m) zero xs e = absurd (omega arith)
  drop-take zero (suc m) (suc n) [] e = refl
  drop-take zero (suc m) (suc n) (x ∷ xs) e = ap (◌∷◌ x) (drop-take zero m n xs (omega arith))
  drop-take (suc k) m zero xs e = absurd (omega arith)
  drop-take (suc k) zero (suc n) [] e = refl
  drop-take (suc k) (suc m) (suc n) [] e = refl
  drop-take (suc k) m (suc n) (x ∷ xs) e = drop-take k m n xs (omega arith)

  pub replicate-add :
      (m n k : ℕ) (a : A) → m + n ≡ k → replicate k a ≡ replicate m a ++ replicate n a
  replicate-add zero zero zero a e = refl
  replicate-add zero (suc n) zero a e = absurd (omega arith)
  replicate-add zero zero (suc k) a e = absurd (omega arith)
  replicate-add zero (suc n) (suc k) a e = ap (◌∷◌ a) (replicate-add zero n k a (omega arith))
  replicate-add (suc m) n zero a e = absurd (omega arith)
  replicate-add (suc m) n (suc k) a e = ap (◌∷◌ a) (replicate-add m n k a (omega arith))

  pub take-add : (k n : ℕ) (xs : List A) → take k xs ++ take n (drop k xs) ≡ take (k + n) xs
  take-add zero n xs = ap (λ (i : ℕ). take i xs) (omega arith)
  take-add (suc k) zero [] =
      let e : suc k ≡ suc k + 0 = omega arith in ap (λ (i : ℕ). take {A = A} i []) e
  take-add (suc k) (suc n) [] =
      let e : suc (k + suc n) ≡ suc k + suc n = omega arith in ap (λ (i : ℕ). take {A = A} i []) e
  take-add (suc k) n (x ∷ xs) =
      let e : suc (k + n) ≡ suc k + n = omega arith in
      ap (◌∷◌ x) (take-add k n xs) ∙ ap (λ (i : ℕ). take i (x ∷ xs)) e

  pub drop-length : (n : ℕ) (xs : List A) → length xs ≤ n → drop n xs ≡ []
  drop-length zero [] h = refl
  drop-length zero (x ∷ xs) h = absurd (omega arith)
  drop-length (suc n) [] h = refl
  drop-length (suc n) (x ∷ xs) h = drop-length n xs (omega arith)

  -- What is taken, however much there is, and what comes behind it.
  pub take-append-drop_taken :
      (n : ℕ) (xs : List A) → take n xs ++ drop (length (take n xs)) xs ≡ xs
  take-append-drop_taken zero xs = refl
  take-append-drop_taken (suc n) [] = refl
  take-append-drop_taken (suc n) (x ∷ xs) = ap (◌∷◌ x) (take-append-drop_taken n xs)
