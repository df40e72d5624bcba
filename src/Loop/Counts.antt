-- ===== src/Loop/Counts.antt =====
-- How many handlers of a session wait, in its own list and in `ready`.
use asio_network.Base.{
  ℕ, ◌+◌, ◌≡◌, ◌⊎◌, refl, sym, ap, ◌∙◌, inl, inr, true, false, Bool-cases, Option, none, some, List,
  [], ◌∷◌, ◌++◌, arith, ◌==◌, ==_iff, ==_refl, if◌then◌else◌, length,
}
use asio_network.Strand.{Running, nobody, in_loop, leaving, failing, writing}
use asio_network.Fleet.{Fleet}
use asio_network.Service.{Service}
use asio_network.Loop.{ready_after, still_current}
use asio_network.Loop.Moves.{Queues}

abbrev pub count : ℕ → List ℕ → ℕ
count j [] = 0
count j (k ∷ ks) = (if j == k then 1 else 0) + count j ks

count-snoc : (j k : ℕ) (ks : List ℕ) → count j (ks ++ (k ∷ [])) ≡ count j ks + count j (k ∷ [])
count-snoc j k [] = omega arith
count-snoc j k (i ∷ ks) = omega (arith, count-snoc j k ks)

more_ready :
    (j k : ℕ) (ks : List ℕ) → count j (ks ++ (k ∷ [])) ≡ count j ks + (if j == k then 1 else 0)
more_ready j k ks = omega (arith, count-snoc j k ks)

not_same : (n m : ℕ) → m ≡ n + 1 → (m == n) ≡ false
not_same n m e = ground arith

abbrev index_or : Option ℕ → ℕ
index_or none = 0
index_or (some k) = k

-- The queue of session k grows by this much, and no other changes.
grown :
    (k n : ℕ) (f f' : Fleet)
    → ((j : ℕ) → (j == k) ≡ false → f'.sessions j ≡ f.sessions j)
    → length ((f'.sessions k).strand) ≡ length ((f.sessions k).strand) + n
    → (j : ℕ)
    → length ((f'.sessions j).strand) ≡ length ((f.sessions j).strand) + (if j == k then n else 0)
grown k n f f' others e j = elim (Bool-cases (j == k)) [
  | inl here ↦ rw (here, (==_iff j k).0 here) e
  | inr there ↦ rw (there, others j there) (omega arith)
]

pub counted :
    (k j : ℕ) (w w' : Service) (ready : List ℕ)
    → ((j : ℕ) → (j == k) ≡ false → w'.fleet.sessions j ≡ w.fleet.sessions j)
    → Queues (w.fleet.sessions k) (w'.fleet.sessions k)
    → count j ready ≡ length ((w.fleet.sessions j).strand)
    → count j (ready_after k w w' ready) ≡ length ((w'.fleet.sessions j).strand)
counted k j w w' ready others queues e = elim queues.grows [
  | inl same ↦
      let left : length ((w'.fleet.sessions j).strand)
          ≡ length ((w.fleet.sessions j).strand) + (if j == k then 0 else 0) =
        grown k 0 w.fleet w'.fleet others (omega (arith, same)) j in
      rw (same, ==_refl (length ((w.fleet.sessions k).strand))) (ground (arith, e, left))
  | inr more ↦
      let left : length ((w'.fleet.sessions j).strand)
          ≡ length ((w.fleet.sessions j).strand) + (if j == k then 1 else 0) =
        grown k 1 w.fleet w'.fleet others more j in
      rw (not_same _ _ more) (omega (arith, e, left, more_ready j k ready))
]

pub still : (k : ℕ) (run : Running) → (still_current run k ≡ some k) ⊎ (run ≡ nobody)
still k nobody = inr refl
still k (in_loop buffer c n) = inl refl
still k (leaving flag) = inl refl
still k failing = inl refl
still k writing = inl refl

-- Where the session at hand is another one, a session runs no handler.
pub not_at_hand :
    (j k : ℕ) (run : Running)
    → (j == k) ≡ false
    → ((some k ≡ some j) ⊎ (run ≡ nobody))
    → run ≡ nobody
not_at_hand j k run there (inr free) = free
not_at_hand j k run there (inl same) =
    let both : true ≡ false =
      sym (==_refl j) ∙ ap (λ (i : Option ℕ). j == index_or i) (sym same) ∙ there in
    cc (both)
