-- ===== src/Server/View.antt =====
-- The map of sessions of LogicServer/CServer.h, up to the order in which a list holds its entries.
use mathlib.Core.Quot
use mathlib.Core.Quot.{Quot}
use asio_network.Base.{
  ==_refl, ==_iff, ℕ, ◌≡◌, inl, inr, refl, sym, ap, ◌∙◌, false, Bool-cases, Option, none, some,
  List, arith, ◌==◌, if◌then◌else◌,
}
use asio_network.Server.{
  lookup, insert, erase, or_else, lookup-insert, lookup-erase, CServer, start_accept, clear_session,
  handle_accept,
}

==_sym : (j k : ℕ) → (j == k) ≡ false → (k == j) ≡ false
==_sym j k e = ground arith

module _ {V : Type 0} where
  -- Two lists that hold the same session for every uuid.
  abbrev pub SameEntries : List (ℕ × V) → List (ℕ × V) → Type 0
  SameEntries m m' = (j : ℕ) → lookup j m ≡ lookup j m'

abbrev pub SessionMap : Type 0 → Type 0
SessionMap V = Quot (SameEntries {V = V})

module _ {V : Type 0} where
  abbrev pub entries : CServer V → SessionMap V
  entries s = Quot.mk s.sessions

  or_none : (o : Option V) → or_else o none ≡ o
  or_none none = refl
  or_none (some v) = refl

  erased_after :
      (k u j : ℕ) (v : V) (m : List (ℕ × V))
      → lookup j (erase k (insert u v m))
        ≡ (if k == j then none else or_else (lookup j m) (if u == j then some v else none))
  erased_after k u j v m =
      lookup-erase k j (insert u v m)
      ∙ ap (λ (o : Option V). if k == j then none else o) (lookup-insert u j v m)

  erased_before :
      (k u j : ℕ) (v : V) (m : List (ℕ × V))
      → lookup j (insert u v (erase k m))
        ≡ or_else (if k == j then none else lookup j m) (if u == j then some v else none)
  erased_before k u j v m =
      lookup-insert u j v (erase k m)
      ∙ ap (λ (o : Option V). or_else o (if u == j then some v else none)) (lookup-erase k j m)

  commuting :
      (k u : ℕ) (v : V) (m : List (ℕ × V))
      → (k == u) ≡ false
      → SameEntries (erase k (insert u v m)) (insert u v (erase k m))
  commuting k u v m different j = erased_after k u j v m ∙ cases ∙ sym (erased_before k u j v m)
    where
      cases :
          (if k == j then none else or_else (lookup j m) (if u == j then some v else none))
          ≡ or_else (if k == j then none else lookup j m) (if u == j then some v else none)
      cases = elim (Bool-cases (k == j)) [
        | inl here ↦
            let not_new : (u == j) ≡ false = ground (arith, here, different) in
            rw (here, not_new) refl
        | inr there ↦ rw there refl
      ]

  erased_again :
      (u : ℕ) (v : V) (m : List (ℕ × V)) → SameEntries (erase u (insert u v m)) (erase u m)
  erased_again u v m j =
      rw (erased_after u u j v m, lookup-erase u j m)
        (elim (Bool-cases (u == j)) [
          | inl here ↦ rw here refl
          | inr there ↦ rw there (or_none (lookup j m))
        ])

  erased_absent : (u : ℕ) (m : List (ℕ × V)) → lookup u m ≡ none → SameEntries (erase u m) m
  erased_absent u m absent j = rw (lookup-erase u j m) (elim (Bool-cases (u == j)) [
    | inl here ↦ rw (here, sym ((==_iff u j).0 here), absent) refl
    | inr there ↦ rw there refl
  ])

  -- Where no session of its uuid is kept, accepting a session puts it, started, into the map, and leaves
  -- every other entry. To the map, up to order, it makes no difference whether that is done before or
  -- after another session is cleared; clearing the accepted session again leaves the map as it was, up
  -- to order, and without an entry of its uuid.
  pub clear_session-handle_accept :
      (start : V → V) (s : CServer V) (session next : ℕ × V) (k : ℕ)
      → (k == session.0) ≡ false
      → lookup session.0 s.sessions ≡ none
      → (lookup session.0 (handle_accept start false s session next).sessions
          ≡ some (start session.1))
        × (lookup k (handle_accept start false s session next).sessions ≡ lookup k s.sessions)
        × (entries (clear_session (handle_accept start false s session next) k)
            ≡ entries (handle_accept start false (clear_session s k) session next))
        × (entries (clear_session (handle_accept start false s session next) session.0) ≡ entries s)
        × (lookup session.0
              (clear_session (handle_accept start false s session next) session.0).sessions
            ≡ none)
  unfolding handle_accept clear_session start_accept
  clear_session-handle_accept start s session next k different absent =
      let m : List (ℕ × V) = s.sessions in
      let u : ℕ = session.0 in
      let v : V = start session.1 in
      (
        rw (lookup-insert u u v m, absent, ==_refl u) refl,
        rw (lookup-insert u k v m, ==_sym k u different) (or_none (lookup k m)),
        Quot.sound (commuting k u v m different),
        Quot.sound (λ j. erased_again u v m j ∙ erased_absent u m absent j),
        rw (lookup-erase u u (insert u v m), ==_refl u) refl,
      )
