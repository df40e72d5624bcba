-- ===== src/Tests/Fleets.antt =====
-- Runs of several sessions and a worker.
use asio_network.Base.{arith, ◌==◌, if◌then◌else◌, ℕ, ◌≡◌, ◌≢◌, refl, List, [], ◌∷◌, ◌++◌, All}
use asio_network.Wire.Host.{big_endian, little_endian, Host}
use asio_network.Wire.Exec.{done}
use asio_network.Framing.Stream.{head, broken}
use asio_network.Framing.Reader.{Reader}
use asio_network.Session.Receive.{
  Message, IsMessage, frames, logic_nodes, with_posted, feeds-frames,
}
use asio_network.Strand.{gives, dispatches, goes_on}
use asio_network.Strand.Follows.{goal}
use asio_network.Fleet.{Fleet, FleetEvent, at_session, deals, run_fleet, no_logic, start_fleet}
use asio_network.Fleet.Isolated.{Isolated}
use asio_network.Fleet.Served.{started_fleet-Isolated}
use asio_network.Base.{Bool-cases, inl, inr, length, ◌≤◌, ◌+◌}
use asio_network.Fleet.Answers.{Question, IsQuestion}
use asio_network.Tests.Plain.{plain_json}
use asio_network.Tests.{both, hello-IsMessage, nothing-IsMessage, fresh_reader, fresh_reader-Shows}

abbrev pub readers : ℕ → Reader
readers k = fresh_reader

abbrev pub senders : ℕ → Host
senders k = little_endian

-- Every session is sent the same two messages.
abbrev sent_to : ℕ → List Message
sent_to k = both

both-IsMessage : All IsMessage both
both-IsMessage = (hello-IsMessage, (nothing-IsMessage, tt))

abbrev events : List FleetEvent
events =
    at_session 1 (gives 8)
    ∷ at_session 2 (gives 100)
    ∷ at_session 2 dispatches
    ∷ at_session 1 dispatches
    ∷ at_session 1 goes_on
    ∷ at_session 2 goes_on
    ∷ deals
    ∷ at_session 2 goes_on
    ∷ at_session 1 goes_on
    ∷ at_session 2 goes_on
    ∷ deals
    ∷ []

both-sane :
    (k : ℕ)
    → (goal big_endian k
        (head [])
        no_logic
        (frames little_endian both)
        (frames little_endian both)).0
      ≢ broken
both-sane k q = cc (q, fed)
  where
    fed :
        goal big_endian k (head []) no_logic (frames little_endian both) (frames little_endian both)
        ≡ (head [], with_posted no_logic (logic_nodes k both))
    fed = feeds-frames little_endian big_endian k both no_logic both-IsMessage

started_fleet-Isolated_example :
    (w : Fleet) × (run_fleet big_endian events
        (start_fleet readers (λ k. frames little_endian (sent_to k)))
      ≡ done w)
    × Isolated big_endian (λ k. frames little_endian (sent_to k)) w
started_fleet-Isolated_example =
    started_fleet-Isolated big_endian events readers (λ k. frames little_endian (sent_to k))
      (λ k. fresh_reader-Shows) both-sane

-- Both sessions are at their headers again.
abbrev all_events : List FleetEvent
all_events =
    events
    ++ (at_session 1 goes_on
        ∷ at_session 1 (gives 100)
        ∷ at_session 1 dispatches
        ∷ at_session 1 goes_on
        ∷ at_session 1 goes_on
        ∷ at_session 2 goes_on
        ∷ [])

abbrev begun : Fleet
begun = start_fleet readers (λ k. frames (senders k) (sent_to k))

-- The peer of session 1 asks one question, and the others none.
abbrev pub question : Question
question = record { payload = 104 ∷ 105 ∷ []; id = 7; data_text = 104 ∷ 105 ∷ [] }

abbrev pub questions : ℕ → List Question
questions k = if k == 1 then question ∷ [] else []

pub questions-AreQuestions : (k : ℕ) → All (IsQuestion plain_json) (questions k)
questions-AreQuestions k = elim (Bool-cases (k == 1)) [
  | inl one ↦ rw one (
    record {
      request_valid = hello-IsMessage;
      has_id = refl;
      has_text = refl;
      reply_valid = record { id_fits = omega arith; id_passes = refl; len_passes = omega arith };
    },
    tt,
  )
  | inr other ↦ rw other tt
]

pub questions-fit : (k : ℕ) → 0 + length (questions k) ≤ 1025
questions-fit k = elim (Bool-cases (k == 1)) [
  | inl one ↦ rw one (omega arith)
  | inr other ↦ rw other (omega arith)
]
