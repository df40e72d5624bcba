-- ===== src/Mirror/Alternates.antt =====
-- The operations of the session of AsyncEchoServer, one after the other.
use asio_network.Base.{
  ◌≡◌, refl, ◌∙◌, true, false, List, [], ◌∷◌, ◌++◌, append-nil, length, take, take-append,
}
use asio_network.Base.{ℕ, Bool-cases, inl, inr, ap, ◌⊎◌, ltb, ltb→le, take-length}
use asio_network.Mirror.{Operation}
use asio_network.Wire.Memory.{Bytes}
use asio_network.Framing.Reader.Loop.{received_in}
use asio_network.Mirror.{
  reads, sends, Event, read_fails, arrives, send_fails, sent_out, Traffic, on_event, events,
  handle_mirror_read, handle_mirror_write, delete_mirror, chunk_size,
}

-- Either a read is under way and all that was read has been given to sends; or the send of the rest is;
-- or the session is deleted and nothing is under way.
pub data Alternates (t : Traffic) : Type 0 where
  is_reading :
      t.session.deleted ≡ false
      → t.session.operations ≡ reads ∷ []
      → t.offered ≡ t.received
      → Alternates t
  is_sending :
      (bytes : Bytes)
      → t.session.deleted ≡ false
      → t.session.operations ≡ sends bytes ∷ []
      → t.offered ++ bytes ≡ t.received
      → Alternates t
  is_deleted :
      (rest : Bytes)
      → t.session.deleted ≡ true
      → t.session.operations ≡ []
      → t.offered ++ rest ≡ t.received
      → Alternates t

pub on_event-Alternates :
    (e : Event) (t : Traffic) → Alternates t → Alternates (on_event t.session.operations e t)
unfolding on_event handle_mirror_read handle_mirror_write delete_mirror
on_event-Alternates read_fails t (is_reading d o s) =
    rw o (is_deleted [] refl refl (append-nil t.offered ∙ s))
on_event-Alternates (arrives chunk) t (is_reading d o s) = rw o (
    is_sending (take (length chunk) (received_in chunk_size chunk)) d refl
      (rw (take-append (length chunk) chunk _ refl, s) refl))
on_event-Alternates send_fails t (is_reading d o s) = rw o (is_reading d refl s)
on_event-Alternates (sent_out n) t (is_reading d o s) = rw o (is_reading d refl s)
on_event-Alternates read_fails t (is_sending bytes d o s) = rw o (is_sending bytes d refl s)
on_event-Alternates (arrives chunk) t (is_sending bytes d o s) = rw o (is_sending bytes d refl s)
on_event-Alternates send_fails t (is_sending bytes d o s) = rw o (is_deleted bytes refl refl s)
on_event-Alternates (sent_out n) t (is_sending bytes d o s) = rw o (is_reading d refl s)
on_event-Alternates read_fails t (is_deleted rest d o s) = rw o (is_deleted rest d refl s)
on_event-Alternates (arrives chunk) t (is_deleted rest d o s) = rw o (is_deleted rest d refl s)
on_event-Alternates send_fails t (is_deleted rest d o s) = rw o (is_deleted rest d refl s)
on_event-Alternates (sent_out n) t (is_deleted rest d o s) = rw o (is_deleted rest d refl s)

-- From one of these states, of which Start makes the first, a session stays in them whatever the
-- socket does: it has one operation under way until it is deleted and none after that, and what it
-- has given to its sends is all that it has read, but for the chunk whose send is under way or has failed.
events-Alternates : (es : List Event) (t : Traffic) → Alternates t → Alternates (events es t)
unfolding events
events-Alternates [] t a = a
events-Alternates (e ∷ es) t a =
    events-Alternates es (on_event t.session.operations e t) (on_event-Alternates e t a)

-- What has been sent is all that the completed sends were given, unless one has taken less than that.
abbrev pub Delivers : Traffic → Type 0
Delivers t = ((t.cut ≡ false) × (t.sent ≡ t.offered)) ⊎ (t.cut ≡ true)

sent-Delivers :
    (n : ℕ) (bytes sent offered : Bytes)
    → sent ≡ offered
    → ((ltb n (length bytes) ≡ false) × (sent ++ take n bytes ≡ offered ++ bytes))
      ⊎ (ltb n (length bytes) ≡ true)
sent-Delivers n bytes sent offered same = elim (Bool-cases (ltb n (length bytes))) [
  | inl less ↦ inr less
  | inr all ↦ inl (
    all,
    ap (λ (taken : Bytes). sent ++ taken) (take-length n bytes (ltb→le n (length bytes) all))
        ∙ ap (λ (front : Bytes). front ++ bytes) same,
  )
]

on_event-Delivers :
    (operations : List Operation) (e : Event) (t : Traffic)
    → Delivers t
    → Delivers (on_event operations e t)
unfolding on_event
on_event-Delivers [] e t d = d
on_event-Delivers (reads ∷ rest) read_fails t d = d
on_event-Delivers (reads ∷ rest) (arrives chunk) t d = d
on_event-Delivers (reads ∷ rest) send_fails t d = d
on_event-Delivers (reads ∷ rest) (sent_out n) t d = d
on_event-Delivers (sends bytes ∷ rest) read_fails t d = d
on_event-Delivers (sends bytes ∷ rest) (arrives chunk) t d = d
on_event-Delivers (sends bytes ∷ rest) send_fails t d = d
on_event-Delivers (sends bytes ∷ rest) (sent_out n) t (inl (whole, same)) =
    rw whole (sent-Delivers n bytes t.sent t.offered same)
on_event-Delivers (sends bytes ∷ rest) (sent_out n) t (inr less) = rw less (inr refl)

pub record Echoes (t : Traffic) : Type 0 where
  pub alternates : Alternates t
  pub delivers : Delivers t

pub on_event-Echoes :
    (e : Event) (t : Traffic) → Echoes t → Echoes (on_event t.session.operations e t)
on_event-Echoes e t v = record {
  alternates = on_event-Alternates e t v.alternates;
  delivers = on_event-Delivers t.session.operations e t v.delivers;
}
