-- ===== src/Service/Begun.antt =====
-- What a session has posted is a first part of what the stream machine makes of all its bytes.
use asio_network.Base.{
  ℕ, ◌≡◌, refl, sym, ap, ◌∙◌, inl, inr, Bool-cases, Option, none, some, List, [], ◌∷◌, ◌++◌,
  append-nil, append_assoc, ltb, length,
}
use asio_network.Base.Int.{ℤ, pos, negsuc, signed16}
use asio_network.Base.{zero, suc}
use asio_network.Wire.Memory.{Bytes}
use asio_network.Wire.Host.{Host}
use asio_network.Framing.Protocol.{Header, invalid, announce}
use asio_network.Framing.Stream.{
  Frame, head, body, rejected, broken, feeds, feed, opened_by, opened_at, complete, settled,
  feeds-append,
}
use asio_network.Logic.{LogicNode, LogicSystem, post_msg2que}
use asio_network.Session.{csession_protocol}
use asio_network.Session.Format.{csession_header}
use asio_network.Session.Receive.{with_posted}
use asio_network.Strand.{Stranded}
use asio_network.Strand.Follows.{
  goal, Follows, is_armed, is_queued, is_handled, is_failing, is_over,
}

-- The first logic system, with more behind it.
abbrev pub Extends : LogicSystem → LogicSystem → Type 0
Extends logic logic' = (new : List LogicNode) × (logic' ≡ with_posted logic new)

Extends-refl : (logic : LogicSystem) → Extends logic logic
Extends-refl logic = (
  [],
  ap (λ (que : List LogicNode). record logic { msg_que = que }) (sym (append-nil logic.msg_que)),
)

Extends-trans : (a b c : LogicSystem) → Extends a b → Extends b c → Extends a c
Extends-trans a b c (new, e) (more, e') = (
  new ++ more,
  e'
      ∙ ap (λ (l : LogicSystem). with_posted l more) e
      ∙ ap (λ (que : List LogicNode). record a { msg_que = que }) (append_assoc a.msg_que new more),
)

module _ (host : Host) (uuid : ℕ) where
  opened_at-Extends :
      (id : ℕ) (len : ℤ) (logic : LogicSystem)
      → Extends logic (opened_at (csession_protocol host uuid) id len logic).1
  unfolding opened_at complete settled post_msg2que
  opened_at-Extends id (pos zero) logic = (_ ∷ [], refl)
  opened_at-Extends id (pos (suc n)) logic = Extends-refl logic
  opened_at-Extends id (negsuc n) logic = Extends-refl logic

  opened_by-Extends :
      (h : Option Header) (logic : LogicSystem)
      → Extends logic (opened_by (csession_protocol host uuid) h logic).1
  unfolding opened_by
  opened_by-Extends none logic = Extends-refl logic
  opened_by-Extends (some invalid) logic = Extends-refl logic
  opened_by-Extends (some (announce id len)) logic = opened_at-Extends id (signed16 len) logic

  feed-Extends :
      (b : ℕ) (f : Frame) (logic : LogicSystem)
      → Extends logic (feed (csession_protocol host uuid) b f logic).1
  unfolding feed complete settled post_msg2que
  feed-Extends b (head bs) logic = elim (Bool-cases (ltb (length (bs ++ (b ∷ []))) 4)) [
    | inl more ↦ rw more (Extends-refl logic)
    | inr full ↦ rw full (opened_by-Extends (csession_header host (bs ++ (b ∷ []))) logic)
  ]
  feed-Extends b (body id len bs) logic = elim (Bool-cases (ltb (length (bs ++ (b ∷ []))) len)) [
    | inl more ↦ rw more (Extends-refl logic)
    | inr full ↦ rw full (_ ∷ [], refl)
  ]
  feed-Extends b rejected logic = Extends-refl logic
  feed-Extends b broken logic = Extends-refl logic

  feeds-Extends :
      (bs : Bytes) (f : Frame) (logic : LogicSystem)
      → Extends logic (feeds (csession_protocol host uuid) bs f logic).1
  unfolding feeds
  feeds-Extends [] f logic = Extends-refl logic
  feeds-Extends (b ∷ bs) f logic =
      Extends-trans logic (feed (csession_protocol host uuid) b f logic).1 _
        (feed-Extends b f logic)
        (feeds-Extends bs (feed (csession_protocol host uuid) b f logic).0
          (feed (csession_protocol host uuid) b f logic).1)

  module _ (f0 : Frame) (logic0 : LogicSystem) (stream : Bytes) where
    from_taken :
        (f : Frame) (taken more : Bytes) (logic : LogicSystem)
        → taken ++ more ≡ stream
        → goal host uuid f0 logic0 stream taken ≡ (f, logic)
        → Extends logic (goal host uuid f0 logic0 stream stream).1
    from_taken f taken more logic same g =
        rw (sym same, feeds-append (csession_protocol host uuid) taken more f0 logic0, g)
          (feeds-Extends more f logic)

    pub posted-Extends :
        (s : Stranded)
        → Follows host uuid f0 logic0 stream s
        → Extends s.logic (goal host uuid f0 logic0 stream stream).1
    posted-Extends s (is_armed f taken a q l sh same g) =
        from_taken f taken s.incoming s.logic same g
    posted-Extends s (is_queued f taken chunk a q l sh same nonempty g) =
        from_taken f taken (chunk ++ s.incoming) s.logic
          (sym (append_assoc taken chunk s.incoming) ∙ same) g
    posted-Extends s (is_handled f taken rest buffer c n a q at sh w left same g) =
        Extends-trans s.logic (feeds (csession_protocol host uuid) rest f s.logic).1 _
          (feeds-Extends rest f s.logic)
          (from_taken (feeds (csession_protocol host uuid) rest f s.logic).0 taken s.incoming
            (feeds (csession_protocol host uuid) rest f s.logic).1 same g)
    posted-Extends s (is_failing f taken a q l same g) =
        from_taken f taken s.incoming s.logic same g
    posted-Extends s (is_over f taken a q l same g) = from_taken f taken s.incoming s.logic same g
