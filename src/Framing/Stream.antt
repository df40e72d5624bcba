-- ===== src/Framing/Stream.antt =====
-- The specification of a framed stream: a machine that takes one byte at a time.
use asio_network.Base.{
  ◌^◌, ℕ, zero, suc, ◌+◌, ◌<◌, ◌≡◌, refl, ap, ◌∙◌, Option, none, some, [], ◌∷◌, ◌++◌, append_assoc,
  append-nil, arith, ltb, if◌then◌else◌, length, length-append, lt→ltb, le→ltb,
}
use asio_network.Base.Int.{ℤ, pos, negsuc, signed16}
use asio_network.Wire.Memory.{Bytes}
use asio_network.Wire.Exec.{Exec, done, undefined, throws}
use asio_network.Wire.Node.Laws.{signed16_lem}
use asio_network.Framing.Protocol.{Protocol, Header, invalid, announce}

pub data Frame : Type 0 where
  -- In the header, after these bytes of it.
  head : Bytes → Frame
  -- In the message of this id and length, after these bytes of it.
  body : (id len : ℕ) → Bytes → Frame
  -- A header was refused: what follows is not looked at.
  rejected : Frame
  -- A negative length, or a message whose processing fails: the program's run has no value.
  broken : Frame

module _ {X : Type 0} (P : Protocol X) where
  open P use {head_len, header, deliver}

  unfoldable pub settled : Exec X → X → Frame × X
  settled (done x') x = (head [], x')
  settled undefined x = (broken, x)
  settled throws x = (broken, x)

  unfoldable pub complete : ℕ → Bytes → X → Frame × X
  complete id payload x = settled (deliver id payload x) x

  -- The header is complete. An empty message is complete at once.
  unfoldable pub opened_at : ℕ → ℤ → X → Frame × X
  opened_at id (pos zero) x = complete id [] x
  opened_at id (pos (suc n)) x = (body id (suc n) [], x)
  opened_at id (negsuc n) x = (broken, x)

  unfoldable pub opened_by : Option Header → X → Frame × X
  opened_by none x = (broken, x)
  opened_by (some invalid) x = (rejected, x)
  opened_by (some (announce id len)) x = opened_at id (signed16 len) x

  unfoldable pub feed : ℕ → Frame → X → Frame × X
  feed b (head bs) x =
      let bs' = bs ++ (b ∷ []) in
      if ltb (length bs') head_len then (head bs', x) else opened_by (header bs') x
  feed b (body id len bs) x =
      let bs' = bs ++ (b ∷ []) in
      if ltb (length bs') len then (body id len bs', x) else complete id bs' x
  feed b rejected x = (rejected, x)
  feed b broken x = (broken, x)

  unfoldable pub feeds : Bytes → Frame → X → Frame × X
  unfolding feed
  feeds [] f x = (f, x)
  feeds (b ∷ bs) f x = let s = feed b f x in feeds bs s.0 s.1

  -- A stream may be cut anywhere.
  pub feeds-append :
      (front bs : Bytes) (f : Frame) (x : X)
      → feeds (front ++ bs) f x ≡ feeds bs (feeds front f x).0 (feeds front f x).1
  unfolding feeds
  feeds-append [] bs f x = refl
  feeds-append (a ∷ front) bs f x = feeds-append front bs (feed a f x).0 (feed a f x).1

  pub feeds-rejected : (bs : Bytes) (x : X) → feeds bs rejected x ≡ (rejected, x)
  unfolding feeds
  feeds-rejected [] x = refl
  feeds-rejected (b ∷ bs) x = feeds-rejected bs x

  pub feeds-broken : (bs : Bytes) (x : X) → feeds bs broken x ≡ (broken, x)
  unfolding feeds
  feeds-broken [] x = refl
  feeds-broken (b ∷ bs) x = feeds-broken bs x

  -- Bytes that do not complete the header are collected.
  pub feeds-head :
      (cs bs : Bytes) (x : X)
      → length bs + length cs < head_len
      → feeds cs (head bs) x ≡ (head (bs ++ cs), x)
  unfolding feeds
  feeds-head [] bs x h = rw append-nil
  feeds-head (c ∷ cs) bs x h =
      rw (lt→ltb (length (bs ++ (c ∷ []))) head_len (omega (arith, length-append bs (c ∷ [])))) (
        feeds-head cs (bs ++ (c ∷ [])) x (omega (arith, length-append bs (c ∷ [])))
        ∙ rw append_assoc)

  -- Bytes that complete it open the message.
  pub feeds_head_full :
      (cs bs : Bytes) (x : X)
      → length bs < head_len
      → length bs + length cs ≡ head_len
      → feeds cs (head bs) x ≡ opened_by (header (bs ++ cs)) x
  unfolding feeds
  feeds_head_full [] bs x h e = absurd (omega arith)
  feeds_head_full (c ∷ []) bs x h e =
      rw (le→ltb (length (bs ++ (c ∷ []))) head_len (omega (arith, length-append bs (c ∷ []))))
  feeds_head_full (c ∷ d ∷ cs) bs x h e =
      rw (lt→ltb (length (bs ++ (c ∷ []))) head_len (omega (arith, length-append bs (c ∷ [])))) (
        feeds_head_full (d ∷ cs) (bs ++ (c ∷ [])) x (omega (arith, length-append bs (c ∷ [])))
          (omega (arith, length-append bs (c ∷ [])))
        ∙ rw append_assoc)

  -- The same for a message.
  pub feeds-body :
      (cs bs : Bytes) (id len : ℕ) (x : X)
      → length bs + length cs < len
      → feeds cs (body id len bs) x ≡ (body id len (bs ++ cs), x)
  unfolding feeds
  feeds-body [] bs id len x h = rw append-nil
  feeds-body (c ∷ cs) bs id len x h =
      rw (lt→ltb (length (bs ++ (c ∷ []))) len (omega (arith, length-append bs (c ∷ [])))) (
        feeds-body cs (bs ++ (c ∷ [])) id len x (omega (arith, length-append bs (c ∷ [])))
        ∙ rw append_assoc)

  pub feeds_body_full :
      (cs bs : Bytes) (id len : ℕ) (x : X)
      → length bs < len
      → length bs + length cs ≡ len
      → feeds cs (body id len bs) x ≡ complete id (bs ++ cs) x
  unfolding feeds
  feeds_body_full [] bs id len x h e = absurd (omega arith)
  feeds_body_full (c ∷ []) bs id len x h e =
      rw (le→ltb (length (bs ++ (c ∷ []))) len (omega (arith, length-append bs (c ∷ []))))
  feeds_body_full (c ∷ d ∷ cs) bs id len x h e =
      rw (lt→ltb (length (bs ++ (c ∷ []))) len (omega (arith, length-append bs (c ∷ [])))) (
        feeds_body_full (d ∷ cs) (bs ++ (c ∷ [])) id len x
          (omega (arith, length-append bs (c ∷ []))) (omega (arith, length-append bs (c ∷ [])))
        ∙ rw append_assoc)

  opened_payload :
      (payload rest : Bytes) (id : ℕ) (x : X)
      → feeds
          (payload ++ rest)
          (opened_at id (pos (length payload)) x).0
          (opened_at id (pos (length payload)) x).1
        ≡ feeds rest (complete id payload x).0 (complete id payload x).1
  unfolding opened_at
  opened_payload [] rest id x = refl
  opened_payload (b ∷ bs) rest id x =
      feeds-append (b ∷ bs) rest (body id (suc (length bs)) []) x
      ∙ ap (λ (s : Frame × X). feeds rest s.0 s.1)
          (feeds_body_full (b ∷ bs) [] id (suc (length bs)) x (omega arith) (omega arith))

  -- A whole frame: a header that announces the payload's length, and the payload.
  pub feeds-frame :
      (front payload rest : Bytes) (id : ℕ) (x : X)
      → length front ≡ head_len
      → header front ≡ some (announce id (length payload))
      → length payload < 2 ^ 15
      → feeds (front ++ (payload ++ rest)) (head []) x
        ≡ feeds rest (complete id payload x).0 (complete id payload x).1
  unfolding opened_by
  feeds-frame front payload rest id x size announced small =
      feeds-append front (payload ++ rest) (head []) x
      ∙ ap (λ (s : Frame × X). feeds (payload ++ rest) s.0 s.1)
          (feeds_head_full front [] x P.head_pos (omega arith)
            ∙ ap (λ (h : Option Header). opened_by h x) announced
            ∙ ap (λ (z : ℤ). opened_at id z x) (signed16_lem (length payload) small))
      ∙ opened_payload payload rest id x
