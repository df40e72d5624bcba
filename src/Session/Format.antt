-- ===== src/Session/Format.antt =====
-- The header of CSession.cpp, lines 90-109: an id and a length, each checked against MAX_LENGTH.
use asio_network.Base.{
  append-nil, sym, drop-append, ℕ, ◌<◌, ◌^◌, ◌≡◌, refl, ap, ◌∙◌, false, Option, none, some, [], ◌∷◌,
  ◌++◌, arith, if◌then◌else◌, length, drop,
}
use asio_network.Base.Int.{signed16, above}
use asio_network.Wire.Memory.{Bytes}
use asio_network.Wire.Host.{Host, short_of, bytes_of_short, short_of-bytes_of_short}
use asio_network.Wire.Node.Laws.{length-bytes_of_short}
use asio_network.Framing.Protocol.{Header, invalid, announce}

-- MAX_LENGTH of CSession.h: the size of `_data`, and the bound on ids and lengths.
abbrev pub max_length : ℕ
max_length = 2048

-- The length, once the id has passed.
unfoldable pub check_len : ℕ → Option ℕ → Option Header
check_len msg_id none = none
check_len msg_id (some msg_len) =
    some (if above (signed16 msg_len) max_length then invalid else announce msg_id msg_len)

unfoldable pub check_id : Host → Bytes → Option ℕ → Option Header
unfolding check_len
check_id host block none = none
check_id host block (some msg_id) =
    if above (signed16 msg_id) max_length
    then some invalid
    else check_len msg_id (short_of host (drop 2 block))

unfoldable pub csession_header : Host → Bytes → Option Header
unfolding check_id
csession_header host block = check_id host block (short_of host block)

pub csession_header_front :
    (host : Host) (front rest : Bytes)
    → length front ≡ 4
    → csession_header host (front ++ rest) ≡ csession_header host front
unfolding csession_header short_of
csession_header_front host (a ∷ b ∷ c ∷ d ∷ []) rest e = refl
csession_header_front host [] rest e = absurd (omega arith)
csession_header_front host (a ∷ []) rest e = absurd (omega arith)
csession_header_front host (a ∷ b ∷ []) rest e = absurd (omega arith)
csession_header_front host (a ∷ b ∷ c ∷ []) rest e = absurd (omega arith)
csession_header_front host (a ∷ b ∷ c ∷ d ∷ x ∷ front) rest e = absurd (omega arith)

pub head_pos : 0 < 4
head_pos = omega arith

-- Two `short`s that pass their checks are read back from the header that SendNode writes.
pub csession_header-short :
    (sender receiver : Host) (msg_id msg_len : ℕ)
    → msg_id < 2 ^ 16
    → msg_len < 2 ^ 16
    → above (signed16 msg_id) max_length ≡ false
    → above (signed16 msg_len) max_length ≡ false
    → csession_header receiver (bytes_of_short sender msg_id ++ bytes_of_short sender msg_len)
      ≡ some (announce msg_id msg_len)
unfolding csession_header check_len
csession_header-short sender receiver msg_id msg_len i l id_passes len_passes =
    rw (short_of-bytes_of_short sender receiver msg_id _ i) (
      rw id_passes (
        ap (λ (bs : Bytes). check_len msg_id (short_of receiver bs))
          (drop-append 2 (bytes_of_short sender msg_id) (bytes_of_short sender msg_len)
              (length-bytes_of_short sender msg_id)
            ∙ sym (append-nil (bytes_of_short sender msg_len)))
        ∙ ap (check_len msg_id) (short_of-bytes_of_short sender receiver msg_len [] l)
        ∙ rw len_passes))
