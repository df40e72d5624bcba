-- ===== src/Wire/Memory.antt =====
-- Blocks of bytes, and `memcpy` into and out of them. A copy that leaves its block is `none`: the
-- program's behaviour is then undefined.
use asio_network.Base.{
  drop-append, ℕ, ◌+◌, ◌≤◌, ◌<◌, ◌≡◌, sym, ap, ◌∙◌, Option, none, some, List, ◌++◌, append_assoc,
  arith, leb, if◌then◌else◌, le→leb, lt→leb, length, take, drop, length-append, length-take,
  length-drop, take-append,
}

abbrev pub Bytes : Type 0
Bytes = List ℕ

-- `memcpy(block + offset, bytes, n)` for the n bytes of the list.
unfoldable pub write_at : Bytes → ℕ → Bytes → Option Bytes
write_at block offset bytes =
    if leb (offset + length bytes) (length block)
    then some (take offset block ++ (bytes ++ drop (offset + length bytes) block))
    else none

-- The n bytes from `block + offset` on.
unfoldable pub read_at : Bytes → ℕ → ℕ → Option Bytes
read_at block offset n =
    if leb (offset + n) (length block) then some (take n (drop offset block)) else none

-- The block after a write inside its bounds.
abbrev pub written : Bytes → ℕ → Bytes → Bytes
written block offset bytes = take offset block ++ (bytes ++ drop (offset + length bytes) block)

pub write_at-inside :
    (block : Bytes) (offset : ℕ) (bytes : Bytes)
    → offset + length bytes ≤ length block
    → write_at block offset bytes ≡ some (written block offset bytes)
unfolding write_at
write_at-inside block offset bytes h = rw (le→leb _ _ h)

pub write_at-outside :
    (block : Bytes) (offset : ℕ) (bytes : Bytes)
    → length block < offset + length bytes
    → write_at block offset bytes ≡ none
unfolding write_at
write_at-outside block offset bytes h = rw (lt→leb _ _ h)

pub read_at-inside :
    (block : Bytes) (offset n : ℕ)
    → offset + n ≤ length block
    → read_at block offset n ≡ some (take n (drop offset block))
unfolding read_at
read_at-inside block offset n h = rw (le→leb _ _ h)

pub length-written :
    (block : Bytes) (offset : ℕ) (bytes : Bytes)
    → offset + length bytes ≤ length block
    → length (written block offset bytes) ≡ length block
length-written block offset bytes h = omega (
  arith,
  length-append (take offset block) (bytes ++ drop (offset + length bytes) block),
  length-append bytes (drop (offset + length bytes) block),
  length-take offset block,
  length-drop (offset + length bytes) block,
)

-- What stands before the end of the write: the old prefix and the new bytes.
pub take-written :
    (block : Bytes) (offset : ℕ) (bytes : Bytes) (n : ℕ)
    → offset + length bytes ≤ length block
    → offset + length bytes ≡ n
    → take n (written block offset bytes) ≡ take offset block ++ bytes
take-written block offset bytes n h e =
    ap (take n) (sym (append_assoc (take offset block) bytes _))
    ∙ take-append n (take offset block ++ bytes) _
        (omega (arith, length-append (take offset block) bytes, length-take offset block))

-- A write over the middle of a block, whose parts are known.
pub write_at-middle :
    (front mid back bytes : Bytes) (offset : ℕ)
    → length front ≡ offset
    → length mid ≡ length bytes
    → write_at (front ++ (mid ++ back)) offset bytes ≡ some (front ++ (bytes ++ back))
write_at-middle front mid back bytes offset e f =
    write_at-inside (front ++ (mid ++ back)) offset bytes
      (omega (arith, length-append front (mid ++ back), length-append mid back))
    ∙ rw (take-append offset front (mid ++ back) e) (
        ap (λ (rest : Bytes). some (front ++ (bytes ++ rest)))
          (ap (drop (offset + length bytes)) (sym (append_assoc front mid back))
            ∙ drop-append (offset + length bytes) (front ++ mid) back
                (omega (arith, length-append front mid))))

pub read_at-outside :
    (block : Bytes) (offset n : ℕ) → length block < offset + n → read_at block offset n ≡ none
unfolding read_at
read_at-outside block offset n h = rw (lt→leb _ _ h)
