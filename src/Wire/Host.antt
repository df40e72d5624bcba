-- ===== src/Wire/Host.antt =====
-- The byte order of the machine. `memcpy` between a `short` and memory goes by the machine's order,
-- and `host_to_network_short` and `network_to_host_short` are Boost's: both are parameters. What is
-- used of them is that together they make the wire big-endian.
use asio_network.Base.{
  ℕ, ◌+◌, ◌*◌, ◌/◌, ◌%◌, ◌^◌, ◌<◌, ◌≡◌, refl, Option, none, some, [], ◌∷◌, ◌++◌, arith, ap, ◌∙◌,
}
use asio_network.Wire.Memory.{Bytes}

pub record Host : Type 0 where
  -- The `short` whose two bytes in memory are these, lowest address first.
  pub load_short : ℕ → ℕ → ℕ
  -- The byte of a `short` at its lowest address, and the one after it.
  pub first_byte : ℕ → ℕ
  pub second_byte : ℕ → ℕ
  pub host_to_network_short : ℕ → ℕ
  pub network_to_host_short : ℕ → ℕ
  pub receives_big_endian :
      (hi lo : ℕ) → hi < 256 → lo < 256 → network_to_host_short (load_short hi lo) ≡ hi * 256 + lo
  pub sends_high_first : (w : ℕ) → w < 2 ^ 16 → first_byte (host_to_network_short w) ≡ w / 256
  pub sends_low_second : (w : ℕ) → w < 2 ^ 16 → second_byte (host_to_network_short w) ≡ w % 256

-- `memcpy(&x, block, 2); x = network_to_host_short(x);`, a read past the block being `none`.
unfoldable pub short_of : Host → Bytes → Option ℕ
short_of host (a ∷ b ∷ _) = some (host.network_to_host_short (host.load_short a b))
short_of host _ = none

-- `x = host_to_network_short(w); memcpy(block, &x, 2);`, as the two bytes that are written.
unfoldable pub bytes_of_short : Host → ℕ → Bytes
bytes_of_short host w =
    let x = host.host_to_network_short w in host.first_byte x ∷ host.second_byte x ∷ []

-- A `short` that one machine writes is read back by another, whatever their byte orders.
pub short_of-bytes_of_short :
    (sender receiver : Host) (w : ℕ) (rest : Bytes)
    → w < 2 ^ 16
    → short_of receiver (bytes_of_short sender w ++ rest) ≡ some w
unfolding short_of bytes_of_short
short_of-bytes_of_short sender receiver w rest h =
    rw (sender.sends_high_first w h, sender.sends_low_second w h)
      (ap some (
        receiver.receives_big_endian (w / 256) (w % 256) (omega arith) (omega arith) ∙ omega arith))

-- A machine that keeps the low byte first, as x86 does, so that the conversions swap the bytes.
unfoldable pub swap_bytes : ℕ → ℕ
swap_bytes w = w % 256 * 256 + w / 256 % 256

pub swap_bytes_lem : (hi lo : ℕ) → hi < 256 → lo < 256 → swap_bytes (lo * 256 + hi) ≡ hi * 256 + lo
unfolding swap_bytes
swap_bytes_lem hi lo h l = omega arith

pub swap_bytes_low : (w : ℕ) → w < 2 ^ 16 → swap_bytes w % 256 ≡ w / 256
unfolding swap_bytes
swap_bytes_low w h = omega arith

pub swap_bytes_high : (w : ℕ) → w < 2 ^ 16 → swap_bytes w / 256 ≡ w % 256
unfolding swap_bytes
swap_bytes_high w h = omega arith

unfoldable pub little_endian : Host
unfolding swap_bytes
little_endian = record {
  load_short = λ a b. b * 256 + a;
  first_byte = λ w. w % 256;
  second_byte = λ w. w / 256;
  host_to_network_short = swap_bytes;
  network_to_host_short = swap_bytes;
  receives_big_endian = swap_bytes_lem;
  sends_high_first = swap_bytes_low;
  sends_low_second = swap_bytes_high;
}

-- A machine that keeps the high byte first, whose conversions do nothing.
unfoldable pub big_endian : Host
big_endian = record {
  load_short = λ a b. a * 256 + b;
  first_byte = λ w. w / 256;
  second_byte = λ w. w % 256;
  host_to_network_short = λ w. w;
  network_to_host_short = λ w. w;
  receives_big_endian = λ hi lo h l. refl;
  sends_high_first = λ w h. refl;
  sends_low_second = λ w h. refl;
}
