-- ===== src/Crc8.antt =====
-- src/hashmap.c, the CRC8 half: the table of remainders, built once, and the hash of a key.
-- A value of type `unsigned char` is a number below 256; a shift and a cast to it is `% 256`.
pub mod Reference
pub mod Polynomial
use Prim.Native.Nat.{bit_xor}
use minervabot.Prelude.{
  ℕ, zero, suc, ◌+◌, ◌*◌, ◌/◌, ◌%◌, Bool, true, false, List, [], ◌∷◌, ◌==◌, if◌then◌else◌, get_or,
}
use minervabot.CString.{Bytes}

-- the globals `table8` and `crc8_hinit`
pub record Crc8 : Type 0 where
  pub table8 : List ℕ
  pub crc8_hinit : Bool

abbrev pub crc8_polynomial : ℕ
crc8_polynomial = 0x9b

-- one round of the division: `remainder & CRC8_TOPBIT` is bit 7 of a byte
unfoldable pub divide_bit : ℕ → ℕ
divide_bit remainder =
    if remainder / 128 % 2 == 1
    then bit_xor (remainder * 2) crc8_polynomial % 256
    else remainder * 2 % 256

unfoldable pub divide_bits : ℕ → ℕ → ℕ
divide_bits zero remainder = remainder
divide_bits (suc bit) remainder = divide_bits bit (divide_bit remainder)

-- the loop over `dividend`, with `n` rounds left
fill : ℕ → ℕ → List ℕ
fill zero dividend = []
fill (suc n) dividend = divide_bits 8 dividend ∷ fill n (dividend + 1)

unfoldable pub remainders : List ℕ
unfolding fill divide_bits divide_bit
remainders = fill 256 0

abbrev pub crc8_init : Crc8
crc8_init = record { table8 = remainders; crc8_hinit = true }

-- the loop over the message
unfoldable pub divide_block : List ℕ → Bytes → ℕ → ℕ
divide_block table8 [] remainder = remainder
divide_block table8 (byte ∷ bytes) remainder =
    let index = bit_xor byte remainder in
    divide_block table8 bytes (bit_xor (get_or table8 index 0) (remainder * 256) % 256)

abbrev pub ready : Crc8 → Crc8
ready c = if c.crc8_hinit then c else crc8_init

unfoldable pub crc8_block : Crc8 → Bytes → ℕ × Crc8
crc8_block c bytes = let c' = ready c in (divide_block c'.table8 bytes 0 % 256, c')
