-- ===== src/Crc8/Reference.antt =====
-- The table-driven hash computes the plain bit-at-a-time remainder.
use Prim.Native.Nat.{bit_xor}
use minervabot.Prelude.{
  ℕ, zero, suc, ◌+◌, ◌*◌, ◌%◌, ◌<◌, ◌≡◌, refl, ap, ◌∙◌, Bool, true, ◌&&◌, [], ◌∷◌, arith, ltb,
  ltb→lt, ◌==◌, ==_iff, get_or, inl, inr, Bool-cases,
}
use minervabot.CString.{Bytes}
use minervabot.Crc8.{
  Crc8, divide_bits, fill, remainders, crc8_init, divide_block, ready, crc8_block,
}

-- a test run on every number below a bound, the largest first
unfoldable pub each_below : (ℕ → Bool) → ℕ → Bool
each_below test zero = true
each_below test (suc bound) = test bound && each_below test bound

pub from_each :
    (test : ℕ → Bool) (bound i : ℕ) → i < bound → each_below test bound ≡ true → test i ≡ true
unfolding each_below
from_each test (suc bound) i lt passed = ground (arith, from_each test bound i)
from_each test zero i lt passed = absurd (omega arith)

-- every pair of bytes
unfoldable pub pairs : (ℕ → ℕ → Bool) → Bool
unfolding each_below
pairs p = each_below (λ a. each_below (p a) 256) 256

pub pairs_sound : (p : ℕ → ℕ → Bool) (a b : ℕ) → pairs p ≡ true → a < 256 → b < 256 → p a b ≡ true
unfolding pairs
pairs_sound p a b h la lb =
    from_each (p a) 256 b lb (from_each (λ a. each_below (p a) 256) 256 a la h)

xor_byte_table : pairs (λ a b. ltb (bit_xor a b) 256) ≡ true
unfolding pairs
xor_byte_table = refl

pub xor_byte : (a b : ℕ) → a < 256 → b < 256 → bit_xor a b < 256
xor_byte a b la lb = ltb→lt _ _ (pairs_sound _ a b xor_byte_table la lb)

xor_high_table : pairs (λ a b. bit_xor a (b * 256) % 256 == a) ≡ true
unfolding pairs
xor_high_table = refl

-- the bits that `remainder << 8` adds are dropped by the cast to a byte
xor_high : (a b : ℕ) → a < 256 → b < 256 → bit_xor a (b * 256) % 256 ≡ a
xor_high a b la lb = (==_iff _ a).0 (pairs_sound _ a b xor_high_table la lb)

divide_table : each_below (λ a. ltb (divide_bits 8 a) 256) 256 ≡ true
unfolding each_below remainders
divide_table = refl

pub divide_bits-byte : (a : ℕ) → a < 256 → divide_bits 8 a < 256
divide_bits-byte a h = ltb→lt _ _ (from_each (λ x. ltb (divide_bits 8 x) 256) 256 a h divide_table)

get_or-fill : (n d i : ℕ) → i < n → get_or (fill n d) i 0 ≡ divide_bits 8 (d + i)
unfolding fill
get_or-fill zero d i h = absurd (omega arith)
get_or-fill (suc n) d zero h = let e : d ≡ d + 0 = omega arith in ap (divide_bits 8) e
get_or-fill (suc n) d (suc i) h =
    let e : d + 1 + i ≡ d + suc i = omega arith in
    get_or-fill n (d + 1) i (omega arith) ∙ ap (divide_bits 8) e

remainders-fill : (i : ℕ) → get_or remainders i 0 ≡ get_or (fill 256 0) i 0
remainders-fill i = ap (λ t. get_or t i 0) equation
  where
    equation : remainders ≡ fill 256 0
    equation = unfold remainders in refl

remainders_entry : (i : ℕ) → i < 256 → get_or remainders i 0 ≡ divide_bits 8 i
remainders_entry i h = remainders-fill i ∙ get_or-fill 256 0 i h ∙ ap (divide_bits 8) (omega arith)

-- The rounds without the table: for each byte, eight rounds on the remainder with the byte added to it.
unfoldable pub remainder_of : ℕ → Bytes → ℕ
remainder_of r [] = r
remainder_of r (byte ∷ bytes) = remainder_of (divide_bits 8 (bit_xor byte r)) bytes

abbrev pub AreBytes : Bytes → Type 0
AreBytes [] = Unit
AreBytes (b ∷ bs) = (b < 256) × AreBytes bs

divide_block-remainder_of :
    (bytes : Bytes) (r : ℕ)
    → AreBytes bytes
    → r < 256
    → (divide_block remainders bytes r ≡ remainder_of r bytes) × (remainder_of r bytes < 256)
unfolding divide_block remainder_of
divide_block-remainder_of [] r h lt = (refl, lt)
divide_block-remainder_of (byte ∷ bytes) r h lt =
    let index = xor_byte byte r h.0 lt in
    let small = divide_bits-byte (bit_xor byte r) index in
    let step : bit_xor (get_or remainders (bit_xor byte r) 0) (r * 256) % 256
        ≡ divide_bits 8 (bit_xor byte r) =
      rw (remainders_entry _ index) (xor_high _ r small lt) in
    rw step (divide_block-remainder_of bytes _ h.1 small)

ready_init : (c : Crc8) → (c.crc8_hinit ≡ true → c ≡ crc8_init) → ready c ≡ crc8_init
ready_init c valid = elim (Bool-cases c.crc8_hinit) [ inl e ↦ simp e (valid e) | inr e ↦ rw e ]

-- Whether the table is there yet or not, the first call leaves it ready and the hash of a message
-- is what the rounds bit by bit make of it, a number below 256 that indexes a bucket.
pub crc8_block-remainder_of :
    (c : Crc8) (bytes : Bytes)
    → AreBytes bytes
    → (c.crc8_hinit ≡ true → c ≡ crc8_init)
    → ((crc8_block c bytes).0 ≡ remainder_of 0 bytes)
      × ((crc8_block c bytes).0 < 256)
      × ((crc8_block c bytes).1 ≡ crc8_init)
unfolding crc8_block
crc8_block-remainder_of c bytes h valid =
    let (value, small) = divide_block-remainder_of bytes 0 h (omega arith) in
    rw (ready_init c valid) (omega arith, omega arith, refl)
