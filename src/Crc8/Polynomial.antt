-- ===== src/Crc8/Polynomial.antt =====
-- The hash of src/hashmap.c as a remainder of polynomials over the integers modulo 2, by long division of lists
-- of coefficients.
use Prim.Native.Nat.{bit_xor}
use minervabot.Prelude.{
  ℕ, zero, suc, ◌+◌, ◌*◌, ◌/◌, ◌%◌, ◌<◌, ◌≡◌, refl, sym, ap, ◌∙◌, Bool, true, false, not, ◌&&◌,
  List, [], ◌∷◌, ◌++◌, arith, ◌==◌, length, length-append, replicate,
}
use mathlib.Core.List.{append_assoc}
use minervabot.CString.{Bytes}
use minervabot.Crc8.{Crc8, divide_bits, divide_bit, crc8_init, crc8_block}
use minervabot.Crc8.Reference.{
  each_below, from_each, pairs, pairs_sound, xor_byte, divide_bits-byte, AreBytes, remainder_of,
  crc8_block-remainder_of,
}

-- the sum of two coefficients
abbrev pub add : Bool → Bool → Bool
add false b = b
add true b = not b

-- a polynomial added to the highest coefficients of another
abbrev pub add_to_front : List Bool → List Bool → List Bool
add_to_front [] ds = []
add_to_front (b ∷ bs) [] = b ∷ bs
add_to_front (b ∷ bs) (d ∷ ds) = add b d ∷ add_to_front bs ds

-- x⁸ + x⁷ + x⁴ + x³ + x + 1, without its highest coefficient
abbrev pub divisor : List Bool
divisor = true ∷ false ∷ false ∷ true ∷ true ∷ false ∷ true ∷ true ∷ []

-- long division, with the number of coefficients still to be taken away: where the highest is 1, the divisor
-- is taken from the dividend
abbrev pub long_division : ℕ → List Bool → List Bool
long_division zero bs = bs
long_division (suc n) [] = []
long_division (suc n) (false ∷ bs) = long_division n bs
long_division (suc n) (true ∷ bs) = long_division n (add_to_front bs divisor)

-- the coefficients of a byte, the highest first
abbrev pub bits : ℕ → List Bool
bits a =
    (a / 128 % 2 == 1)
    ∷ (a / 64 % 2 == 1)
    ∷ (a / 32 % 2 == 1)
    ∷ (a / 16 % 2 == 1)
    ∷ (a / 8 % 2 == 1)
    ∷ (a / 4 % 2 == 1)
    ∷ (a / 2 % 2 == 1)
    ∷ (a % 2 == 1)
    ∷ []

abbrev pub message_bits : Bytes → List Bool
message_bits [] = []
message_bits (byte ∷ bytes) = bits byte ++ message_bits bytes

-- the message times x⁸
abbrev pub dividend : Bytes → List Bool
dividend bytes = message_bits bytes ++ replicate 8 false

-- one round of the division on a register in front of the rest
shift : List Bool → List Bool
shift [] = []
shift (false ∷ bs) = bs ++ false ∷ []
shift (true ∷ bs) = add_to_front (bs ++ false ∷ []) divisor

shift_often : ℕ → List Bool → List Bool
shift_often zero bs = bs
shift_often (suc n) bs = shift_often n (shift bs)

same_bit : Bool → Bool → Bool
same_bit a b = not (add a b)

same_bits : List Bool → List Bool → Bool
same_bits [] [] = true
same_bits (a ∷ xs) (b ∷ bs) = same_bit a b && same_bits xs bs
same_bits _ _ = false

same_bits-≡ : (xs bs : List Bool) → same_bits xs bs ≡ true → xs ≡ bs
unfolding same_bits same_bit
same_bits-≡ [] [] h = refl
same_bits-≡ (false ∷ xs) (false ∷ bs) h = ap (◌∷◌ false) (same_bits-≡ xs bs h)
same_bits-≡ (true ∷ xs) (true ∷ bs) h = ap (◌∷◌ true) (same_bits-≡ xs bs h)
same_bits-≡ (false ∷ xs) (true ∷ bs) h = cc
same_bits-≡ (true ∷ xs) (false ∷ bs) h = cc
same_bits-≡ [] (b ∷ bs) h = cc
same_bits-≡ (a ∷ xs) [] h = cc

xor_bits_table :
    pairs (λ a b. same_bits (add_to_front (bits a) (bits b)) (bits (bit_xor a b))) ≡ true
unfolding pairs each_below same_bits same_bit
xor_bits_table = refl

shift_table :
    each_below (λ a. same_bits (shift_often 8 (bits a)) (bits (divide_bits 8 a))) 256 ≡ true
unfolding each_below same_bits same_bit shift_often shift divide_bits divide_bit
shift_table = refl

add-false : (b : Bool) → add b false ≡ b
add-false false = refl
add-false true = refl

add_assoc : (a b c : Bool) → add (add a b) c ≡ add a (add b c)
add_assoc false b c = refl
add_assoc true false c = refl
add_assoc true true false = refl
add_assoc true true true = refl

add_to_front-nil : (bs : List Bool) → add_to_front bs [] ≡ bs
add_to_front-nil [] = refl
add_to_front-nil (b ∷ bs) = refl

-- a coefficient 0 behind the others adds nothing
add_to_front-snoc : (bs ds : List Bool) → add_to_front bs (ds ++ false ∷ []) ≡ add_to_front bs ds
add_to_front-snoc [] ds = refl
add_to_front-snoc (b ∷ bs) [] =
    ap (λ x. x ∷ add_to_front bs []) (add-false b) ∙ ap (◌∷◌ b) (add_to_front-nil bs)
add_to_front-snoc (b ∷ bs) (d ∷ ds) = ap (◌∷◌ (add b d)) (add_to_front-snoc bs ds)

add_to_front-twice :
    (bs ds es : List Bool)
    → length ds ≡ length es
    → add_to_front (add_to_front bs ds) es ≡ add_to_front bs (add_to_front ds es)
add_to_front-twice [] ds es h = refl
add_to_front-twice (b ∷ bs) [] [] h = refl
add_to_front-twice (b ∷ bs) [] (e ∷ es) h = absurd (omega arith)
add_to_front-twice (b ∷ bs) (d ∷ ds) [] h = absurd (omega arith)
add_to_front-twice (b ∷ bs) (d ∷ ds) (e ∷ es) h =
    ap (λ x. x ∷ add_to_front (add_to_front bs ds) es) (add_assoc b d e)
    ∙ ap (◌∷◌ (add b (add d e))) (add_to_front-twice bs ds es (omega arith))

add_to_front-append :
    (bs ds rest : List Bool)
    → length ds ≡ length bs
    → add_to_front (bs ++ rest) ds ≡ add_to_front bs ds ++ rest
add_to_front-append [] [] rest h = add_to_front-nil rest
add_to_front-append [] (d ∷ ds) rest h = absurd (omega arith)
add_to_front-append (b ∷ bs) [] rest h = absurd (omega arith)
add_to_front-append (b ∷ bs) (d ∷ ds) rest h =
    ap (◌∷◌ (add b d)) (add_to_front-append bs ds rest (omega arith))

-- one round, the register added to a polynomial whose highest coefficient is 0
long_division-shift :
    (n : ℕ) (b : Bool) (register bs : List Bool)
    → length register ≡ 7
    → long_division (suc n) (add_to_front (false ∷ bs) (b ∷ register))
      ≡ long_division n (add_to_front bs (shift (b ∷ register)))
unfolding shift
long_division-shift n false register bs seven =
    ap (long_division n) (sym (add_to_front-snoc bs register))
long_division-shift n true register bs seven = ap (long_division n) (
    ap (λ l. add_to_front l divisor) (sym (add_to_front-snoc bs register))
    ∙ add_to_front-twice bs (register ++ false ∷ []) divisor
        (length-append register (false ∷ []) ∙ omega arith))

shift-length :
    (b : Bool) (register : List Bool) → length register ≡ 7 → length (shift (b ∷ register)) ≡ 8
unfolding shift
shift-length false register seven = length-append register (false ∷ []) ∙ omega arith
shift-length true register seven =
    length-add_to_front (register ++ false ∷ []) divisor
    ∙ length-append register (false ∷ [])
    ∙ omega arith
  where
    length-add_to_front : (bs ds : List Bool) → length (add_to_front bs ds) ≡ length bs
    length-add_to_front [] ds = refl
    length-add_to_front (b ∷ bs) [] = refl
    length-add_to_front (b ∷ bs) (d ∷ ds) = ap suc (length-add_to_front bs ds)

long_division-shift_often :
    (k n : ℕ) (register bs : List Bool)
    → length register ≡ 8
    → long_division (k + n) (add_to_front (replicate k false ++ bs) register)
      ≡ long_division n (add_to_front bs (shift_often k register))
unfolding shift_often
long_division-shift_often zero n register bs eight =
    ap (λ m. long_division m (add_to_front bs register)) (omega arith)
long_division-shift_often (suc k) n [] bs eight = absurd (omega arith)
long_division-shift_often (suc k) n (b ∷ register) bs eight =
    let rounds : suc k + n ≡ suc (k + n) = omega arith in
    ap (λ m. long_division m (add_to_front (false ∷ (replicate k false ++ bs)) (b ∷ register)))
      rounds
    ∙ long_division-shift (k + n) b register (replicate k false ++ bs) (omega arith)
    ∙ long_division-shift_often k n (shift (b ∷ register)) bs
        (shift-length b register (omega arith))

-- a byte in front of the rest, the register added
long_division-byte :
    (a r n : ℕ) (rest : List Bool)
    → a < 256
    → r < 256
    → long_division (8 + n) (add_to_front (bits a ++ rest) (bits r))
      ≡ long_division n (add_to_front rest (bits (divide_bits 8 (bit_xor a r))))
long_division-byte a r n rest la lr =
    let sum : add_to_front (bits a) (bits r) ≡ bits (bit_xor a r) =
      same_bits-≡ _ _ (pairs_sound _ a r xor_bits_table la lr) in
    let shifted : shift_often 8 (bits (bit_xor a r)) ≡ bits (divide_bits 8 (bit_xor a r)) =
      same_bits-≡ _ _ (
        from_each (λ x. same_bits (shift_often 8 (bits x)) (bits (divide_bits 8 x))) 256
          (bit_xor a r) (xor_byte a r la lr) shift_table) in
    ap (long_division (8 + n))
      (add_to_front-append (bits a) (bits r) rest refl ∙ ap (λ l. l ++ rest) sum)
    ∙ ap (λ l. long_division (8 + n) (bits (bit_xor a r) ++ l)) (sym (add_to_front-nil rest))
    ∙ long_division-shift_often 8 n (bits (bit_xor a r)) rest refl
    ∙ ap (λ l. long_division n (add_to_front rest l)) shifted

remainder_of-long_division :
    (bytes : Bytes) (r : ℕ)
    → AreBytes bytes
    → r < 256
    → long_division (8 * length bytes) (add_to_front (dividend bytes) (bits r))
      ≡ bits (remainder_of r bytes)
unfolding remainder_of
remainder_of-long_division [] r h lt = refl
remainder_of-long_division (byte ∷ bytes) r h lt =
    ap (λ m. long_division m (add_to_front (dividend (byte ∷ bytes)) (bits r))) (omega arith)
    ∙ ap (λ l. long_division (8 + 8 * length bytes) (add_to_front l (bits r)))
        (append_assoc (bits byte) (message_bits bytes) (replicate 8 false))
    ∙ long_division-byte byte r (8 * length bytes) (dividend bytes) h.0 lt
    ∙ remainder_of-long_division bytes _ h.1 (divide_bits-byte _ (xor_byte byte r h.0 lt))

-- Whether the table is there yet or not, the first call leaves it ready, and the hash of a message of bytes is
-- below 256: its eight bits are the coefficients of the remainder, by x⁸ + x⁷ + x⁴ + x³ + x + 1, of the message
-- times x⁸.
pub crc8_block-long_division :
    (c : Crc8) (bytes : Bytes)
    → AreBytes bytes
    → (c.crc8_hinit ≡ true → c ≡ crc8_init)
    → (bits (crc8_block c bytes).0 ≡ long_division (8 * length bytes) (dividend bytes))
      × ((crc8_block c bytes).0 < 256)
      × ((crc8_block c bytes).1 ≡ crc8_init)
crc8_block-long_division c bytes h valid =
    let (value, small, filled) = crc8_block-remainder_of c bytes h valid in
    (
      ap bits value
          ∙ sym (remainder_of-long_division bytes 0 h (omega arith))
          ∙ ap (long_division (8 * length bytes)) (no_remainder (dividend bytes) 8),
      small,
      filled,
    )
  where
    no_remainder : (bs : List Bool) (n : ℕ) → add_to_front bs (replicate n false) ≡ bs
    no_remainder [] n = refl
    no_remainder (b ∷ bs) zero = refl
    no_remainder (b ∷ bs) (suc n) =
        ap (λ x. x ∷ add_to_front bs (replicate n false)) (add-false b)
        ∙ ap (◌∷◌ b) (no_remainder bs n)
