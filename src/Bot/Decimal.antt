-- ===== src/Bot/Decimal.antt =====
-- Numbers as text: what `atoi` makes of what `%d` prints.
use minervabot.Prelude.{
  ℕ, zero, suc, ◌+◌, ◌-◌, ◌*◌, ◌/◌, ◌%◌, ◌≤◌, ◌<◌, ◌≡◌, refl, ap, ◌∙◌, true, false, ◌&&◌, [], ◌∷◌,
  ◌++◌, arith, ◌==◌, ltb, leb, lt→ltb, Bool-cases, inl, inr, ℤ, pos, negsuc,
}
use minervabot.Run.{ok}
use minervabot.CString.{Bytes}
use minervabot.Bot.Perms.{
  digits, as_int, signed, skip_spaces, atoi, negative, decimal_digits, decimal,
}

-- every character is a digit
abbrev pub AllDigits : Bytes → Type 0
AllDigits [] = Unit
AllDigits (c ∷ s) = (48 ≤ c) × (c ≤ 57) × AllDigits s

digit : (c : ℕ) → 48 ≤ c → c ≤ 57 → (leb 48 c && leb c 57) ≡ true
digit c l h = ground arith

digits-append :
    (s : Bytes) (n c : ℕ)
    → AllDigits s
    → 48 ≤ c
    → c ≤ 57
    → digits n (s ++ c ∷ []) ≡ digits n s * 10 + (c - 48)
unfolding digits
digits-append [] n c h l u = rw (digit c l u, digits)
digits-append (x ∷ s) n c (lx, ux, h) l u =
    rw (digit x lx ux, digits) (digits-append s (n * 10 + (x - 48)) c h l u)

AllDigits-append : (c : ℕ) (s : Bytes) → AllDigits s → 48 ≤ c → c ≤ 57 → AllDigits (s ++ c ∷ [])
AllDigits-append c [] h l u = (l, u, tt)
AllDigits-append c (x ∷ s) (lx, ux, h) l u = (lx, ux, AllDigits-append c s h l u)

decimal_digits-small : (fuel n : ℕ) → ltb n 10 ≡ true → decimal_digits (suc fuel) n ≡ (48 + n) ∷ []
unfolding decimal_digits
decimal_digits-small fuel n h = rw (h, decimal_digits)

decimal_digits-large :
    (fuel n : ℕ)
    → ltb n 10 ≡ false
    → decimal_digits (suc fuel) n ≡ decimal_digits fuel (n / 10) ++ (48 + n % 10) ∷ []
unfolding decimal_digits
decimal_digits-large fuel n h = rw (h, decimal_digits)

abbrev pub pow10 : ℕ → ℕ
pow10 zero = 1
pow10 (suc n) = 10 * pow10 n

-- a text of digits that reads as a number
abbrev Shows : Bytes → ℕ → Type 0
Shows s n = AllDigits s × (digits 0 s ≡ n)

one_digit : (n : ℕ) → n < 10 → Shows ((48 + n) ∷ []) n
unfolding digits
one_digit n h = (
  (omega arith, omega arith, tt),
  rw (digit (48 + n) (omega arith) (omega arith), digits) (omega arith),
)

decimal_digits-Shows : (fuel n : ℕ) → n < pow10 fuel → Shows (decimal_digits fuel n) n
unfolding digits decimal_digits
decimal_digits-Shows zero n h = (tt, omega arith)
decimal_digits-Shows (suc fuel) n h = elim (Bool-cases (ltb n 10)) [
  | inl s ↦ rw (decimal_digits-small fuel n s) (one_digit n (ground arith))
  | inr l ↦
      let (all, back) = decimal_digits-Shows fuel (n / 10) (omega arith) in
      rw (decimal_digits-large fuel n l) (
        AllDigits-append (48 + n % 10) _ all (omega arith) (omega arith),
        digits-append (decimal_digits fuel (n / 10)) 0 (48 + n % 10) all (omega arith) (omega arith)
            ∙ rw back (omega arith),
      )
]

signed-digits : (s : Bytes) → AllDigits s → (skip_spaces s ≡ s) × (signed s ≡ pos (digits 0 s))
unfolding skip_spaces signed digits
signed-digits [] h = (refl, refl)
signed-digits (c ∷ s) (l, u, h) = (ground arith, rw (no_minus c l, no_plus c l))
  where
    no_minus : (c : ℕ) → 48 ≤ c → (c == b'-') ≡ false
    no_minus c l = ground arith

    no_plus : (c : ℕ) → 48 ≤ c → (c == b'+') ≡ false
    no_plus c l = ground arith

-- the values of a 32-bit `int`
abbrev pub IsInt : ℤ → Type 0
IsInt (pos n) = n < 2147483648
IsInt (negsuc n) = n < 2147483648

as_int-IsInt : (v : ℤ) → IsInt v → as_int v ≡ ok v
unfolding as_int
as_int-IsInt (pos n) h = rw (lt→ltb n 2147483648 h)
as_int-IsInt (negsuc n) h = rw (lt→ltb n 2147483648 h)

negative-suc : (n m : ℕ) → m ≡ suc n → negative m ≡ negsuc n
unfolding negative
negative-suc n zero e = absurd (omega arith)
negative-suc n (suc m) e = ap negsuc (omega arith)

-- `atoi` reads back what `%d` prints, for every value of an `int`.
pub atoi-decimal : (v : ℤ) → IsInt v → atoi (decimal v) ≡ ok v
unfolding atoi decimal signed skip_spaces
atoi-decimal (pos n) h =
    let (all, back) = decimal_digits-Shows 10 n (omega arith) in
    let (skips, reads) = signed-digits (decimal_digits 10 n) all in
    ap as_int (ap signed skips ∙ reads ∙ ap pos back) ∙ as_int-IsInt (pos n) h
atoi-decimal (negsuc n) h =
    let (all, back) = decimal_digits-Shows 10 (n + 1) (omega arith) in
    ap as_int (
      signed_minus (decimal_digits 10 (n + 1))
      ∙ ap negative back
      ∙ negative-suc n (n + 1) (omega arith))
    ∙ as_int-IsInt (negsuc n) h
  where
    signed_minus : (s : Bytes) → signed (skip_spaces (b'-' ∷ s)) ≡ negative (digits 0 s)
    signed_minus s = refl

pub decimal_digits-AllDigits : (n : ℕ) → n ≤ 2147483648 → AllDigits (decimal_digits 10 n)
decimal_digits-AllDigits n h = (decimal_digits-Shows 10 n (omega arith)).0
