-- ===== src/Bot/Fullwidth.antt =====
-- `handle_fw` against Unicode: what it sends, and that it stays inside its buffer.
use minervabot.Prelude.{
  Bool, not, leb, ◌&&◌, ℕ, ◌+◌, ◌*◌, ◌/◌, ◌%◌, ◌≤◌, ◌<◌, ◌≡◌, refl, sym, ap, subst, ◌∙◌, true,
  false, [], ◌∷◌, ◌++◌, arith, ltb, ltb→lt, ◌==◌, if◌then◌else◌, length, length-append, take,
  length-take, Bool-cases, inl, inr, ◌⊎◌,
}
use mathlib.Core.List.{append-nil, append_assoc}
use minervabot.Run.{ok, ◌>>=◌}
use minervabot.CString.{Bytes, write, string}
use minervabot.CString.Laws.{write-append}
use minervabot.Permissions.Search.{IsText, string-append}
use minervabot.Bot.{Caller, msg}
use minervabot.Bot.Fun.{wide, put_three, skipped, put_wide, fw_loop, handle_fw}

-- UTF-8 of a code point from U+0800 to U+FFFF
abbrev pub encode_utf8 : ℕ → Bytes
encode_utf8 point = (224 + point / 4096) ∷ (128 + point / 64 % 64) ∷ (128 + point % 64) ∷ []

-- the ideographic space for a space, and else the character at the same place of the block U+FF00
abbrev pub full_width : ℕ → ℕ
full_width c = if c == 32 then 12288 else c + 65248

-- the characters from the space to U+007F in full width, and no others
abbrev pub full_width_text : Bytes → Bytes
full_width_text [] = []
full_width_text (c ∷ s) =
    let rest = full_width_text s in
    if leb 32 c && leb c 127 then encode_utf8 (full_width c) ++ rest else rest

wide-below : (c : ℕ) → c < 96 → wide c ≡ 48224 + c
unfolding wide
wide-below c h = ground arith

wide-above : (c : ℕ) → 96 ≤ c → c ≤ 127 → wide c ≡ 48416 + c
unfolding wide
wide-above c l h = ground arith

skipped-outside : (c : ℕ) (b : Bool) → skipped c ≡ b → (leb 32 c && leb c 127) ≡ not b
unfolding skipped
skipped-outside c true h = ground arith
skipped-outside c false h = ground arith

not_skipped : (c : ℕ) → skipped c ≡ false → (32 ≤ c) × (c ≤ 127)
unfolding skipped
not_skipped c h = ground arith

write_behind :
    (out mid rest : Bytes) (x v i : ℕ)
    → i ≡ length out + length mid
    → write (out ++ (mid ++ x ∷ rest)) i v ≡ ok (out ++ (mid ++ v ∷ rest))
write_behind out mid rest x v i e =
    rw (e, sym (length-append out mid), sym (append_assoc out mid (x ∷ rest)))
      (write-append (out ++ mid) rest x v ∙ ap ok (append_assoc out mid (v ∷ rest)))

put_three-append :
    (out rest : Bytes) (x y z q a b c : ℕ)
    → q * 3 ≡ length out
    → put_three (out ++ x ∷ y ∷ z ∷ rest) q a b c ≡ ok ((out ++ a ∷ b ∷ c ∷ []) ++ rest)
unfolding put_three
put_three-append out rest x y z q a b c e =
    rw (write_behind out [] (y ∷ z ∷ rest) x a (q * 3) (omega arith), ◌>>=◌)
      (rw (write_behind out (a ∷ []) (z ∷ rest) y b (q * 3 + 1) (omega arith), ◌>>=◌)
        (write_behind out (a ∷ b ∷ []) rest z c (q * 3 + 2) (omega arith)
          ∙ ap ok (sym (append_assoc out (a ∷ b ∷ c ∷ []) rest))))

-- the `unsigned short` holds the last two bytes
bytes_eq : {a b c a' b' c' : ℕ} → a ≡ a' → b ≡ b' → c ≡ c' → (a ∷ b ∷ c ∷ []) ≡ (a' ∷ b' ∷ c' ∷ [])
bytes_eq p q r = rw (p, q, r)

wide-encode :
    (c w : ℕ)
    → 32 < c
    → c ≤ 127
    → ((c < 96) × (w ≡ 48224 + c)) ⊎ ((96 ≤ c) × (w ≡ 48416 + c))
    → (239 ∷ w / 256 % 256 ∷ w % 256 ∷ []) ≡ encode_utf8 (c + 65248)
wide-encode c w l h (inl (b, e)) = bytes_eq (omega arith) (omega arith) (omega arith)
wide-encode c w l h (inr (b, e)) = bytes_eq (omega arith) (omega arith) (omega arith)

wide-cases :
    (c : ℕ) → c ≤ 127 → ((c < 96) × (wide c ≡ 48224 + c)) ⊎ ((96 ≤ c) × (wide c ≡ 48416 + c))
wide-cases c h = elim (Bool-cases (ltb c 96)) [
  | inl t ↦ let below = ltb→lt c 96 t in inl (below, wide-below c below)
  | inr f ↦ let above = not_below c f in inr (above, wide-above c above h)
]
  where
    not_below : (c : ℕ) → ltb c 96 ≡ false → 96 ≤ c
    not_below c f = ground arith

-- the three bytes of a character that is not skipped
put_wide-encode :
    (out rest : Bytes) (x y z q c : ℕ)
    → q * 3 ≡ length out
    → skipped c ≡ false
    → put_wide (out ++ x ∷ y ∷ z ∷ rest) q c ≡ ok ((out ++ encode_utf8 (full_width c)) ++ rest)
unfolding put_wide
put_wide-encode out rest x y z q c e kept = elim (Bool-cases (c == 32)) [
  | inl s ↦ rw s (put_three-append out rest x y z q 227 128 128 e)
  | inr s ↦
      let (low, high) = not_skipped c kept in
      rw s (
        put_three-append out rest x y z q 239 _ _ e
        ∙ ap (λ bs. ok ((out ++ bs) ++ rest))
            (wide-encode c (wide c) (above c s low) high (wide-cases c high)))
]
  where
    above : (c : ℕ) → (c == 32) ≡ false → 32 ≤ c → 32 < c
    above c ne le = ground arith

fw_loop-skip :
    (c : ℕ) (args buf : Bytes) (q : ℕ)
    → skipped c ≡ true
    → fw_loop (c ∷ args) buf q ≡ fw_loop args buf q
unfolding fw_loop
fw_loop-skip c args buf q s = rw (s, fw_loop)

fw_loop-put :
    (c : ℕ) (args buf buf' : Bytes) (q : ℕ)
    → skipped c ≡ false
    → put_wide buf q c ≡ ok buf'
    → fw_loop (c ∷ args) buf q ≡ fw_loop args buf' (q + 1)
unfolding fw_loop
fw_loop-put c args buf buf' q s run = rw (s, fw_loop) (rw (run, ◌>>=◌) refl)

full_width_text-skip :
    (c : ℕ) (args : Bytes) → skipped c ≡ true → full_width_text args ≡ full_width_text (c ∷ args)
full_width_text-skip c args s = rw (skipped-outside c true s)

full_width_text-put :
    (c : ℕ) (args out : Bytes)
    → skipped c ≡ false
    → (out ++ encode_utf8 (full_width c)) ++ full_width_text args
      ≡ out ++ full_width_text (c ∷ args)
full_width_text-put c args out s =
    rw (skipped-outside c false s)
      (append_assoc out (encode_utf8 (full_width c)) (full_width_text args))

-- The loop writes the text in full width, where the buffer has three bytes for each character.
abbrev Wrote : Bytes → Bytes → Bytes → ℕ → Type 0
Wrote args out rest q =
    (rest' : Bytes) × (q' : ℕ) × (fw_loop args (out ++ rest) q
      ≡ ok ((out ++ full_width_text args) ++ rest', q'))
    × (q' * 3 ≡ length (out ++ full_width_text args))
    × (length rest ≤ length rest' + 3 * length args)

append_nothing :
    (out rest : Bytes) (q : ℕ) → fw_loop [] (out ++ rest) q ≡ ok ((out ++ []) ++ rest, q)
unfolding fw_loop
append_nothing out rest q = rw (append-nil out)

fw_loop-full_width :
    (args out rest : Bytes) (q : ℕ)
    → q * 3 ≡ length out
    → 3 * length args ≤ length rest
    → Wrote args out rest q
fw_loop-full_width [] out rest q e room =
    (rest, q, append_nothing out rest q, rw (append-nil out) e, omega arith)
fw_loop-full_width (c ∷ args) out [] q e room = absurd (omega arith)
fw_loop-full_width (c ∷ args) out (x ∷ []) q e room = absurd (omega arith)
fw_loop-full_width (c ∷ args) out (x ∷ y ∷ []) q e room = absurd (omega arith)
fw_loop-full_width (c ∷ args) out (x ∷ y ∷ z ∷ rest) q e room = elim (Bool-cases (skipped c)) [
  | inl s ↦
      let (rest', q', run, e', long) =
        fw_loop-full_width args out (x ∷ y ∷ z ∷ rest) q e (omega arith) in
      (
        rest',
        q',
        fw_loop-skip c args _ q s
            ∙ run
            ∙ ap (λ t. ok ((out ++ t) ++ rest', q')) (full_width_text-skip c args s),
        e' ∙ ap (λ t. length (out ++ t)) (full_width_text-skip c args s),
        omega arith,
      )
  | inr s ↦
      let one = encode_utf8 (full_width c) in
      let (rest', q', run, e', long) =
        fw_loop-full_width args (out ++ one) rest (q + 1) (omega (arith, length-append out one))
          (omega arith) in
      (
        rest',
        q',
        fw_loop-put c args _ _ q s (put_wide-encode out rest x y z q c e s)
            ∙ run
            ∙ ap (λ t. ok (t ++ rest', q')) (full_width_text-put c args out s),
        e' ∙ ap length (full_width_text-put c args out s),
        omega arith,
      )
]

full_width_lt : (c : ℕ) → c ≤ 127 → full_width c < 65536
full_width_lt c h = ground arith

encode-IsText : (point : ℕ) (s : Bytes) → point < 65536 → IsText s → IsText (encode_utf8 point ++ s)
encode-IsText point s h k =
    (omega arith, omega arith, (omega arith, omega arith, (omega arith, omega arith, k)))

full_width_text-IsText : (s : Bytes) → IsText (full_width_text s)
full_width_text-IsText [] = tt
full_width_text-IsText (c ∷ s) = elim (Bool-cases (skipped c)) [
  | inl k ↦ subst IsText (full_width_text-skip c s k) (full_width_text-IsText s)
  | inr k ↦
      let (low, high) = not_skipped c k in
      subst IsText (full_width_text-put c s [] k) (
        encode-IsText (full_width c) (full_width_text s) (full_width_lt c high)
          (full_width_text-IsText s))
]

-- `fw` sends the first 170 characters of its arguments in full width, encoded in UTF-8, those outside
-- the range from the space to U+007F left out, and stays inside its buffer of 511 bytes whatever that
-- holds at first.
pub handle_fw-full_width :
    (buf cmdname : Bytes) (who : Caller) (where_ args : Bytes)
    → length buf ≡ 511
    → handle_fw buf cmdname who where_ args ≡ ok (msg where_ (full_width_text (take 170 args)) ∷ [])
unfolding handle_fw
handle_fw-full_width buf cmdname who where_ args size =
    let short = length-take 170 args in
    let (rest, q, run, e, long) =
      fw_loop-full_width (take 170 args) [] buf 0 refl (omega (arith, short)) in
    rw (run, ◌>>=◌) (ended rest q e (omega (arith, short)))
  where
    ended :
        (rest : Bytes) (q : ℕ)
        → q * 3 ≡ length (full_width_text (take 170 args))
        → 0 < length rest
        → (do
          t ← write (full_width_text (take 170 args) ++ rest) (q * 3) 0
          text ← string t
          ok (msg where_ text ∷ []))
          ≡ ok (msg where_ (full_width_text (take 170 args)) ∷ [])
    ended [] q e h = absurd (omega arith)
    ended (x ∷ rest) q e h =
        rw (e, write-append (full_width_text (take 170 args)) rest x 0, ◌>>=◌)
          (rw
            (
              string-append (full_width_text (take 170 args)) rest
                  (full_width_text-IsText (take 170 args)),
              ◌>>=◌,
            )
            refl)
