-- ===== src/Web/Writes.antt =====
-- What the writes of the loop that reads a JSON string leave in its buffer.
use minervabot.Prelude.{
  ℕ, zero, suc, ◌+◌, ◌≤◌, ◌<◌, ◌≡◌, refl, sym, ap, ◌∙◌, [], ◌∷◌, ◌++◌, arith, length, length-append,
}
use minervabot.Run.{ok, ◌>>=◌}
use minervabot.CString.{Bytes, copy, write}
use minervabot.Web.{copy_at, put_char, put_end}

pub snoc : (a : Bytes) (c : ℕ) (rest : Bytes) → (a ++ c ∷ []) ++ rest ≡ a ++ c ∷ rest
snoc [] c rest = refl
snoc (x ∷ a) c rest = ap (λ l. x ∷ l) (snoc a c rest)

pub copy-fits :
    (src tail : Bytes)
    → length src ≤ length tail
    → (tail' : Bytes) × (copy tail src ≡ ok (src ++ tail'))
      × (length src + length tail' ≡ length tail)
unfolding copy
copy-fits [] tail le = (tail, refl, omega arith)
copy-fits (c ∷ src) [] le = absurd (omega arith)
copy-fits (c ∷ src) (x ∷ tail) le =
    let (tail', copied, size) = copy-fits src tail (omega arith) in
    (tail', rw copied, omega (arith, size))

pub copy_at-fits :
    (out src tail : Bytes)
    → length src ≤ length tail
    → (tail' : Bytes) × (copy_at (out ++ tail) (length out) src ≡ ok (out ++ (src ++ tail')))
      × (length src + length tail' ≡ length tail)
unfolding copy_at
copy_at-fits [] src tail le = copy-fits src tail le
copy_at-fits (o ∷ out) src tail le =
    let (tail', copied, size) = copy_at-fits out src tail le in
    (tail', rw (copied, ◌>>=◌) refl, size)

pub write_behind :
    (a b ys : Bytes) (y v n : ℕ)
    → n ≡ length a + length b
    → write (a ++ (b ++ y ∷ ys)) n v ≡ ok (a ++ (b ++ v ∷ ys))
unfolding write
write_behind [] [] ys y v zero e = refl
write_behind [] [] ys y v (suc n) e = absurd (omega arith)
write_behind [] (x ∷ b) ys y v zero e = absurd (omega arith)
write_behind [] (x ∷ b) ys y v (suc n) e = rw (write_behind [] b ys y v n (omega arith), ◌>>=◌) refl
write_behind (x ∷ a) b ys y v zero e = absurd (omega arith)
write_behind (x ∷ a) b ys y v (suc n) e = rw (write_behind a b ys y v n (omega arith), ◌>>=◌) refl

-- the run goes behind what is there, with a null
pub put_end_lem :
    (out run tail : Bytes)
    → length run < length tail
    → (tail' : Bytes) × (put_end (out ++ tail) (length out) run ≡ ok (out ++ (run ++ 0 ∷ tail')))
      × (suc (length run + length tail') ≡ length tail)
unfolding put_end
put_end_lem out run tail lt =
    let (rest, copied, size) = copy_at-fits out run tail (omega arith) in go rest copied size
  where
    go :
        (rest : Bytes)
        → copy_at (out ++ tail) (length out) run ≡ ok (out ++ (run ++ rest))
        → length run + length rest ≡ length tail
        → (tail' : Bytes) × (put_end (out ++ tail) (length out) run
            ≡ ok (out ++ (run ++ 0 ∷ tail')))
          × (suc (length run + length tail') ≡ length tail)
    go [] copied size = absurd (omega arith)
    go (y ∷ ys) copied size =
        (ys, rw (put_end, copied, ◌>>=◌) (write_behind out run ys y 0 _ refl), omega (arith, size))

pub put_char_lem :
    (out run tail : Bytes) (c : ℕ)
    → suc (length run) < length tail
    → (tail' : Bytes) × (put_char (out ++ tail) (length out) run c
        ≡ ok (out ++ (run ++ c ∷ 0 ∷ tail')))
      × (suc (suc (length run + length tail')) ≡ length tail)
unfolding put_char
put_char_lem out run tail c lt =
    let (rest, copied, size) = copy_at-fits out run tail (omega arith) in go rest copied size
  where
    go :
        (rest : Bytes)
        → copy_at (out ++ tail) (length out) run ≡ ok (out ++ (run ++ rest))
        → length run + length rest ≡ length tail
        → (tail' : Bytes) × (put_char (out ++ tail) (length out) run c
            ≡ ok (out ++ (run ++ c ∷ 0 ∷ tail')))
          × (suc (suc (length run + length tail')) ≡ length tail)
    go [] copied size = absurd (omega arith)
    go (y ∷ []) copied size = absurd (omega arith)
    go (y ∷ z ∷ ys) copied size = (
      ys,
      rw (put_char, copied, ◌>>=◌)
          (rw (write_behind out run (z ∷ ys) y c _ refl, ◌>>=◌)
            (ap (λ l. write (out ++ l) (length out + length run + 1) 0) (sym (snoc run c (z ∷ ys)))
              ∙ write_behind out (run ++ c ∷ []) ys z 0 _
                  (omega (arith, length-append run (c ∷ [])))
              ∙ ap (λ l. ok (out ++ l)) (snoc run c (0 ∷ ys)))),
      omega (arith, size),
    )
