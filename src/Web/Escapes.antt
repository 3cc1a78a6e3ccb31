-- ===== src/Web/Escapes.antt =====
-- The loop that reads a JSON string, against the way a string is written in JSON.
use minervabot.Prelude.{
  ℕ, ◌+◌, ◌-◌, ◌≤◌, ◌<◌, ◌≡◌, refl, sym, ap, ◌∙◌, subst, true, false, List, [], ◌∷◌, ◌++◌, arith,
  ltb, ◌==◌, length, length-append, inl, inr, Bool-cases, ltb→lt,
}
use mathlib.Core.List.{append-nil, append_assoc}
use minervabot.Run.{Run, ok, ◌>>=◌}
use minervabot.CString.{Bytes, string}
use minervabot.Web.{n_max, put_char, put_end, is_end, puts, nothing, stays, escape_of, unescape}
use minervabot.Web.Json.{
  Written-cases, escaped, dropped, plain, JsonPart, char, kept, kept-stays, AreParts, json_text,
  shown, shown-cons, string-NoNull, shown-NoNull,
}
use minervabot.Web.Writes.{snoc, put_end_lem, put_char_lem}

is_end_full : (c copied : ℕ) → ltb copied n_max ≡ false → is_end c copied ≡ true
unfolding is_end
is_end_full c copied full = ground arith

is_end_open :
    (c copied : ℕ)
    → (c == 0) ≡ false
    → (c == b'"') ≡ false
    → ltb copied n_max ≡ true
    → is_end c copied ≡ false
unfolding is_end
is_end_open c copied null quote below = rw (null, quote, below)

unescape_end :
    (c : ℕ) (memory run url : Bytes) (n : ℕ)
    → is_end c (length run + n) ≡ true
    → unescape (c ∷ memory) run url n ≡ put_end url n run
unfolding unescape
unescape_end c [] run url n e = rw (e, unescape) refl
unescape_end c (d ∷ memory) run url n e = rw (e, unescape) refl

-- `text` behind what is there, and a null
Ends : Bytes → Bytes → Run Bytes → Type 0
Ends before text result = (tail : Bytes) × (result ≡ ok (before ++ (text ++ 0 ∷ tail)))

Ends-put_end :
    (out run tail url : Bytes) (n : ℕ)
    → url ≡ out ++ tail
    → n ≡ length out
    → length run < length tail
    → Ends (out ++ run) [] (put_end url n run)
unfolding Ends
Ends-put_end out run tail url n e size lt =
    let (tail', put, _) = put_end_lem out run tail lt in
    (tail', rw (e, size) (put ∙ ap ok (sym (append_assoc out run (0 ∷ tail')))))

Ends-snoc :
    (before text : Bytes) (x : ℕ) (result : Run Bytes)
    → Ends (before ++ x ∷ []) text result
    → Ends before (x ∷ text) result
unfolding Ends
Ends-snoc before text x result (tail, e) = (tail, e ∙ ap ok (snoc before x (text ++ 0 ∷ tail)))

Ends-nil :
    (before text : Bytes) (result : Run Bytes)
    → Ends (before ++ []) text result
    → Ends before text result
Ends-nil before text result ends = subst (λ l. Ends l text result) (append-nil before) ends

unescape_escaped :
    (d x : ℕ) (memory run url : Bytes) (n : ℕ) {url' : Bytes}
    → is_end b'\\' (length run + n) ≡ false
    → escape_of d ≡ puts x
    → put_char url n run x ≡ ok url'
    → unescape (b'\\' ∷ d ∷ memory) run url n ≡ unescape memory [] url' (n + length run + 1)
unfolding unescape
unescape_escaped d x memory run url n goes e put = rw (goes, unescape) (rw e (rw (put, ◌>>=◌) refl))

unescape_dropped :
    (d : ℕ) (memory run url : Bytes) (n : ℕ) {url' : Bytes}
    → is_end b'\\' (length run + n) ≡ false
    → escape_of d ≡ nothing
    → put_end url n run ≡ ok url'
    → unescape (b'\\' ∷ d ∷ memory) run url n ≡ unescape memory [] url' (n + length run)
unfolding unescape
unescape_dropped d memory run url n goes e put = rw (goes, unescape) (rw e (rw (put, ◌>>=◌) refl))

unescape_kept :
    (d : ℕ) (memory run url : Bytes) (n : ℕ)
    → is_end b'\\' (length run + n) ≡ false
    → escape_of d ≡ stays
    → unescape (b'\\' ∷ d ∷ memory) run url n ≡ unescape memory (run ++ b'\\' ∷ d ∷ []) url n
unfolding unescape
unescape_kept d memory run url n goes e = rw (goes, unescape) (rw e refl)

unescape_plain :
    (c : ℕ) (memory run url : Bytes) (n : ℕ)
    → is_end c (length run + n) ≡ false
    → (c == b'\\') ≡ false
    → 0 < length memory
    → unescape (c ∷ memory) run url n ≡ unescape memory (run ++ c ∷ []) url n
unfolding unescape
unescape_plain c [] run url n goes e nonempty = absurd (omega arith)
unescape_plain c (d ∷ memory) run url n goes e nonempty = rw (goes, unescape) (rw e refl)

Ends-append :
    (before a text : Bytes) (result : Run Bytes)
    → Ends (before ++ a) text result
    → Ends before (a ++ text) result
unfolding Ends
Ends-append before a text result (tail, e) = (
  tail,
  e ∙ ap ok (append_assoc before a _ ∙ ap (λ l. before ++ l) (sym (append_assoc a text _))),
)

pub closing : (a : Bytes) (c : ℕ) (more : Bytes) → 0 < length (a ++ c ∷ more)
closing [] c more = omega arith
closing (x ∷ a) c more = omega (arith, closing a c more)

full_end :
    (c : ℕ) (memory out run tail url : Bytes) (n : ℕ)
    → ltb (length run + n) n_max ≡ false
    → url ≡ out ++ tail
    → n ≡ length out
    → length run < length tail
    → Ends (out ++ run) [] (unescape (c ∷ memory) run url n)
full_end c memory out run tail url n full e size lt =
    rw (unescape_end c memory run url n (is_end_full c (length run + n) full))
      (Ends-put_end out run tail url n e size lt)

unescape-json_text :
    (s : List JsonPart) (more out run tail url : Bytes) (n : ℕ)
    → AreParts s
    → url ≡ out ++ tail
    → n ≡ length out
    → length run + n ≤ n_max + 1
    → n_max + 2 ≤ n + length tail
    → Ends
        (out ++ run)
        (shown (n_max - (length run + n)) s)
        (unescape (json_text s ++ b'"' ∷ more) run url n)
unescape-json_text [] more out run tail url n clean e size le room =
    rw (unescape_end b'"' more run url n (unfold is_end in refl))
      (Ends-put_end out run tail url n e size (omega arith))
unescape-json_text (kept d ∷ s) more out run tail url n (part, clean) e size le room =
    elim (Bool-cases (ltb (length run + n) n_max)) [
      | inr full ↦
          let none_left : n_max - (length run + n) ≡ 0 = ground arith in
          rw none_left (full_end _ _ out run tail url n full e size (omega arith))
      | inl below ↦
          let lt : length run + n < n_max = ltb→lt _ _ below in
          let goes : is_end b'\\' (length run + n) ≡ false =
            is_end_open b'\\' (length run + n) refl refl below in
          let two = length-append run (b'\\' ∷ d ∷ []) in
          let left_over : n_max - (length run + n) - 2
              ≡ n_max - (length (run ++ b'\\' ∷ d ∷ []) + n) =
            omega (arith, two) in
          rw
            (
              shown-cons (n_max - (length run + n)) (kept d) s (omega arith),
              unescape_kept d (json_text s ++ b'"' ∷ more) run url n goes (kept-stays d part).0,
              left_over,
            )
            (Ends-append (out ++ run) (b'\\' ∷ d ∷ []) _ _ (
              rw (append_assoc out run (b'\\' ∷ d ∷ [])) (
                unescape-json_text s more out (run ++ b'\\' ∷ d ∷ []) tail url n clean e size
                  (omega (arith, two)) room)))
    ]
unescape-json_text (char c ∷ s) more out run tail url n (null, clean) e size le room =
    elim (Bool-cases (ltb (length run + n) n_max)) [
      | inr full ↦
          let none_left : n_max - (length run + n) ≡ 0 = ground arith in
          rw none_left (elim (Written-cases c) [
            | escaped d x text esc show ↦
                rw text (full_end _ _ out run tail url n full e size (omega arith))
            | dropped d text esc show ↦
                rw text (full_end _ _ out run tail url n full e size (omega arith))
            | plain text backslash quote show ↦
                rw text (full_end _ _ out run tail url n full e size (omega arith))
          ])
      | inl below ↦
          let lt : length run + n < n_max = ltb→lt _ _ below in
          let step = shown-cons (n_max - (length run + n)) (char c) s (omega arith) in
          let goes : is_end b'\\' (length run + n) ≡ false =
            is_end_open b'\\' (length run + n) refl refl below in
          elim (Written-cases c) [
            | escaped d x text esc show ↦
                let (tail', put, left) = put_char_lem out run tail x (omega arith) in
                let left_over : n_max - (length run + n) - 1 ≡ n_max - (0 + (n + length run + 1)) =
                  omega arith in
                let put' : put_char url n run x ≡ ok (out ++ (run ++ x ∷ 0 ∷ tail')) =
                  rw (e, size) put in
                rw (text, step, show, left_over)
                  (rw (unescape_escaped d x (json_text s ++ b'"' ∷ more) run url n goes esc put') (
                    Ends-snoc (out ++ run) _ x _ (
                      Ends-nil ((out ++ run) ++ x ∷ []) _ _ (
                        unescape-json_text s more ((out ++ run) ++ x ∷ []) [] (0 ∷ tail') _ _ clean
                          (sym (
                            snoc (out ++ run) x (0 ∷ tail') ∙ append_assoc out run (x ∷ 0 ∷ tail')))
                          (omega (
                            arith,
                            size,
                            length-append (out ++ run) (x ∷ []),
                            length-append out run,
                          ))
                          (omega arith) (omega (arith, left))))))
            | dropped d text esc show ↦
                let (tail', put, left) = put_end_lem out run tail (omega arith) in
                let same : n_max - (length run + n) - 0 ≡ n_max - (0 + (n + length run)) =
                  omega arith in
                let put' : put_end url n run ≡ ok (out ++ (run ++ 0 ∷ tail')) = rw (e, size) put in
                rw (text, step, show, same)
                  (rw (unescape_dropped d (json_text s ++ b'"' ∷ more) run url n goes esc put') (
                    Ends-nil (out ++ run) _ _ (
                      unescape-json_text s more (out ++ run) [] (0 ∷ tail') _ _ clean
                        (sym (append_assoc out run (0 ∷ tail')))
                        (omega (arith, size, length-append out run)) (omega arith)
                        (omega (arith, left)))))
            | plain text backslash quote show ↦
                let left_over : n_max - (length run + n) - 1
                    ≡ n_max - (length (run ++ c ∷ []) + n) =
                  omega (arith, length-append run (c ∷ [])) in
                rw (text, step, show, left_over)
                  (rw
                    (unescape_plain c (json_text s ++ b'"' ∷ more) run url n
                      (is_end_open c _ null quote below) backslash
                      (closing (json_text s) b'"' more))
                    (Ends-snoc (out ++ run) _ c _ (
                      rw (append_assoc out run (c ∷ [])) (
                        unescape-json_text s more out (run ++ c ∷ []) tail url n clean e size
                          (omega (arith, length-append run (c ∷ []))) room))))
          ]
    ]

-- A JSON string of bytes other than null, followed by its quotation mark, in a buffer of at least 402 bytes:
-- whatever stands in it at first, the loop returns and leaves what is shown of the string, of 400 characters, or
-- 401 where the last two are an escape: line feeds and tabs as spaces, carriage returns left out, the escapes
-- `\/`, `\b`, `\f` and `\u` as they are written, all else as it is.
pub unescape-shown :
    (s : List JsonPart) (more url : Bytes)
    → AreParts s
    → n_max + 2 ≤ length url
    → (url' : Bytes) × (unescape (json_text s ++ b'"' ∷ more) [] url 0 ≡ ok url')
      × (string url' ≡ ok (shown n_max s))
unfolding Ends
unescape-shown s more url clean room =
    let (tail, run) =
      unescape-json_text s more [] [] url url 0 clean refl refl (omega arith) (omega arith) in
    (
      shown n_max s ++ 0 ∷ tail,
      run,
      string-NoNull (shown n_max s) tail (shown-NoNull s n_max clean),
    )
