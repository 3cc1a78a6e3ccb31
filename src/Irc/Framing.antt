-- ===== src/Irc/Framing.antt =====
-- How `irc_loop` cuts what it receives into lines.
use minervabot.Prelude.{
  ℕ, zero, suc, ◌+◌, ◌≤◌, ◌<◌, ◌≡◌, refl, sym, ap, ◌∙◌, subst, false, Option, none, some, List, [],
  ◌∷◌, ◌++◌, arith, ◌==◌, length, take, length-append, replicate, length-replicate,
}
use mathlib.Core.List.{append-nil, append_assoc}
use minervabot.Run.{Run, ok, fault, deadlock, ◌>>=◌}
use minervabot.CString.{Bytes}
use minervabot.CString.Laws.{write-append}
use minervabot.Irc.Line.{Action, handle_line}
use minervabot.Irc.Sending.{OneLine}
use minervabot.Irc.Loop.{Frame, start, ends_line, terminate, complete, receive, receive_all}

-- The first characters of the buffer are `read`, and the next one goes behind them.
pub record Holds (s : Frame) (read : Bytes) : Type 0 where
  pub rest : Bytes
  pub buf : s.buf ≡ read ++ rest
  pub next : s.next ≡ length read
  pub size : length read + length rest ≡ 513

-- A character that ends no line is put behind what was read.
pub receive_quiet :
    (s : Frame) (read : Bytes) (previous : Option ℕ) (c : ℕ)
    → Holds s read
    → ends_line previous c (length read) ≡ false
    → length read < 513
    → (s' : Frame) × (receive s previous c ≡ ok (s', [])) × Holds s' (read ++ c ∷ [])
unfolding receive
receive_quiet s read previous c h quiet room = go h.rest h.buf h.size
  where
    go :
        (rest : Bytes)
        → s.buf ≡ read ++ rest
        → length read + length rest ≡ 513
        → (s' : Frame) × (receive s previous c ≡ ok (s', [])) × Holds s' (read ++ c ∷ [])
    go [] b e = absurd (omega arith)
    go (x ∷ rest) b e = (
      record { buf = read ++ c ∷ rest; next = length read + 1 },
      rw (h.next, b, write-append read rest x c) (rw (quiet, ◌>>=◌)),
      record {
        rest = rest;
        buf = sym (append_assoc read (c ∷ []) rest);
        next = sym (length-append read (c ∷ []) ∙ omega arith);
        size = omega (arith, length-append read (c ∷ []));
      },
    )

-- a quiet character: neither half of a line break
pub quiet-ends_line :
    (previous : Option ℕ) (c n : ℕ)
    → (c == b'\n') ≡ false
    → n < 512
    → ends_line previous c n ≡ false
unfolding ends_line
quiet-ends_line none c n h lt = ground arith
quiet-ends_line (some p) c n h lt = ground arith

no_actions : (r : Run (Frame × List Action)) → (do (s, later) ← r; ok (s, [] ++ later)) ≡ r
no_actions (ok _) = refl
no_actions fault = refl
no_actions deadlock = refl

-- a text with no line break is put behind what was read, and the loop goes on from there
pub receive_text :
    (text : Bytes) (s : Frame) (read : Bytes) (previous : Option ℕ)
    → Holds s read
    → OneLine text
    → length read + length text ≤ 512
    → (s' : Frame) × (p : Option ℕ) × Holds s' (read ++ text)
      × ((rest : Bytes) → receive_all s previous (text ++ rest) ≡ receive_all s' p rest)
unfolding receive_all
receive_text [] s read previous h one room =
    (s, previous, subst (λ r. Holds s r) (sym (append-nil read)) h, λ rest. refl)
receive_text (c ∷ text) s read previous h (cr, lf, one) room =
    let (s₁, run₁, h₁) =
      receive_quiet s read previous c h (quiet-ends_line previous c (length read) lf (omega arith))
        (omega arith) in
    let (s₂, p, h₂, on) =
      receive_text text s₁ (read ++ c ∷ []) (some c) h₁ one
        (omega (arith, length-append read (c ∷ []))) in
    (
      s₂,
      p,
      subst (λ r. Holds s₂ r) (append_assoc read (c ∷ []) text) h₂,
      λ rest. rw (run₁, ◌>>=◌) (rw (on rest) (no_actions (receive_all s₂ p rest))),
    )

take-length : (text rest : Bytes) (n : ℕ) → n ≡ length text → take n (text ++ rest) ≡ text
take-length [] rest zero e = refl
take-length [] rest (suc n) e = absurd (omega arith)
take-length (c ∷ text) rest zero e = absurd (omega arith)
take-length (c ∷ text) rest (suc n) e = ap (◌∷◌ c) (take-length text rest n (omega arith))

not_512 : (n : ℕ) → n ≤ 510 → (suc n == 512) ≡ false
not_512 n h = ground arith

-- the null goes where the `\r` stands
complete_line :
    (text rest : Bytes) (o : ℕ)
    → o ≡ suc (length text)
    → length text ≤ 510
    → complete (text ++ b'\r' ∷ rest) o
      ≡ ok (record { buf = text ++ 0 ∷ rest; next = 0 }, handle_line text ∷ [])
unfolding complete terminate
complete_line text rest o e short = rw e (
    rw (not_512 (length text) short) (
      rw (write-append text rest b'\r' 0) (
        ap (λ l. ok (record { buf = text ++ 0 ∷ rest; next = 0 }, handle_line l ∷ []))
          (take-length text (0 ∷ rest) _ (omega arith)))))

-- the `\n` behind a `\r`: the line is what stands before both
receive_newline :
    (s : Frame) (text : Bytes)
    → Holds s (text ++ b'\r' ∷ [])
    → length text ≤ 510
    → (s' : Frame) × (receive s (some b'\r') b'\n' ≡ ok (s', handle_line text ∷ [])) × Holds s' []
unfolding receive
receive_newline s text h short = go h.rest h.buf h.size
  where
    go :
        (rest : Bytes)
        → s.buf ≡ (text ++ b'\r' ∷ []) ++ rest
        → length (text ++ b'\r' ∷ []) + length rest ≡ 513
        → (s' : Frame) × (receive s (some b'\r') b'\n' ≡ ok (s', handle_line text ∷ []))
          × Holds s' []
    go [] b e = absurd (omega (arith, length-append text (b'\r' ∷ [])))
    go (x ∷ rest) b e = (
      record { buf = text ++ 0 ∷ b'\n' ∷ rest; next = 0 },
      rw (h.next, b, write-append (text ++ b'\r' ∷ []) rest x b'\n')
          (rw (append_assoc text (b'\r' ∷ []) (b'\n' ∷ rest))
            (complete_line text (b'\n' ∷ rest) _ (length-append text _ ∙ omega arith) short)),
      record {
        rest = text ++ 0 ∷ b'\n' ∷ rest;
        buf = refl;
        next = refl;
        size =
            omega (arith, length-append text (b'\r' ∷ []), length-append text (0 ∷ b'\n' ∷ rest));
      },
    )

-- a line break, behind a text that leaves room for it
pub receive_crlf :
    (s : Frame) (text : Bytes) (previous : Option ℕ)
    → Holds s text
    → length text ≤ 510
    → (s' : Frame) × Holds s' []
      × ((rest : Bytes) (t : Frame) (later : List Action)
          → receive_all s' (some b'\n') rest ≡ ok (t, later)
          → receive_all s previous (b'\r' ∷ b'\n' ∷ rest) ≡ ok (t, handle_line text ∷ later))
unfolding receive_all
receive_crlf s text previous h short =
    let (s₁, run₁, h₁) =
      receive_quiet s text previous b'\r' h
        (quiet-ends_line previous b'\r' (length text) refl (omega arith)) (omega arith) in
    let (s₂, run₂, h₂) = receive_newline s₁ text h₁ short in
    (s₂, h₂, λ rest t later e. rw (run₁, ◌>>=◌) (rw (run₂, ◌>>=◌) (rw (e, ◌>>=◌) refl)))

-- lines and the part of a line behind them, as they come over the connection
abbrev pub joined : List Bytes → Bytes → Bytes
joined [] partial = partial
joined (line ∷ lines) partial = line ++ (b'\r' ∷ b'\n' ∷ joined lines partial)

abbrev pub ShortLines : List Bytes → Type 0
ShortLines [] = Unit
ShortLines (line ∷ lines) = OneLine line × (length line ≤ 510) × ShortLines lines

pub receive_all-nil : (s : Frame) (p : Option ℕ) → receive_all s p [] ≡ ok (s, [])
unfolding receive_all
receive_all-nil s p = refl

-- the loop starts with an empty buffer
pub start-Holds : Holds start []
unfolding start
start-Holds = record {
  rest = replicate 513 0;
  buf = refl;
  next = refl;
  size = length-replicate {A = ℕ} 513 0;
}
