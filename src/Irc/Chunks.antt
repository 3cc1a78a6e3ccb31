-- ===== src/Irc/Chunks.antt =====
-- What `irc_loop` makes of the chunks that `net_recv` returns: whole lines, and what goes wrong.
use minervabot.Prelude.{
  ℕ, zero, suc, ◌+◌, ◌≤◌, ◌<◌, ◌≡◌, refl, ◌∙◌, subst, Bool, true, false, Option, none, some, List,
  [], ◌∷◌, ◌++◌, arith, ◌==◌, length, length-append, map,
}
use mathlib.Core.List.{append-nil, append_assoc}
use minervabot.Run.{Run, ok, fault, deadlock, ◌>>=◌}
use minervabot.CString.{Bytes, write}
use minervabot.CString.Laws.{write-append}
use minervabot.Irc.Line.{Action, handle_line}
use minervabot.Irc.Sending.{OneLine}
use minervabot.Irc.Loop.{
  Frame, start, ends_line, terminate, complete, receive, receive_all, Event, received, irc_loop,
}
use minervabot.Irc.Framing.{
  Holds, quiet-ends_line, receive_quiet, receive_text, receive_crlf, receive_all-nil, start-Holds,
  joined, ShortLines,
}

last-ends_line : (previous : Option ℕ) (c n : ℕ) → n ≡ 512 → ends_line previous c n ≡ true
unfolding ends_line
last-ends_line none c n e = ground arith
last-ends_line (some p) c n e = ground arith

write-outside : (xs : Bytes) (i v : ℕ) → length xs ≤ i → write xs i v ≡ fault
unfolding write
write-outside [] i v h = refl
write-outside (x ∷ xs) zero v h = absurd (omega arith)
write-outside (x ∷ xs) (suc i) v h = rw (write-outside xs i v (omega arith), ◌>>=◌) refl

-- A chunk of short lines and a part of a line, in a buffer that is empty.
receive_lines :
    (lines : List Bytes) (partial : Bytes) (s : Frame) (previous : Option ℕ)
    → Holds s []
    → ShortLines lines
    → OneLine partial
    → length partial ≤ 512
    → (s' : Frame) × (receive_all s previous (joined lines partial)
        ≡ ok (s', map handle_line lines))
      × Holds s' partial
receive_lines [] partial s previous h short one room =
    let (s', p, h', on) = receive_text partial s [] previous h one (omega arith) in
    (
      s',
      subst (λ t. receive_all s previous t ≡ ok (s', [])) (append-nil partial)
          (on [] ∙ receive_all-nil s' p),
      h',
    )
receive_lines (line ∷ lines) partial s previous h (one_line, fits, short) one room =
    let (s₁, p, h₁, on₁) = receive_text line s [] previous h one_line (omega arith) in
    let (s₂, h₂, on₂) = receive_crlf s₁ line p h₁ fits in
    let (s₃, run, h₃) = receive_lines lines partial s₂ (some b'\n') h₂ short one room in
    (s₃, on₁ _ ∙ on₂ _ s₃ _ run, h₃)

-- The buffer holds the start `read` of a line, and a chunk brings its rest, more lines and the start
-- of the next. Where no line has a `\r` or `\n` inside it, each has at most 510 bytes, and the start
-- of the last at most 512, the loop handles each line once, in order, the first with `read` in front,
-- and the buffer then holds the start of the last.
pub receive_all-lines :
    (read line : Bytes) (lines : List Bytes) (partial : Bytes) (s : Frame) (previous : Option ℕ)
    → Holds s read
    → OneLine line
    → length read + length line ≤ 510
    → ShortLines lines
    → OneLine partial
    → length partial ≤ 512
    → (s' : Frame) × (receive_all s previous (joined (line ∷ lines) partial)
        ≡ ok (s', handle_line (read ++ line) ∷ map handle_line lines))
      × Holds s' partial
receive_all-lines read line lines partial s previous h one_line fits short one room =
    let (s₁, p, h₁, on₁) = receive_text line s read previous h one_line (omega arith) in
    let (s₂, h₂, on₂) =
      receive_crlf s₁ (read ++ line) p h₁ (omega (arith, length-append read line)) in
    let (s₃, run, h₃) = receive_lines lines partial s₂ (some b'\n') h₂ short one room in
    (s₃, on₁ _ ∙ on₂ _ s₃ _ run, h₃)

terminate-overrun : (buf : Bytes) (n : ℕ) → n ≡ 512 → length buf ≡ 513 → complete buf n ≡ fault
unfolding complete terminate
terminate-overrun buf zero e size = absurd (omega arith)
terminate-overrun buf (suc n) e size =
    rw (full (suc n) e) (rw (write-outside buf 513 0 (omega arith), ◌>>=◌) refl)
  where
    full : (m : ℕ) → m ≡ 512 → (m == 512) ≡ true
    full m h = ground arith

-- a character at index 512
receive_last :
    (s : Frame) (read : Bytes) (previous : Option ℕ) (c : ℕ)
    → Holds s read
    → length read ≡ 512
    → receive s previous c ≡ fault
unfolding receive
receive_last s read previous c h full = go h.rest h.buf h.size
  where
    go :
        (rest : Bytes)
        → s.buf ≡ read ++ rest
        → length read + length rest ≡ 513
        → receive s previous c ≡ fault
    go [] b e = absurd (omega arith)
    go (x ∷ rest) b e =
        rw (h.next, b, write-append read rest x c)
          (rw (last-ends_line previous c (length read) full, ◌>>=◌)
            (terminate-overrun (read ++ c ∷ rest) (length read) full
              (length-append read (c ∷ rest) ∙ omega arith)))

-- After 512 characters with no line break, one more character writes behind the buffer.
receive_all-overrun :
    (text rest : Bytes) (c : ℕ)
    → OneLine text
    → length text ≡ 512
    → receive_all start none (text ++ c ∷ rest) ≡ fault
unfolding receive_all
receive_all-overrun text rest c one full =
    let (s, p, h, on) = receive_text text start [] none start-Holds one (omega arith) in
    on (c ∷ rest) ∙ rw (receive_last s text p c h full, ◌>>=◌) refl

first-ends_line : (c n : ℕ) → n < 512 → ends_line none c n ≡ false
unfolding ends_line
first-ends_line c n h = ground arith

irc_loop-quiet :
    (chunk : Bytes) (events : List Event) (s s' : Frame)
    → receive_all s none chunk ≡ ok (s', [])
    → irc_loop s (received chunk ∷ events) ≡ irc_loop s' events
unfolding irc_loop
irc_loop-quiet chunk events s s' run = rw (run, ◌>>=◌) (nothing_sent (irc_loop s' events))
  where
    nothing_sent :
        (r : Run (List Action × Bool)) → (do (later, ended) ← r; ok ([] ++ later, ended)) ≡ r
    nothing_sent (ok _) = refl
    nothing_sent fault = refl
    nothing_sent deadlock = refl

receive_one :
    (s s' : Frame) (previous : Option ℕ) (c : ℕ)
    → receive s previous c ≡ ok (s', [])
    → receive_all s previous (c ∷ []) ≡ ok (s', [])
unfolding receive_all
receive_one s s' previous c run = rw (run, ◌>>=◌) refl

-- Where a chunk ends between the two characters of a line break, the line is not handled: the loop
-- goes on with both characters in the buffer, behind the line.
irc_loop_split :
    (text : Bytes) (events : List Event)
    → OneLine text
    → length text ≤ 510
    → (s : Frame) × (irc_loop start (received (text ++ b'\r' ∷ []) ∷ received (b'\n' ∷ []) ∷ events)
        ≡ irc_loop s events)
      × Holds s (text ++ b'\r' ∷ b'\n' ∷ [])
irc_loop_split text events one fits =
    let (s₁, p, h₁, on) = receive_text text start [] none start-Holds one (omega arith) in
    let (s₂, run₂, h₂) =
      receive_quiet s₁ text p b'\r' h₁ (quiet-ends_line p b'\r' (length text) refl (omega arith))
        (omega arith) in
    let (s₃, run₃, h₃) =
      receive_quiet s₂ (text ++ b'\r' ∷ []) none b'\n' h₂
        (first-ends_line b'\n' _ (omega (arith, length-append text (b'\r' ∷ []))))
        (omega (arith, length-append text (b'\r' ∷ []))) in
    (
      s₃,
      irc_loop-quiet _ _ start s₂ (on (b'\r' ∷ []) ∙ receive_one s₁ s₂ p b'\r' run₂)
          ∙ irc_loop-quiet _ _ s₂ s₃ (receive_one s₂ s₃ none b'\n' run₃),
      subst (λ r. Holds s₃ r) (append_assoc text (b'\r' ∷ []) (b'\n' ∷ [])) h₃,
    )
