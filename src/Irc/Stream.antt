-- ===== src/Irc/Stream.antt =====
-- `irc_loop` from its start to the end of the connection: a stream of lines, however it is cut.
use minervabot.Prelude.{
  ◌+◌, ◌≤◌, ◌≡◌, refl, sym, ap, ◌∙◌, subst, true, none, List, [], ◌∷◌, ◌++◌, arith, length,
  length-append, map,
}
use mathlib.Core.List.{append-nil, append_assoc}
use minervabot.Run.{ok, ◌>>=◌}
use minervabot.CString.{Bytes, codes}
use minervabot.Irc.Line.{Action, send, handle_line}
use minervabot.Irc.Sending.{OneLine, OneLine-append}
use minervabot.Irc.Loop.{Frame, start, receive_all, Event, received, closed, irc_loop}
use minervabot.Irc.Framing.{Holds, receive_text, receive_all-nil, start-Holds, joined, ShortLines}
use minervabot.Irc.Chunks.{receive_all-lines}

-- What one call of `net_recv` brings: a part of a line, or the end of a line, more lines, and the
-- start of another.
pub data Chunk : Type 0 where
  part : Bytes → Chunk
  whole : Bytes → List Bytes → Bytes → Chunk

abbrev pub text_of : Chunk → Bytes
text_of (part text) = text
text_of (whole line lines partial) = joined (line ∷ lines) partial

-- the start of a line that is in the buffer behind a chunk, and the lines that have come to their end
abbrev pub read_behind : Bytes → Chunk → Bytes
read_behind read (part text) = read ++ text
read_behind read (whole line lines partial) = partial

abbrev pub lines_of : Bytes → Chunk → List Bytes
lines_of read (part text) = []
lines_of read (whole line lines partial) = (read ++ line) ∷ lines

-- no line break inside a line, lines of at most 510 bytes, and at most 512 bytes in the buffer
abbrev pub Fits : Bytes → Chunk → Type 0
Fits read (part text) = OneLine text × (length read + length text ≤ 512)
Fits read (whole line lines partial) =
    OneLine line
    × (length read + length line ≤ 510)
    × ShortLines lines
    × OneLine partial
    × (length partial ≤ 512)

abbrev pub AllFit : Bytes → List Chunk → Type 0
AllFit read [] = Unit
AllFit read (chunk ∷ chunks) = Fits read chunk × AllFit (read_behind read chunk) chunks

abbrev pub all_lines : Bytes → List Chunk → List Bytes
all_lines read [] = []
all_lines read (chunk ∷ chunks) = lines_of read chunk ++ all_lines (read_behind read chunk) chunks

abbrev pub left_over : Bytes → List Chunk → Bytes
left_over read [] = read
left_over read (chunk ∷ chunks) = left_over (read_behind read chunk) chunks

abbrev pub whole_text : List Chunk → Bytes
whole_text [] = []
whole_text (chunk ∷ chunks) = text_of chunk ++ whole_text chunks

abbrev pub events_of : List Chunk → List Event → List Event
events_of [] events = events
events_of (chunk ∷ chunks) events = received (text_of chunk) ∷ events_of chunks events

receive_chunk :
    (chunk : Chunk) (s : Frame) (read : Bytes)
    → Holds s read
    → Fits read chunk
    → (s' : Frame) × (receive_all s none (text_of chunk)
        ≡ ok (s', map handle_line (lines_of read chunk)))
      × Holds s' (read_behind read chunk)
receive_chunk (part text) s read h (one, room) =
    let (s', p, h', on) = receive_text text s read none h one room in
    (
      s',
      subst (λ t. receive_all s none t ≡ ok (s', [])) (append-nil text)
          (on [] ∙ receive_all-nil s' p),
      h',
    )
receive_chunk (whole line lines partial) s read h (one_line, fits, short, one, room) =
    receive_all-lines read line lines partial s none h one_line fits short one room

map-append : (f : Bytes → Action) (xs ys : List Bytes) → map f (xs ++ ys) ≡ map f xs ++ map f ys
map-append f [] ys = refl
map-append f (x ∷ xs) ys = ap (◌∷◌ (f x)) (map-append f xs ys)

joined-append :
    (xs ys : List Bytes) (partial : Bytes)
    → joined (xs ++ ys) partial ≡ joined xs (joined ys partial)
joined-append [] ys partial = refl
joined-append (x ∷ xs) ys partial = ap (λ t. x ++ (b'\r' ∷ b'\n' ∷ t)) (joined-append xs ys partial)

joined-behind :
    (lines : List Bytes) (partial rest : Bytes)
    → joined lines partial ++ rest ≡ joined lines (partial ++ rest)
joined-behind [] partial rest = refl
joined-behind (x ∷ lines) partial rest =
    append_assoc x _ rest ∙ ap (λ t. x ++ (b'\r' ∷ b'\n' ∷ t)) (joined-behind lines partial rest)

append_assoc_four :
    (a b c d : Bytes)
    → a ++ ((b ++ (b'\r' ∷ b'\n' ∷ c)) ++ d) ≡ (a ++ b) ++ (b'\r' ∷ b'\n' ∷ (c ++ d))
append_assoc_four a b c d =
    ap (λ t. a ++ t) (append_assoc b (b'\r' ∷ b'\n' ∷ c) d)
    ∙ sym (append_assoc a b (b'\r' ∷ b'\n' ∷ (c ++ d)))

-- the lines are those of the text as a whole
all_lines-joined :
    (chunks : List Chunk) (read : Bytes)
    → read ++ whole_text chunks ≡ joined (all_lines read chunks) (left_over read chunks)
all_lines-joined [] read = append-nil read
all_lines-joined (part text ∷ chunks) read =
    sym (append_assoc read text (whole_text chunks)) ∙ all_lines-joined chunks (read ++ text)
all_lines-joined (whole line lines partial ∷ chunks) read =
    append_assoc_four read line (joined lines partial) (whole_text chunks)
    ∙ ap (λ t. (read ++ line) ++ (b'\r' ∷ b'\n' ∷ t))
        (joined-behind lines partial (whole_text chunks)
          ∙ ap (joined lines) (all_lines-joined chunks partial)
          ∙ sym (joined-append lines (all_lines partial chunks) (left_over partial chunks)))

irc_loop-chunks :
    (chunks : List Chunk) (s : Frame) (read : Bytes) (rest : List Event)
    → Holds s read
    → AllFit read chunks
    → irc_loop s (events_of chunks (closed ∷ rest))
      ≡ ok (
        map handle_line (all_lines read chunks) ++ send (codes "QUIT :Gone fishing.\r\n") ∷ [],
        true,
      )
unfolding irc_loop
irc_loop-chunks [] s read rest h fit = refl
irc_loop-chunks (chunk ∷ chunks) s read rest h (fits, fit) =
    let (s', run, h') = receive_chunk chunk s read h fits in
    let later = irc_loop-chunks chunks s' (read_behind read chunk) rest h' fit in
    rw (run, ◌>>=◌)
      (rw (later, ◌>>=◌)
        (ap (λ now. ok (now, true))
          (sym (append_assoc (map handle_line (lines_of read chunk)) _ _)
            ∙ ap (λ now. now ++ send (codes "QUIT :Gone fishing.\r\n") ∷ [])
                (sym (
                  map-append handle_line (lines_of read chunk)
                    (all_lines (read_behind read chunk) chunks))))))

all_lines-ShortLines :
    (chunks : List Chunk) (read : Bytes)
    → OneLine read
    → AllFit read chunks
    → ShortLines (all_lines read chunks) × OneLine (left_over read chunks)
all_lines-ShortLines [] read one fit = (tt, one)
all_lines-ShortLines (part text ∷ chunks) read one ((text_one, room), fit) =
    all_lines-ShortLines chunks (read ++ text) (OneLine-append read text one text_one) fit
all_lines-ShortLines (whole line lines partial ∷ chunks) read one
      ((line_one, fits, short, partial_one, room), fit) =
    let (later, left) = all_lines-ShortLines chunks partial partial_one fit in
    (
      (
        OneLine-append read line one line_one,
        omega (arith, length-append read line),
        ShortLines-append lines (all_lines partial chunks) short later,
      ),
      left,
    )
  where
    ShortLines-append : (xs ys : List Bytes) → ShortLines xs → ShortLines ys → ShortLines (xs ++ ys)
    ShortLines-append [] ys h k = k
    ShortLines-append (x ∷ xs) ys (a, b, h) k = (a, b, ShortLines-append xs ys h k)

-- However the text of the connection is cut into chunks, as long as no cut falls inside a line break,
-- no line has a `\r` or `\n` inside it or more than 510 bytes, and no start of a line more than 512:
-- when the connection is closed, the loop has ended, each line of the text has been handled once and
-- in order, and the farewell has been sent behind them.
pub irc_loop-stream :
    (chunks : List Chunk) (rest : List Event)
    → AllFit [] chunks
    → (lines : List Bytes) × (partial : Bytes) × ShortLines lines
      × OneLine partial
      × (whole_text chunks ≡ joined lines partial)
      × (irc_loop start (events_of chunks (closed ∷ rest))
          ≡ ok (map handle_line lines ++ send (codes "QUIT :Gone fishing.\r\n") ∷ [], true))
irc_loop-stream chunks rest fit = (
  all_lines [] chunks,
  left_over [] chunks,
  (all_lines-ShortLines chunks [] tt fit).0,
  (all_lines-ShortLines chunks [] tt fit).1,
  all_lines-joined chunks [],
  irc_loop-chunks chunks start [] rest start-Holds fit,
)
