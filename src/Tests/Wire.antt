-- ===== src/Tests/Wire.antt =====
-- The theorems on src/irc.c at concrete lines.
use minervabot.Prelude.{
  ℕ, zero, suc, ◌+◌, ◌<◌, ◌≤◌, ◌≡◌, refl, inl, true, none, List, [], ◌∷◌, ◌++◌, arith, length, map,
  replicate,
}
use minervabot.Run.{ok}
use minervabot.CString.{Bytes, codes}
use minervabot.Irc.{crlf, irc_message}
use minervabot.Irc.Sending.{OneLine, privmsg_line, irc_message_sent}
use minervabot.Irc.Sender.{Lacks}
use minervabot.Irc.Line.{send, check_cmd, handle_line}
use minervabot.Irc.Privmsg.{in_channel, handle_line_privmsg}
use minervabot.Irc.Loop.{Frame, closed, start, receive_all, irc_loop}
use minervabot.Irc.Framing.{Holds, start-Holds, joined, ShortLines}
use minervabot.Irc.Stream.{Chunk, part, whole, whole_text, events_of, irc_loop-stream}
use minervabot.Irc.Chunks.{receive_all-lines}

second_line : ShortLines (codes ":a!b@c PRIVMSG #c :hi" ∷ [])
second_line = (ground arith, omega arith, tt)

letters_line : (n : ℕ) → OneLine (replicate n b'a')
letters_line zero = tt
letters_line (suc n) = (refl, refl, letters_line n)

receive_all-lines_example :
    (s' : Frame) × (receive_all start none
        (joined (codes "PING x" ∷ codes ":a!b@c PRIVMSG #c :hi" ∷ []) (codes "PIN"))
      ≡ ok
          (s', handle_line (codes "PING x") ∷ map handle_line (codes ":a!b@c PRIVMSG #c :hi" ∷ [])))
    × Holds s' (codes "PIN")
receive_all-lines_example =
    receive_all-lines [] (codes "PING x") (codes ":a!b@c PRIVMSG #c :hi" ∷ []) (codes "PIN") start
      none start-Holds (ground arith) (omega arith) second_line (ground arith) (omega arith)

handle_line_privmsg_example :
    (handle_line (
        b':'
        ∷ (codes "a!b@c"
            ++ b' ' ∷ (codes "PRIVMSG" ++ b' ' ∷ (codes "#c" ++ b' ' ∷ b':' ∷ codes ",hug : me"))))
      ≡ check_cmd (codes "a!b@c") (codes "#c") (codes ",hug : me"))
    × (handle_line (
          b':'
          ∷ (codes "a!b@c"
              ++ b' ' ∷ (codes "NOTICE" ++ b' ' ∷ (codes "#c" ++ b' ' ∷ b':' ∷ codes ",hug : me"))))
        ≡ check_cmd (codes "a!b@c") (codes "#c") (codes ",hug : me"))
handle_line_privmsg_example =
    handle_line_privmsg (codes "a!b@c") (codes "#c") (codes "#c") (codes ",hug : me")
      (in_channel (codes "a!b@c") b'#' (codes "c") (inl refl)) (ground arith) (ground arith)
      (ground arith)

-- a message that is too long
abbrev long_message : Bytes
long_message = replicate 600 b'a'

irc_message_sent_example :
    (length (codes "#c") + length long_message ≤ 499
      → irc_message (codes "#c") long_message ≡ privmsg_line (codes "#c") long_message ++ crlf)
    × (499 < length (codes "#c") + length long_message
        → (length (irc_message (codes "#c") long_message) ≡ 511)
          × Lacks b'\n' (irc_message (codes "#c") long_message))
irc_message_sent_example =
    irc_message_sent (codes "#c") long_message (ground arith) (letters_line 600)

-- a line in three chunks, the second of which also brings the next line
abbrev chunks : List Chunk
chunks =
    part (codes "PI")
    ∷ whole (codes "NG x") (codes ":a!b@c PRIVMSG #c :hi" ∷ []) (codes "PI")
    ∷ whole (codes "NG y") [] []
    ∷ []

irc_loop-stream_example :
    (lines : List Bytes) × (partial : Bytes) × ShortLines lines
    × OneLine partial
    × (whole_text chunks ≡ joined lines partial)
    × (irc_loop start (events_of chunks (closed ∷ []))
        ≡ ok (map handle_line lines ++ send (codes "QUIT :Gone fishing.\r\n") ∷ [], true))
irc_loop-stream_example = irc_loop-stream chunks [] (
  (ground arith, omega arith),
  (
    (ground arith, omega arith, second_line, ground arith, omega arith),
    ((ground arith, omega arith, tt, tt, omega arith), tt),
  ),
)
