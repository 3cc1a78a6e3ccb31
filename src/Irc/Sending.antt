-- ===== src/Irc/Sending.antt =====
-- What the sending functions guarantee, and where they do not.
use minervabot.Prelude.{
  ℕ, zero, suc, ◌+◌, ◌≤◌, ◌<◌, ◌≡◌, refl, ap, ◌∙◌, false, [], ◌∷◌, ◌++◌, arith, ◌==◌, length, take,
  length-take, length-append,
}
use mathlib.Core.List.{append_assoc}
use minervabot.CString.{Bytes, codes}
use minervabot.Irc.Sender.{Lacks}
use minervabot.Irc.{irc_filter, net_raw, crlf, irc_message}

-- neither `\r` nor `\n` stands in a text
abbrev pub OneLine : Bytes → Type 0
OneLine [] = Unit
OneLine (c ∷ s) = ((c == b'\r') ≡ false) × ((c == b'\n') ≡ false) × OneLine s

-- `irc_filter` leaves no line break, keeps the length, and leaves a text with no line break as it is.
pub irc_filter-OneLine :
    (str : Bytes)
    → OneLine (irc_filter str)
      × (length (irc_filter str) ≡ length str)
      × (OneLine str → irc_filter str ≡ str)
unfolding irc_filter
irc_filter-OneLine [] = (tt, refl, λ _. refl)
irc_filter-OneLine (c ∷ str) =
    let (one, same, fixed) = irc_filter-OneLine str in
    (ground arith, ap suc same, λ h. ground (arith, fixed h.2))

-- a text of one line and its line break, cut short
Lacks-take_line :
    (n : ℕ) (s : Bytes) → OneLine s → n ≤ length s + 1 → Lacks b'\n' (take n (s ++ crlf))
Lacks-take_line zero s h le = tt
Lacks-take_line (suc zero) [] h le = (refl, tt)
Lacks-take_line (suc (suc n)) [] h le = absurd (omega arith)
Lacks-take_line (suc n) (c ∷ s) (_, lf, h) le = (lf, Lacks-take_line n s h (omega arith))

whole_line : (n : ℕ) (s : Bytes) → length s ≤ n → take n s ≡ s
whole_line zero [] h = refl
whole_line (suc n) [] h = refl
whole_line zero (c ∷ s) h = absurd (omega arith)
whole_line (suc n) (c ∷ s) h = ap (◌∷◌ c) (whole_line n s (omega arith))

pub OneLine-append : (a b : Bytes) → OneLine a → OneLine b → OneLine (a ++ b)
OneLine-append [] b h k = k
OneLine-append (c ∷ a) b (x, y, h) k = (x, y, OneLine-append a b h k)

-- the line that `irc_message` is meant to send, without its line break
abbrev pub privmsg_line : Bytes → Bytes → Bytes
privmsg_line chan message = codes "PRIVMSG " ++ (chan ++ (codes " :" ++ message))

irc_message-take :
    (chan message : Bytes) → irc_message chan message ≡ take 511 (privmsg_line chan message ++ crlf)
unfolding irc_message net_raw
irc_message-take chan message = simp append_assoc

-- For a channel and a message of one line each, `irc_message` sends the whole line with its line
-- break where both together have at most 499 bytes; where they have more, it sends 511 bytes with no
-- line break among them, so that the next line that is sent runs on in this one.
pub irc_message_sent :
    (chan message : Bytes)
    → OneLine chan
    → OneLine message
    → (length chan + length message ≤ 499
        → irc_message chan message ≡ privmsg_line chan message ++ crlf)
      × (499 < length chan + length message
          → (length (irc_message chan message) ≡ 511) × Lacks b'\n' (irc_message chan message))
irc_message_sent chan message hc hm = (
  λ short. irc_message-take chan message ∙ whole_line 511 _ (omega (arith, size)),
  λ long. rw (irc_message-take chan message) (
    length-take 511 (privmsg_line chan message ++ crlf) ∙ omega (arith, size),
    Lacks-take_line 511 (privmsg_line chan message) one (omega (arith, body)),
  ),
)
  where
    body : length (privmsg_line chan message) ≡ 10 + length chan + length message
    body = omega (
      arith,
      length-append (codes "PRIVMSG ") (chan ++ (codes " :" ++ message)),
      length-append chan (codes " :" ++ message),
      length-append (codes " :") message,
    )

    size : length (privmsg_line chan message ++ crlf) ≡ 12 + length chan + length message
    size = omega (arith, body, length-append (privmsg_line chan message) crlf)

    one : OneLine (privmsg_line chan message)
    one =
        OneLine-append (codes "PRIVMSG ") _ (ground arith)
          (OneLine-append chan _ hc (OneLine-append (codes " :") message (ground arith) hm))
