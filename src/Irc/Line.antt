-- ===== src/Irc/Line.antt =====
-- src/irc.c, `irc_loop`: what it makes of one line. A pointer into `buf` is the string that it reads
-- as when the line has been taken apart.
use minervabot.Prelude.{
  ℕ, ◌+◌, Bool, false, ◌&&◌, ◌||◌, Option, none, some, [], ◌∷◌, ◌++◌, ltb, ◌==◌, if◌then◌else◌,
}
use minervabot.CString.{Bytes, codes, starts_with, until_null, split_at}

pub record Words : Type 0 where
  pub wordcount : ℕ
  pub user : Option Bytes
  pub command : Option Bytes
  pub target : Option Bytes
  pub message : Option Bytes

abbrev pub no_words : Words
no_words = record { wordcount = 0; user = none; command = none; target = none; message = none }

-- at a space: the switch on the count, with the word that ends there; `target` is C's `where`
unfoldable pub end_word : Words → Bytes → Words
end_word w word =
    let n = w.wordcount + 1 in
    record {
      wordcount = n;
      user = if n == 1 then some (until_null word) else w.user;
      command = if n == 2 then some (until_null word) else w.command;
      target = if n == 3 then some (until_null word) else w.target;
      message = w.message;
    }

-- at the colon: the rest is the message, unless the colon is the last character
set_message : Words → Bytes → Words
set_message w [] = w
set_message w (c ∷ rest) = record w { message = some (until_null (c ∷ rest)) }

-- the loop over `j`: `word` is what has been read since the last space
unfoldable pub split_words : Words → Bytes → Bytes → Words
unfolding end_word set_message
split_words w word [] = w
split_words w word (c ∷ rest) =
    let space = c == b' ' in
    let next =
      split_words (if space then end_word w word else w) (if space then [] else word ++ c ∷ [])
        rest in
    if space then next else if c == b':' && w.wordcount == 3 then set_message w rest else next

-- what the bot does about a line
pub data Action : Type 0 where
  ignore : Action
  send : Bytes → Action
  check_cmd : Bytes → Bytes → Bytes → Action

-- the first character says whether the message went to a channel
unfoldable pub channel_sign : Bytes → Bool
channel_sign [] = false
channel_sign (c ∷ _) = c == b'#' || c == b'&' || c == b'+' || c == b'!'

unfoldable pub before_sign : Bytes → Option (Bytes × Bytes) → Bytes
before_sign user none = user
before_sign user (some (nick, _)) = nick

-- a private message is answered to the nick of its sender
unfoldable pub reply_to : Bytes → Bytes → Bytes
unfolding channel_sign before_sign
reply_to user target = if channel_sign target then target else before_sign user (split_at b'!' user)

privmsg : Words → Option Bytes → Option Bytes → Option Bytes → Action
privmsg w (some user) (some target) (some message) = check_cmd user (reply_to user target) message
privmsg w user target message = ignore

unfoldable pub on_command : Words → Option Bytes → Action
unfolding privmsg
on_command w none = ignore
on_command w (some command) =
    if ltb w.wordcount 2
    then ignore
    else if starts_with command (codes "PRIVMSG") || starts_with command (codes "NOTICE")
    then privmsg w w.user w.target w.message
    else ignore

tail : Bytes → Bytes
tail [] = []
tail (_ ∷ rest) = rest

-- `text` is the line without its line break, and `buf` holds a null behind it
unfoldable pub handle_line : Bytes → Action
unfolding on_command tail
handle_line [] = ignore
handle_line (c ∷ text) =
    if starts_with (c ∷ text) (codes "PING")
    then send (until_null (c ∷ b'O' ∷ tail text) ++ codes "\r\n")
    else if c == b':'
    then (let w = split_words no_words [] (text ++ 0 ∷ []) in on_command w w.command)
    else ignore
