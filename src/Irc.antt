-- ===== src/Irc.antt =====
-- src/irc.c and the sending half of src/net.c: the lines that the bot sends, and the parts of a
-- sender. What is sent is the text that `_net_raws` hands to the connection.
pub mod Sending
pub mod Sender
pub mod Line
pub mod Loop
pub mod Framing
pub mod Chunks
pub mod Stream
pub mod Login
pub mod Codes
pub mod Nick
pub mod Welcome
pub mod Privmsg
use minervabot.Prelude.{
  ℕ, zero, suc, ◌+◌, Bool, true, false, ◌||◌, Option, none, some, List, [], ◌∷◌, ◌++◌, ◌==◌,
  if◌then◌else◌, take,
}
use minervabot.CString.{Bytes, codes, split_at}

-- line breaks become spaces
unfoldable pub irc_filter : Bytes → Bytes
irc_filter [] = []
irc_filter (c ∷ str) = (if c == b'\r' || c == b'\n' then b' ' else c) ∷ irc_filter str

-- `vsnprintf(sbuf, 512, …)` keeps 511 bytes and adds a null
unfoldable pub net_raw : Bytes → Bytes
net_raw formatted = take 511 formatted

abbrev pub crlf : Bytes
crlf = b'\r' ∷ b'\n' ∷ []

unfoldable pub irc_message : Bytes → Bytes → Bytes
irc_message chan message = net_raw (codes "PRIVMSG " ++ (chan ++ (codes " :" ++ (message ++ crlf))))

-- `vsnprintf(buf, 512, …)`
unfoldable pub irc_message_va : Bytes → Bytes → Bytes
irc_message_va chan formatted = irc_message chan (take 511 formatted)

unfoldable pub irc_action : Bytes → Bytes → Bytes
irc_action chan message = net_raw (
    codes "PRIVMSG "
    ++ (chan ++ (codes " :" ++ (1 ∷ (codes "ACTION " ++ (message ++ (1 ∷ crlf)))))))

unfoldable pub irc_join : Bytes → Bytes
irc_join chan = net_raw (codes "JOIN " ++ (chan ++ crlf))

unfoldable pub irc_part : Bytes → Bytes → Bytes
irc_part chan message = net_raw (codes "PART " ++ (chan ++ (codes " :" ++ (message ++ crlf))))

unfoldable pub irc_chmode : Bytes → Bytes → Bytes
irc_chmode chan modes = net_raw (codes "MODE " ++ (chan ++ (codes " " ++ (modes ++ crlf))))

-- the reason may be the null pointer
unfoldable pub irc_kick : Bytes → Bytes → Option Bytes → Bytes
irc_kick chan nick none = net_raw (codes "KICK " ++ (chan ++ (codes " " ++ (nick ++ crlf))))
irc_kick chan nick (some reason) =
    net_raw (codes "KICK " ++ (chan ++ (codes " " ++ (nick ++ (codes " :" ++ (reason ++ crlf))))))

unfoldable pub irc_raw : Bytes → Bytes
irc_raw message = net_raw (message ++ crlf)

-- `ident` and `host` are null where the sender has no `!` or no `@` behind it
pub record CommandSender : Type 0 where
  pub nick : Bytes
  pub ident : Option Bytes
  pub host : Option Bytes

parse_host : Bytes → Option (Bytes × Bytes) → Bytes → CommandSender
parse_host nick none t = record { nick = nick; ident = some t; host = none }
parse_host nick (some (ident, host)) t = record {
  nick = nick;
  ident = some ident;
  host = some host;
}

parse_ident : Bytes → Option (Bytes × Bytes) → CommandSender
unfolding parse_host
parse_ident str none = record { nick = str; ident = none; host = none }
parse_ident str (some (nick, t)) = parse_host nick (split_at b'@' t) t

unfoldable pub irc_parsesender : Bytes → CommandSender
unfolding parse_ident
irc_parsesender str = parse_ident str (split_at b'!' str)
