-- ===== src/Main/Goodnight.antt =====
-- src/main.c: from the start of the loop to the signal that ends the program.
use minervabot.Prelude.{◌≡◌, Bool, true, false, List, [], ◌∷◌, ◌++◌, map}
use minervabot.CString.{Bytes, codes}
use minervabot.Irc.{irc_join}
use minervabot.Irc.Line.{send, handle_line}
use minervabot.Irc.Loop.{received, closed}
use minervabot.Irc.Login.{Login}
use minervabot.Irc.Stream.{Chunk, events_of}
use minervabot.Permissions.{Permissions}
use minervabot.Loader.{Loader}
use minervabot.Main.{Config, Attempt, Output, net_connect, line, handled, net_disconnect, pause}

-- no signal comes, and the connection is refused
abbrev pub AllRefused : {L H : Type 0} → List (Attempt L H) → Type 0
AllRefused [] = Unit
AllRefused (a ∷ rest) = (a.signal ≡ false) × (a.connects ≡ false) × AllRefused rest

-- the rounds that were refused, and then `more`, behind its pause
abbrev pub retried : {L H : Type 0} → Config → Bool → List (Attempt L H) → List Output → List Output
retried c again [] more = pause again ++ more
retried c again (a ∷ rest) more =
    pause again ++ (net_connect c.host c.port c.use_ssl ∷ retried c true rest more)

-- a server that welcomes the bot, and brings chunks until the connection is closed
abbrev pub served :
    {L H : Type 0} → Bytes → Bytes → Bytes → List Chunk → Loader L H → Permissions → Attempt L H
served buf a b chunks loader levels = record {
  signal = false;
  connects = true;
  malloc_ok = true;
  buf = buf;
  login = received ((a ++ b' ' ∷ b'0' ∷ b) ++ b'\r' ∷ b'\n' ∷ []) ∷ [];
  session = events_of chunks (closed ∷ []);
  loader = loader;
  levels = levels;
}

-- what the program does in the round of `served`, when `lines` have been received
abbrev pub visit : Config → List Bytes → List Bytes → List Bytes → List Output
visit c channels sends lines =
    (net_connect c.host c.port c.use_ssl ∷ []
      ++ (map line sends ++ map (λ channel. line (irc_join channel)) channels))
    ++ (map handled (map handle_line lines ++ send (codes "QUIT :Gone fishing.\r\n") ∷ [])
        ++ net_disconnect ∷ [])
