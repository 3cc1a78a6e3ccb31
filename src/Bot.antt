-- ===== src/Bot.antt =====
-- include/module.h and src/modules: the handlers of commands. A handler is given who calls, where,
-- and what, and it makes calls of the functions in `struct core_ctx`, in the order of the list.
pub mod Chanop
pub mod Admin
pub mod Fun
pub mod Perms
pub mod Fullwidth
pub mod Gates
pub mod Decimal
pub mod Escalation
pub mod Misc
pub mod Setup
pub mod Lifecycle
use minervabot.Prelude.{
  ℕ, zero, suc, Bool, true, false, Option, none, some, List, [], ◌∷◌, ◌++◌, replicate, ℤ, ltb_ℤ,
}
use minervabot.Run.{Run, ok, fault, ◌>>=◌}
use minervabot.CString.{Bytes, codes, copy, string, terminated}
use minervabot.Irc.{
  CommandSender, net_raw, irc_message, irc_message_va, irc_action, irc_join, irc_part, irc_chmode,
  irc_kick, irc_raw,
}

-- `struct command_sender`, with the level that the thread has looked up
pub record Caller : Type 0 where
  pub sender : CommandSender
  pub permission_level : ℤ

-- A call of a function that sends something. The second argument of `msgva` and the argument of
-- `raw_va` are what the format makes of the arguments.
pub data CoreCall : Type 0 where
  msg : Bytes → Bytes → CoreCall
  msgva : Bytes → Bytes → CoreCall
  action : Bytes → Bytes → CoreCall
  join : Bytes → CoreCall
  part : Bytes → Bytes → CoreCall
  chmode : Bytes → Bytes → CoreCall
  kick : Bytes → Bytes → Option Bytes → CoreCall
  raw : Bytes → CoreCall
  raw_va : Bytes → CoreCall

-- the function that `modules_ctx_new` puts into each field, and the text it sends
unfoldable pub sent : CoreCall → Bytes
sent (msg chan message) = irc_message chan message
sent (msgva chan formatted) = irc_message_va chan formatted
sent (action chan message) = irc_action chan message
sent (join chan) = irc_join chan
sent (part chan message) = irc_part chan message
sent (chmode chan modes) = irc_chmode chan modes
sent (kick chan nick reason) = irc_kick chan nick reason
sent (raw message) = irc_raw message
sent (raw_va formatted) = net_raw formatted

-- `*s` of a string
unfoldable pub first : Bytes → ℕ
first [] = 0
first (c ∷ _) = c

-- `ctx->msgva(where, "%s: …", who.nick)`
unfoldable pub to_nick : Caller → Bytes → Bytes → CoreCall
to_nick who where_ text = msgva where_ (who.sender.nick ++ (codes ": " ++ text))

unfoldable pub refusal : Caller → Bytes → CoreCall
unfolding to_nick
refusal who where_ = to_nick who where_ (codes "Insufficient permissions")
