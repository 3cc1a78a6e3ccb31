-- ===== src/Bot/Chanop.antt =====
-- src/modules/bot_chanop.c: kicks, voices, modes, bans and operators.
use minervabot.Prelude.{
  ℕ, Option, none, some, List, [], ◌∷◌, ◌++◌, ◌==◌, if◌then◌else◌, replicate, pos, ltb_ℤ,
}
use minervabot.Run.{Run, ok, ◌>>=◌}
use minervabot.CString.{Bytes, codes, copy, string, terminated, split_at}
use minervabot.Bot.{Caller, CoreCall, kick, chmode, raw_va, first, refusal}

-- `char cmd_buf[513]` with `+`, the mode and a space in front, and the arguments copied behind them
unfoldable pub mode_buffer : ℕ → Bytes → Run Bytes
mode_buffer mode args = do
  copied ← copy (replicate 510 0) (terminated args)
  text ← string copied
  ok (b'+' ∷ mode ∷ b' ' ∷ text)

-- the arguments up to the first space, and the reason behind it
unfoldable pub kick_call : Bytes → Bytes → Option (Bytes × Bytes) → CoreCall
kick_call where_ args none = kick where_ args none
kick_call where_ args (some (nick, reason)) = kick where_ nick (some reason)

set_mode : ℕ → Bytes → Bytes → Run (List CoreCall)
set_mode mode where_ args = do cmd_buf ← mode_buffer mode args; ok (chmode where_ cmd_buf ∷ [])

-- the first `switch`, for half operators
unfoldable pub half_operator : ℕ → Bytes → Bytes → Run (List CoreCall)
unfolding kick_call set_mode
half_operator c where_ args =
    if c == b'k'
    then ok (kick_call where_ args (split_at b' ' args) ∷ [])
    else if c == b'v'
    then set_mode b'v' where_ args
    else ok []

ban : Bytes → Bytes → Run (List CoreCall)
unfolding set_mode
ban where_ args = do
  calls ← set_mode b'b' where_ args
  ok (
      calls
      ++ raw_va (codes "REMOVE " ++ (where_ ++ (codes " " ++ (args ++ codes " :Banned.\r\n"))))
        ∷ [])

-- the second `switch`; a kick has put a null into `args` by then, but it ends with no case here
unfoldable pub operator : ℕ → Bytes → Bytes → Run (List CoreCall)
unfolding ban set_mode
operator c where_ args =
    if c == b'm'
    then ok (chmode where_ args ∷ [])
    else if c == b'b'
    then ban where_ args
    else if c == b'o'
    then set_mode b'o' where_ args
    else ok []

operator_part : ℕ → Caller → Bytes → Bytes → Run (List CoreCall)
operator_part c who where_ args =
    if ltb_ℤ who.permission_level (pos 40000)
    then ok (refusal who where_ ∷ [])
    else operator c where_ args

unfoldable pub handle_chanop : Bytes → Caller → Bytes → Bytes → Run (List CoreCall)
unfolding operator_part
handle_chanop cmdname who where_ args =
    if ltb_ℤ who.permission_level (pos 25000) then ok (refusal who where_ ∷ []) else (do
      early ← half_operator (first cmdname) where_ args
      late ← operator_part (first cmdname) who where_ args
      ok (early ++ late))
