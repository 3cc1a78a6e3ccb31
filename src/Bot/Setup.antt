-- ===== src/Bot/Setup.antt =====
-- src/modules: what `module_init` and `module_cleanup` of a module do with the list of its commands.
-- The operands of a C sum may be evaluated in any order; here it is the order in which they stand.
use minervabot.Prelude.{ℕ, suc, Bool, List, [], ◌∷◌, ℤ, pos, ◌+ℤ◌}
use minervabot.Run.{Run, ok, ◌>>=◌}
use minervabot.CString.{Bytes, codes}
use minervabot.Commands.{CommandTree, modules_register_cmd, modules_unregister_cmd}

module _ {H : Type 0} where
  -- `register_cmd(…) + register_cmd(…) + …`; the first argument says which allocations succeed, by the
  -- number of calls and of characters still to come
  unfoldable pub register_all :
      (ℕ → ℕ → Bool) → CommandTree H → List (Bytes × H) → Run (CommandTree H × ℤ)
  register_all calloc_ok cmds [] = ok (cmds, pos 0)
  register_all calloc_ok cmds ((cmdname, handler) ∷ names) = do
    (cmds', result) ← modules_register_cmd (calloc_ok 0) cmds cmdname handler
    (cmds'', results) ← register_all (λ n. calloc_ok (suc n)) cmds' names
    ok (cmds'', result +ℤ results)

  -- the calls of `unregister_cmd`, whose results are dropped
  unfoldable pub unregister_all : CommandTree H → List Bytes → Run (CommandTree H)
  unregister_all cmds [] = ok cmds
  unregister_all cmds (cmdname ∷ names) = do
    (cmds', result) ← modules_unregister_cmd cmds cmdname
    unregister_all cmds' names

  -- the handlers of src/modules/bot_fun.c
  unfoldable pub fun_commands : H → H → H → H → H → H → List (Bytes × H)
  fun_commands cookie hug shrug potato celebrate fw =
      (codes "cookie", cookie)
      ∷ (codes "hug", hug)
      ∷ (codes "shrug", shrug)
      ∷ (codes "potato", potato)
      ∷ (codes "celebrate", celebrate)
      ∷ (codes "confetti", celebrate)
      ∷ (codes "party", celebrate)
      ∷ (codes "fw", fw)
      ∷ []

  -- src/modules/bot_chanop.c
  unfoldable pub chanop_commands : H → List (Bytes × H)
  chanop_commands handle_cmd =
      (codes "mode", handle_cmd)
      ∷ (codes "ban", handle_cmd)
      ∷ (codes "kick", handle_cmd)
      ∷ (codes "op", handle_cmd)
      ∷ (codes "voice", handle_cmd)
      ∷ []

  -- src/modules/bot_perms.c
  unfoldable pub perms_commands : H → List (Bytes × H)
  perms_commands handle_cmd = (codes "setp", handle_cmd) ∷ (codes "getp", handle_cmd) ∷ []

  -- src/modules/bot_admin.c
  unfoldable pub admin_commands : H → H → H → List (Bytes × H)
  admin_commands handle_reload handle_cmd handle_raw =
      (codes "reload", handle_reload)
      ∷ (codes "join", handle_cmd)
      ∷ (codes "part", handle_cmd)
      ∷ (codes "raw", handle_raw)
      ∷ []

  -- src/modules/bot_misc.c
  unfoldable pub misc_commands : H → H → List (Bytes × H)
  misc_commands handle_help handle_hello =
      (codes "help", handle_help) ∷ (codes "hello", handle_hello) ∷ []

  -- src/modules/bot_math.c
  unfoldable pub math_commands : H → List (Bytes × H)
  math_commands handle_calc = (codes "calc", handle_calc) ∷ (codes "eval", handle_calc) ∷ []

  -- src/modules/bot_urban.c
  unfoldable pub urban_commands : H → List (Bytes × H)
  urban_commands handle_cmd = (codes "urban", handle_cmd) ∷ (codes "ud", handle_cmd) ∷ []

  -- src/modules/bot_cryptocurrency.c
  unfoldable pub cryptocurrency_commands : H → List (Bytes × H)
  cryptocurrency_commands handle_cmd =
      (codes "BTC", handle_cmd)
      ∷ (codes "ETH", handle_cmd)
      ∷ (codes "XMR", handle_cmd)
      ∷ (codes "USD", handle_cmd)
      ∷ (codes "CAD", handle_cmd)
      ∷ []
