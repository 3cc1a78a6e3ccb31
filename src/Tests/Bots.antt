-- ===== src/Tests/Bots.antt =====
-- The theorems on the handlers of src/modules at concrete calls.
use minervabot.Prelude.{
  ℕ, ℤ, ◌≡◌, refl, true, none, List, [], ◌∷◌, arith, take, replicate, pos, ltb_ℤ, if◌then◌else◌,
}
use minervabot.Run.{ok}
use minervabot.CString.{Bytes, codes}
use minervabot.Permissions.Search.{IsText}
use minervabot.Bot.{Caller, CoreCall, msg, refusal}
use minervabot.Bot.Chanop.{handle_chanop}
use minervabot.Bot.Gates.{AllModest, handle_chanop_below_op}
use minervabot.Commands.{CommandTree, node, nulls}
use minervabot.Commands.Tree.{find, IsFull, nulls_full}
use minervabot.Bot.Setup.{register_all, unregister_all, chanop_commands}
use minervabot.Bot.Lifecycle.{named, names_of, unregister_all-register_all}
use minervabot.Bot.Fun.{handle_fw}
use minervabot.Bot.Fullwidth.{full_width_text, handle_fw-full_width}

abbrev half_op : Caller
half_op = record {
  sender = record { nick = codes "hop"; ident = none; host = none };
  permission_level = pos 30000;
}

guest-IsText : IsText (codes "guest")
guest-IsText = ground arith

handle_chanop_below_op_example :
    ((answers : List CoreCall) × (handle_chanop (codes "kick") half_op (codes "#c") (codes "guest")
        ≡ ok answers)
      × AllModest (codes "#c") (codes "guest") answers)
    × (ltb_ℤ half_op.permission_level (pos 25000) ≡ true
        → handle_chanop (codes "kick") half_op (codes "#c") (codes "guest")
          ≡ ok (refusal half_op (codes "#c") ∷ []))
handle_chanop_below_op_example =
    handle_chanop_below_op (codes "kick") half_op (codes "#c") (codes "guest") refl guest-IsText
      (omega arith)

-- a buffer that holds what was there before
abbrev dirty : Bytes
dirty = replicate 511 170

handle_fw-full_width_example :
    handle_fw dirty (codes "fw") half_op (codes "#c") (codes "Hi there~")
    ≡ ok (msg (codes "#c") (full_width_text (take 170 (codes "Hi there~"))) ∷ [])
handle_fw-full_width_example =
    handle_fw-full_width dirty (codes "fw") half_op (codes "#c") (codes "Hi there~") refl

-- the module bot_chanop in an empty tree; handlers are numbers
abbrev empty_tree : CommandTree ℕ
empty_tree = node none (nulls 26)

-- its commands
abbrev channel_commands : List (Bytes × ℕ)
channel_commands = chanop_commands 1

unregister_all-register_all_example :
    (loaded unloaded : CommandTree ℕ) × (result : ℤ) × (register_all
        (λ _ _. true)
        empty_tree
        channel_commands
      ≡ ok (loaded, result))
    × (unregister_all loaded (names_of channel_commands) ≡ ok unloaded)
    × IsFull unloaded
    × ((js : List ℕ)
        → find js unloaded
          ≡ (if named (names_of channel_commands) js then none else find js empty_tree))
unregister_all-register_all_example =
    unregister_all-register_all channel_commands (λ _ _. true) empty_tree (nulls_full ℕ 26)
