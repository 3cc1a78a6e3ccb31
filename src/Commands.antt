-- ===== src/Commands.antt =====
-- src/modules.c, the command tree: registering commands and finding the one that a message calls.
-- `H` is the type of handlers. A node has 26 children, one for each letter; `null` is the pointer.
pub mod Tree
pub mod Register
pub mod Unregister
pub mod Contract
pub mod Table
pub mod Refine
pub mod Dispatch
use minervabot.Prelude.{
  ℕ, zero, suc, ◌+◌, ◌-◌, Bool, true, false, ◌&&◌, ◌||◌, Option, none, some, List, [], ◌∷◌, ◌++◌,
  ltb, leb, ◌==◌, if◌then◌else◌, length, take, drop, ℤ, pos, negsuc,
}
use minervabot.Run.{Run, ok, fault, ◌>>=◌}
use minervabot.CString.{Bytes, equal}

mutual
  pub data CommandTree (H : Type 0) : Type 0 where
    null : CommandTree H
    node : Option H → Children H → CommandTree H

  pub data Children (H : Type 0) : Type 0 where
    nil : Children H
    cons : CommandTree H → Children H → Children H

module _ {H : Type 0} where
  -- `ptr->children[i]`
  unfoldable pub child : Children H → ℕ → Run (CommandTree H)
  child nil i = fault
  child (cons t ts) zero = ok t
  child (cons t ts) (suc i) = child ts i

  -- `ptr->children[i] = t`
  unfoldable pub set_child : Children H → ℕ → CommandTree H → Run (Children H)
  set_child nil i t = fault
  set_child (cons _ ts) zero t = ok (cons t ts)
  set_child (cons u ts) (suc i) t = do ts' ← set_child ts i t; ok (cons u ts')

  unfoldable pub nulls : ℕ → Children H
  nulls zero = nil
  nulls (suc n) = cons null (nulls n)

  -- `calloc(1, sizeof(struct command_tree))`
  unfoldable pub new_node : Bool → CommandTree H
  unfolding nulls
  new_node true = node none (nulls 26)
  new_node false = null

  -- `if (p == NULL) p = calloc(…)`
  unfoldable pub or_new : Bool → CommandTree H → CommandTree H
  or_new calloc_ok null = new_node calloc_ok
  or_new calloc_ok (node h cs) = node h cs

-- the index of a letter in either case; `none` is an invalid character
unfoldable pub letter : ℕ → Option ℕ
letter real =
    if leb b'A' real && leb real b'Z'
    then some (real + 32 - b'a')
    else if ltb real b'a' || ltb b'z' real
    then none
    else some (real - b'a')

module _ {H : Type 0} where
  -- The walk of `modules_register_cmd` from one node on, with the node that it leaves and the return
  -- value. `calloc_ok n` says whether the allocation with `n` characters left to read succeeds.
  unfoldable pub register_from : (ℕ → Bool) → H → Bytes → CommandTree H → Run (CommandTree H × ℤ)
  register_from calloc_ok handler name null = ok (null, negsuc 1)
  register_from calloc_ok handler [] (node h cs) = ok (node (some handler) cs, pos 0)
  register_from calloc_ok handler (real ∷ name) (node h cs) = elim (letter real) [
    | none ↦ ok (node h cs, negsuc 0)
    | some i ↦ do
      old ← child cs i
      (t, result) ← register_from calloc_ok handler name (or_new (calloc_ok (length name)) old)
      cs' ← set_child cs i t
      ok (node h cs', result)
  ]

  unfoldable pub modules_register_cmd :
      (ℕ → Bool) → CommandTree H → Bytes → H → Run (CommandTree H × ℤ)
  modules_register_cmd calloc_ok cmds cmdname handler = register_from calloc_ok handler cmdname cmds

  unfoldable pub unregister_from : Bytes → CommandTree H → Run (CommandTree H × ℤ)
  unregister_from name null = ok (null, negsuc 2)
  unregister_from [] (node h cs) = ok (node none cs, pos 0)
  unregister_from (real ∷ name) (node h cs) = elim (letter real) [
    | none ↦ ok (node h cs, negsuc 0)
    | some i ↦ do
      next ← child cs i
      (t, result) ← unregister_from name next
      cs' ← set_child cs i t
      ok (node h cs', result)
  ]

  unfoldable pub modules_unregister_cmd : CommandTree H → Bytes → Run (CommandTree H × ℤ)
  modules_unregister_cmd cmds cmdname = unregister_from cmdname cmds

  -- every child is cleaned, freed and set to null
  unfoldable pub clean_children : Children H → Children H
  clean_children nil = nil
  clean_children (cons t ts) = cons null (clean_children ts)

  -- the children of a node that is then freed leave no trace
  unfoldable pub modules_cmds_clean : CommandTree H → CommandTree H
  modules_cmds_clean null = null
  modules_cmds_clean (node h cs) = node h (clean_children cs)

-- what `threadpool_queue_cmd` is called with, besides `from` and `where`
pub record Call (H : Type 0) : Type 0 where
  pub handler : H
  pub cmdname : Bytes
  pub args : Bytes

module _ {H : Type 0} where
  call : Option H → Bytes → Bytes → Option (Call H)
  call none cmdname args = none
  call (some handler) cmdname args =
      some (record { handler = handler; cmdname = cmdname; args = args })

  -- The walk of `modules_check_cmd`: `name` is what stands from `message_orig` to the pointer.
  unfoldable pub check_from : Bytes → Bytes → CommandTree H → Run (Option (Call H))
  unfolding call
  check_from name message null = ok none
  check_from name [] (node h cs) = ok (call h name [])
  check_from name (real ∷ message) (node h cs) =
      if real == b' ' then ok (call h name message) else elim (letter real) [
        | none ↦ ok none
        | some i ↦ do next ← child cs i; check_from (name ++ real ∷ []) message next
      ]

  -- `message += i + 1` with `i` 0: one character is skipped, whatever the length of the prefix
  unfoldable pub modules_check_cmd : Bytes → CommandTree H → Bytes → Run (Option (Call H))
  modules_check_cmd cmdprefix cmds message =
      if ltb (length message) (length cmdprefix + 1)
      then ok none
      else if equal (take (length cmdprefix) message) cmdprefix
      then check_from [] (drop 1 message) cmds
      else ok none
