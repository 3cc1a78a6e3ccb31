-- ===== src/Commands/Table.antt =====
-- The command tree as a table from words to handlers: a sequence of requests, each by the functions of
-- src/modules.c, and what the table says of the same requests.
use minervabot.Prelude.{
  ℕ, ◌≡◌, ◌≢◌, true, Option, none, some, List, [], ◌∷◌, ◌++◌, ◌==◌, if◌then◌else◌,
}
use minervabot.Run.{Run, ok, ◌>>=◌}
use minervabot.CString.{Bytes, equal}
use minervabot.Commands.Tree.{letters, find, IsFull, is_word}
use minervabot.Commands.Dispatch.{first_word}
use minervabot.Commands.{
  CommandTree, null, Call, modules_register_cmd, modules_unregister_cmd, modules_cmds_clean,
  modules_check_cmd,
}

pub data Request (H : Type 0) : Type 0 where
  register : Bytes → H → Request H
  unregister : Bytes → Request H
  clean : Request H
  message : Bytes → Request H

module _ {H : Type 0} where
  -- One request with memory given; a message gives the call it makes, if any.
  unfoldable pub serve_one :
      ℕ → CommandTree H → Request H → Run (CommandTree H × List (Option (Call H)))
  serve_one prefix cmds (register cmdname handler) = do
    (cmds', result) ← modules_register_cmd (λ _. true) cmds cmdname handler
    ok (cmds', [])
  serve_one prefix cmds (unregister cmdname) = do
    (cmds', result) ← modules_unregister_cmd cmds cmdname
    ok (cmds', [])
  serve_one prefix cmds clean = ok (modules_cmds_clean cmds, [])
  serve_one prefix cmds (message text) = do
    answer ← modules_check_cmd (prefix ∷ []) cmds text
    ok (cmds, answer ∷ [])

  unfoldable pub serve :
      ℕ → CommandTree H → List (Request H) → Run (CommandTree H × List (Option (Call H)))
  serve prefix cmds [] = ok (cmds, [])
  serve prefix cmds (request ∷ requests) = do
    (cmds', now) ← serve_one prefix cmds request
    (cmds'', later) ← serve prefix cmds' requests
    ok (cmds'', now ++ later)

-- a table: the handler of each word, spelled by the places of its letters
abbrev pub Table : Type 0 → Type 0
Table H = List ℕ → Option H

module _ {H : Type 0} where
  abbrev pub table_behind : Table H → Request H → Table H
  table_behind table (register cmdname handler) =
      λ js. if is_word (letters cmdname) js then some handler else table js
  table_behind table (unregister cmdname) =
      λ js. if is_word (letters cmdname) js then none else table js
  table_behind table clean = λ js. if equal js [] then table js else none
  table_behind table (message text) = table

  -- the call of a typed word
  abbrev pub table_call : Table H → Bytes → Bytes → Option (Call H)
  table_call table word args = elim (letters word) [
    | none ↦ none
    | some is ↦ elim (table is) [
      | none ↦ none
      | some handler ↦ some (record { handler = handler; cmdname = word; args = args })
    ]
  ]

  abbrev pub table_answer : Table H → ℕ → Bytes → Option (Call H)
  table_answer table prefix [] = none
  table_answer table prefix (x ∷ []) = none
  table_answer table prefix (x ∷ c ∷ rest) =
      if x == prefix
      then table_call table (first_word (c ∷ rest)).0 (first_word (c ∷ rest)).1
      else none

  abbrev pub answers_one : ℕ → Table H → Request H → List (Option (Call H))
  answers_one prefix table (message text) = table_answer table prefix text ∷ []
  answers_one prefix table _ = []

  abbrev pub answers : ℕ → Table H → List (Request H) → List (Option (Call H))
  answers prefix table [] = []
  answers prefix table (request ∷ requests) =
      answers_one prefix table request ++ answers prefix (table_behind table request) requests

  abbrev pub last_table : Table H → List (Request H) → Table H
  last_table table [] = table
  last_table table (request ∷ requests) = last_table (table_behind table request) requests

  -- the tree stands for the table
  pub record Implements (cmds : CommandTree H) (table : Table H) : Type 0 where
    pub full : IsFull cmds
    pub there : cmds ≢ null
    pub finds : (js : List ℕ) → find js cmds ≡ table js
