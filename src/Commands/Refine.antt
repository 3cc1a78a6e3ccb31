-- ===== src/Commands/Refine.antt =====
-- The functions of src/modules.c on the command tree, request after request, do what a table from words to
-- handlers does.
use minervabot.Prelude.{
  ℕ, suc, ◌≡◌, ◌≢◌, refl, ap, ◌∙◌, true, false, Option, none, some, List, [], ◌∷◌, arith, ◌==◌,
  if◌then◌else◌, ltb, length, ℤ, is_zero, inl, inr, Bool-cases, Option-cases, ==_iff,
}
use minervabot.Run.{ok, ◌>>=◌, >>=-eq-ok}
use minervabot.CString.{Bytes, equal}
use minervabot.Commands.Tree.{letters, find, IsFull, AreFull, size, is_word}
use minervabot.Commands.Register.{register_result}
use minervabot.Commands.Unregister.{modules_unregister_cmd-Dropped, find-modules_cmds_clean}
use minervabot.Commands.Dispatch.{first_word, called}
use minervabot.Commands.Contract.{modules_register_cmd-find, modules_check_cmd-called}
use minervabot.Commands.{
  CommandTree, null, node, Children, nil, cons, clean_children, letter, child, set_child, call,
  unregister_from, modules_unregister_cmd, modules_cmds_clean, modules_check_cmd,
}
use minervabot.Commands.Table.{
  Request, register, unregister, clean, message, serve_one, serve, Table, table_behind, table_call,
  table_answer, answers_one, answers, last_table, Implements,
}

module _ {H : Type 0} where
  called-table_call :
      (cmds : CommandTree H) (table : Table H) (word args : Bytes)
      → ((js : List ℕ) → find js cmds ≡ table js)
      → called cmds [] word args ≡ table_call table word args
  unfolding called
  called-table_call cmds table word args finds = elim (Option-cases (letters word)) [
    | inl e ↦ rw (e, called, table_call)
    | inr (is, e) ↦ rw (e, called, table_call) (rw (finds is) (either (table is)))
  ]
    where
      either :
          (o : Option H)
          → call o word args ≡ (elim o [
            | none ↦ none
            | some handler ↦ some (record { handler = handler; cmdname = word; args = args })
          ])
      either none = refl
      either (some handler) = refl

  wrong_prefix :
      (prefix x c : ℕ) (rest : Bytes) (cmds : CommandTree H)
      → (x == prefix) ≡ false
      → modules_check_cmd (prefix ∷ []) cmds (x ∷ c ∷ rest) ≡ ok none
  unfolding modules_check_cmd equal
  wrong_prefix prefix x c rest cmds e =
      let long : ltb (suc (suc (length rest))) 2 ≡ false = ground arith in rw (long, e)

  check_cmd-table :
      (prefix : ℕ) (cmds : CommandTree H) (table : Table H) (text : Bytes)
      → Implements cmds table
      → modules_check_cmd (prefix ∷ []) cmds text ≡ ok (table_answer table prefix text)
  unfolding modules_check_cmd
  check_cmd-table prefix cmds table [] h = refl
  check_cmd-table prefix cmds table (x ∷ []) h = refl
  check_cmd-table prefix cmds table (x ∷ c ∷ rest) h = elim (Bool-cases (x == prefix)) [
    | inl e ↦ rw e (
        rw ((==_iff x prefix).0 e) (
          modules_check_cmd-called prefix c rest cmds h.full
          ∙ ap ok (
              called-table_call cmds table (first_word (c ∷ rest)).0 (first_word (c ∷ rest)).1
                h.finds)))
    | inr e ↦ wrong_prefix prefix x c rest cmds e ∙ rw e refl
  ]

  unregister-ne-null :
      (name : Bytes) (t t' : CommandTree H) (result : ℤ)
      → t ≢ null
      → unregister_from name t ≡ ok (t', result)
      → t' ≢ null
  unfolding unregister_from
  unregister-ne-null name null t' result ne run = absurd (ne refl)
  unregister-ne-null [] (node h cs) t' result ne run = λ e. cc (run, e)
  unregister-ne-null (c ∷ name) (node h cs) t' result ne run = elim (Option-cases (letter c)) [
    | inl e ↦ λ p. cc (rw (e, unregister_from) at run, p)
    | inr (i, e) ↦
        let (next, run₁, then₁) = >>=-eq-ok (child cs i) _ (rw (e, unregister_from) at run) in
        let ((t₂, result₂), run₂, then₂) = >>=-eq-ok (unregister_from name next) _ then₁ in
        let (cs', run₃, then₃) = >>=-eq-ok (set_child cs i t₂) _ then₂ in λ p. cc (then₃, p)
  ]

  clean_children-AreFull :
      (cs : Children H) → (size (clean_children cs) ≡ size cs) × AreFull (clean_children cs)
  unfolding clean_children
  clean_children-AreFull nil = (refl, tt)
  clean_children-AreFull (cons t ts) =
      let (same, all) = clean_children-AreFull ts in (ap suc same, (tt, all))

  modules_cmds_clean-IsFull :
      (t : CommandTree H)
      → IsFull t
      → t ≢ null
      → IsFull (modules_cmds_clean t) × (modules_cmds_clean t ≢ null)
  unfolding modules_cmds_clean
  modules_cmds_clean-IsFull null full ne = absurd (ne refl)
  modules_cmds_clean-IsFull (node h cs) full ne =
      let (same, all) = clean_children-AreFull cs in ((same ∙ full.0, all), λ p. cc)

  -- what one request does to a tree that stands for a table
  serve_one-Implements :
      (prefix : ℕ) (cmds : CommandTree H) (table : Table H) (request : Request H)
      → Implements cmds table
      → (cmds' : CommandTree H) × (serve_one prefix cmds request
          ≡ ok (cmds', answers_one prefix table request))
        × Implements cmds' (table_behind table request)
  unfolding serve_one
  serve_one-Implements prefix cmds table (register cmdname handler) h =
      let (cmds', result, run, full', ne', finds', done) =
        modules_register_cmd-find (λ _. true) cmds cmdname handler h.full h.there in
      (
        cmds',
        rw run refl,
        record {
          full = full';
          there = ne';
          finds = λ js.
              finds' js
              ∙ rw (done (λ _. refl), h.finds js)
                  (registered (letters cmdname) js handler (table js));
        },
      )
    where
      registered :
          (word : Option (List ℕ)) (js : List ℕ) (handler : H) (o : Option H)
          → (if is_zero (register_result word)
              then (if is_word word js then some handler else o)
              else o)
            ≡ (if is_word word js then some handler else o)
      registered none js handler o = unfold is_zero in refl
      registered (some is) js handler o = unfold is_zero in refl
  serve_one-Implements prefix cmds table (unregister cmdname) h =
      let (cmds', result, run, full', drop) = modules_unregister_cmd-Dropped cmds cmdname h.full in
      (
        cmds',
        rw run refl,
        record {
          full = full';
          there =
              unregister-ne-null cmdname cmds cmds' result h.there
                (unfold modules_unregister_cmd in run);
          finds = λ js. drop js ∙ rw (h.finds js);
        },
      )
  serve_one-Implements prefix cmds table clean h = (
    modules_cmds_clean cmds,
    refl,
    record {
      full = (modules_cmds_clean-IsFull cmds h.full h.there).0;
      there = (modules_cmds_clean-IsFull cmds h.full h.there).1;
      finds = λ js. find-modules_cmds_clean cmds js ∙ rw (h.finds js);
    },
  )
  serve_one-Implements prefix cmds table (message text) h =
      (cmds, rw (check_cmd-table prefix cmds table text h) refl, h)

  -- A tree whose nodes have all their children stands for a table from words to handlers. Whatever
  -- commands are then registered (memory given) and unregistered, whenever the tree is cleaned, and
  -- whatever messages come, with a prefix of one character: every function returns, the calls are those
  -- that the table gives for the same requests in the same order, and the tree then stands for what the
  -- requests have made of the table.
  pub serve-answers :
      (prefix : ℕ) (requests : List (Request H)) (cmds : CommandTree H) (table : Table H)
      → Implements cmds table
      → (cmds' : CommandTree H) × (serve prefix cmds requests
          ≡ ok (cmds', answers prefix table requests))
        × Implements cmds' (last_table table requests)
  unfolding serve
  serve-answers prefix [] cmds table h = (cmds, refl, h)
  serve-answers prefix (request ∷ requests) cmds table h =
      let (cmds₁, run₁, h₁) = serve_one-Implements prefix cmds table request h in
      let (cmds₂, run₂, h₂) = serve-answers prefix requests cmds₁ (table_behind table request) h₁ in
      (cmds₂, rw run₁ (rw (run₂, ◌>>=◌) refl), h₂)
