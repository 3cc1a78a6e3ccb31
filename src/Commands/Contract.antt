-- ===== src/Commands/Contract.antt =====
-- Registering commands and calling them from messages, end to end.
use minervabot.Prelude.{
  ℕ, suc, ◌≡◌, ◌≢◌, refl, sym, ap, ◌∙◌, Bool, true, false, Option, none, some, List, [], ◌∷◌, ◌++◌,
  arith, ◌==◌, ==_iff, if◌then◌else◌, length, take, drop, inl, inr, Bool-cases, Option-cases, ltb,
  ℤ, pos, is_zero,
}
use minervabot.Run.{Run, ok}
use minervabot.CString.{Bytes, equal}
use minervabot.CString.Laws.{equal_refl}
use minervabot.Commands.Tree.{letters, letters_bad, letters-cons, find, IsFull}
use minervabot.Commands.Register.{changed, register_result, register_from-Registered}
use minervabot.Commands.Dispatch.{first_word, called, check_from-called}
use minervabot.Commands.{
  CommandTree, null, node, letter, Call, check_from, modules_register_cmd, modules_check_cmd,
}

second_byte :
    (prefix second : ℕ) (more message : Bytes)
    → equal (take (suc (suc (length more))) message) (prefix ∷ second ∷ more) ≡ true
    → (x : ℕ) × (rest : Bytes) × (message ≡ x ∷ second ∷ rest)
unfolding equal
second_byte prefix second more [] e = absurd (cc e)
second_byte prefix second more (x ∷ []) e = absurd (ground (arith, e))
second_byte prefix second more (x ∷ y ∷ m) e = (x, m, ground (arith, e))

module _ {H : Type 0} where
  -- Whatever allocations fail, `modules_register_cmd` returns and leaves a tree whose nodes have all
  -- their children. If it returns 0, the word of `cmdname`, in either case, calls the new handler;
  -- if not, every word calls what it did, as do all other words in both cases. Where no allocation
  -- fails, it returns 0 for a name of letters only and -1 for any other.
  pub modules_register_cmd-find :
      (calloc_ok : ℕ → Bool) (cmds : CommandTree H) (cmdname : Bytes) (handler : H)
      → IsFull cmds
      → cmds ≢ null
      → (cmds' : CommandTree H) × (result : ℤ) × (modules_register_cmd calloc_ok cmds cmdname
            handler
          ≡ ok (cmds', result))
        × IsFull cmds'
        × (cmds' ≢ null)
        × ((js : List ℕ)
            → find js cmds' ≡ changed (is_zero result) (letters cmdname) (some handler) cmds js)
        × (((n : ℕ) → calloc_ok n ≡ true) → result ≡ register_result (letters cmdname))
  unfolding modules_register_cmd
  modules_register_cmd-find calloc_ok cmds cmdname handler full ne =
      let (cmds', result, r) = register_from-Registered calloc_ok handler cmdname cmds full in
      (cmds', result, r.runs, r.full, r.stays ne, r.finds, λ all. r.completes all ne)

  -- With a prefix of one character, `modules_check_cmd` calls the handler that the first word of a
  -- message behind the prefix names.
  pub modules_check_cmd-called :
      (prefix c : ℕ) (rest : Bytes) (cmds : CommandTree H)
      → IsFull cmds
      → modules_check_cmd (prefix ∷ []) cmds (prefix ∷ c ∷ rest)
        ≡ ok (called cmds [] (first_word (c ∷ rest)).0 (first_word (c ∷ rest)).1)
  unfolding modules_check_cmd
  modules_check_cmd-called prefix c rest cmds full =
      let long : ltb (suc (suc (length rest))) 2 ≡ false = ground arith in
      rw (long, equal_refl (prefix ∷ [])) (check_from-called [] (c ∷ rest) cmds full)

  -- the call that a message asks for
  abbrev pub answer_to : CommandTree H → ℕ → Bytes → Option (Call H)
  answer_to cmds prefix [] = none
  answer_to cmds prefix (x ∷ []) = none
  answer_to cmds prefix (x ∷ c ∷ rest) =
      if x == prefix
      then called cmds [] (first_word (c ∷ rest)).0 (first_word (c ∷ rest)).1
      else none

  -- With a prefix of one character, `modules_check_cmd` of any message returns. A message that begins with the
  -- prefix and has more behind it calls the handler that its first word names, with that word as it was typed
  -- and all that stands behind the space; a word with another character than a letter, or with no handler,
  -- calls nothing, and neither does any other message.
  pub modules_check_cmd-answer_to :
      (prefix : ℕ) (message : Bytes) (cmds : CommandTree H)
      → IsFull cmds
      → modules_check_cmd (prefix ∷ []) cmds message ≡ ok (answer_to cmds prefix message)
  unfolding modules_check_cmd equal
  modules_check_cmd-answer_to prefix [] cmds full = refl
  modules_check_cmd-answer_to prefix (x ∷ []) cmds full = refl
  modules_check_cmd-answer_to prefix (x ∷ c ∷ rest) cmds full =
      let long : ltb (suc (suc (length rest))) 2 ≡ false = ground arith in
      elim (Bool-cases (x == prefix)) [
        | inl e ↦
            rw ((==_iff x prefix).0 e)
              (modules_check_cmd-called prefix c rest cmds full ∙ rw (same prefix) refl)
        | inr e ↦ rw (long, e) refl
      ]
    where
      same : (n : ℕ) → (n == n) ≡ true
      same n = ground arith

  check_from_bad :
      (name rest : Bytes) (c : ℕ) (t : CommandTree H)
      → letter c ≡ none
      → (c == b' ') ≡ false
      → check_from name (c ∷ rest) t ≡ ok none
  unfolding check_from
  check_from_bad name rest c null bad ns = refl
  check_from_bad name rest c (node h cs) bad ns = rw (ns, bad, check_from)

  -- With a prefix of two characters or more, the walk begins at the second character of the prefix:
  -- where that is no letter and no space, no message calls any command.
  pub modules_check_cmd_prefix :
      (prefix : ℕ) (second : ℕ) (more message : Bytes) (cmds : CommandTree H)
      → letter second ≡ none
      → (second == b' ') ≡ false
      → modules_check_cmd (prefix ∷ second ∷ more) cmds message ≡ ok none
  unfolding modules_check_cmd
  modules_check_cmd_prefix prefix second more message cmds bad ns =
      elim (Bool-cases (equal (take (suc (suc (length more))) message) (prefix ∷ second ∷ more))) [
        | inr e ↦ rw e (either _)
        | inl e ↦
            let (x, rest, shape) = second_byte prefix second more message e in
            rw e (
              rw
                (ap (λ l. check_from [] (drop 1 l) cmds) shape
                  ∙ check_from_bad [] rest second cmds bad ns)
                (either _))
      ]
    where
      nothing : Run (Option (Call H))
      nothing = ok none

      either : (b : Bool) → (if b then nothing else nothing) ≡ nothing
      either true = refl
      either false = refl

letter_not_space : (c i : ℕ) → letter c ≡ some i → (c == b' ') ≡ false
unfolding letter
letter_not_space c i e = ground arith

first_word-letters :
    (word args : Bytes) {is : List ℕ}
    → letters word ≡ some is
    → first_word (word ++ b' ' ∷ args) ≡ (word, args)
unfolding first_word
first_word-letters [] args e = refl
first_word-letters (c ∷ word) args e = elim (Option-cases (letter c)) [
  | inl n ↦ absurd (cc (letters_bad c word n))
  | inr (i, n) ↦ elim (Option-cases (letters word)) [
    | inl m ↦ absurd (cc (rw (m) at (letters-cons c i word n)))
    | inr (js, m) ↦ rw (letter_not_space c i n, first_word-letters word args m)
  ]
]

nonempty : (word args : Bytes) → (c : ℕ) × (rest : Bytes) × (word ++ b' ' ∷ args ≡ c ∷ rest)
nonempty [] args = (b' ', args, refl)
nonempty (c ∷ word) args = (c, word ++ b' ' ∷ args, refl)

module _ {H : Type 0} where
  registered :
      (is : List ℕ) (handler : H) (old : Option H)
      → (if is_zero (pos 0) then (if equal is is then some handler else old) else old)
        ≡ some handler
  unfolding is_zero
  registered is handler old = rw (equal_refl is)

  called_known :
      (t : CommandTree H) (word args : Bytes) (handler : H) {is : List ℕ}
      → letters word ≡ some is
      → find is t ≡ some handler
      → called t [] word args ≡ some (record { handler = handler; cmdname = word; args = args })
  unfolding called
  called_known t word args handler e found = rw (e, called) (rw found)

  -- A command is registered under a name of letters, and then a message brings the prefix, the name
  -- in any mix of cases, a space and arguments: the handler that was registered is called, with the
  -- name as typed and the arguments.
  pub modules_check_cmd-register :
      (cmds : CommandTree H) (cmdname typed args : Bytes) (handler : H) (prefix : ℕ) {is : List ℕ}
      → IsFull cmds
      → cmds ≢ null
      → letters cmdname ≡ some is
      → letters typed ≡ some is
      → (cmds' : CommandTree H) × (modules_register_cmd (λ _. true) cmds cmdname handler
          ≡ ok (cmds', pos 0))
        × (modules_check_cmd (prefix ∷ []) cmds' (prefix ∷ (typed ++ b' ' ∷ args))
            ≡ ok (some (record { handler = handler; cmdname = typed; args = args })))
  modules_check_cmd-register cmds cmdname typed args handler prefix {is} full ne named same =
      let (cmds', result, run, full', ne', finds, done) =
        modules_register_cmd-find (λ _. true) cmds cmdname handler full ne in
      let zero_result : result ≡ pos 0 = done (λ _. refl) ∙ ap register_result named in
      let (c, rest, shape) = nonempty typed args in
      let found : find is cmds' ≡ some handler =
        finds is ∙ rw (zero_result, named) (registered is handler (find is cmds)) in
      (
        cmds',
        rw zero_result at run,
        rw shape (
            modules_check_cmd-called prefix c rest cmds' full'
            ∙ rw (sym shape) (
                rw (first_word-letters typed args same)
                  (ap ok (called_known cmds' typed args handler same found)))),
      )
