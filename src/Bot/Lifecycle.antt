-- ===== src/Bot/Lifecycle.antt =====
-- The commands of a module, from `module_init` to `module_cleanup`.
use minervabot.Prelude.{
  ℕ, suc, ◌≡◌, refl, ap, ◌∙◌, Bool, true, false, ◌||◌, Option, none, some, List, [], ◌∷◌,
  if◌then◌else◌, ℤ, pos, ◌+ℤ◌, is_zero, Bool-cases, inl, inr, ◌⊎◌,
}
use minervabot.Run.{ok, ◌>>=◌}
use minervabot.CString.{Bytes}
use minervabot.Commands.{CommandTree, modules_register_cmd}
use minervabot.Commands.Tree.{letters, find, IsFull, is_word}
use minervabot.Commands.Register.{changed, register_from-Registered}
use minervabot.Commands.Unregister.{modules_unregister_cmd-Dropped}
use minervabot.Bot.Setup.{register_all, unregister_all}

-- some name of the list is the word, in either case
abbrev pub named : List Bytes → List ℕ → Bool
named [] js = false
named (name ∷ names) js = is_word (letters name) js || named names js

-- the names of a list of commands
abbrev pub names_of : {H : Type 0} → List (Bytes × H) → List Bytes
names_of [] = []
names_of ((cmdname, handler) ∷ commands) = cmdname ∷ names_of commands

module _ {H : Type 0} where
  unregister_all-find :
      (names : List Bytes) (t : CommandTree H)
      → IsFull t
      → (t' : CommandTree H) × (unregister_all t names ≡ ok t')
        × IsFull t'
        × ((js : List ℕ) → find js t' ≡ (if named names js then none else find js t))
  unfolding unregister_all
  unregister_all-find [] t full = (t, refl, full, λ js. refl)
  unregister_all-find (name ∷ names) t full =
      let (t₁, result, run₁, full₁, drop₁) = modules_unregister_cmd-Dropped t name full in
      let (t₂, run₂, full₂, drop₂) = unregister_all-find names t₁ full₁ in
      (
        t₂,
        rw (run₁, ◌>>=◌) run₂,
        full₂,
        λ js.
            drop₂ js
            ∙ ap (λ o. if named names js then none else o) (drop₁ js)
            ∙ either (is_word (letters name) js) (named names js) (find js t),
      )
    where
      either :
          (a b : Bool) (o : Option H)
          → (if b then none else (if a then none else o)) ≡ (if a || b then none else o)
      either true true o = refl
      either true false o = refl
      either false true o = refl
      either false false o = refl

  register_all-find :
      (commands : List (Bytes × H)) (calloc_ok : ℕ → ℕ → Bool) (t : CommandTree H)
      → IsFull t
      → (t' : CommandTree H) × (result : ℤ) × (register_all calloc_ok t commands ≡ ok (t', result))
        × IsFull t'
        × ((js : List ℕ) → named (names_of commands) js ≡ false → find js t' ≡ find js t)
  unfolding register_all modules_register_cmd
  register_all-find [] calloc_ok t full = (t, pos 0, refl, full, λ js no. refl)
  register_all-find ((cmdname, handler) ∷ commands) calloc_ok t full =
      let (t₁, r₁, reg) = register_from-Registered (calloc_ok 0) handler cmdname t full in
      let (t₂, r₂, run₂, full₂, same₂) =
        register_all-find commands (λ n. calloc_ok (suc n)) t₁ reg.full in
      (
        t₂,
        r₁ +ℤ r₂,
        rw (reg.runs, ◌>>=◌) (rw (run₂, ◌>>=◌) refl),
        full₂,
        λ js no.
            same₂ js (right (is_word (letters cmdname) js) (named (names_of commands) js) no)
            ∙ reg.finds js
            ∙ kept t t₁ r₁ js
                (left (is_word (letters cmdname) js) (named (names_of commands) js) no)
                (is_zero r₁),
      )
    where
      left : (a b : Bool) → (a || b) ≡ false → a ≡ false
      left true b e = e
      left false b e = refl

      right : (a b : Bool) → (a || b) ≡ false → b ≡ false
      right true b e = absurd (cc e)
      right false b e = e

      kept :
          (t t₁ : CommandTree H) (r : ℤ) (js : List ℕ)
          → is_word (letters cmdname) js ≡ false
          → (act : Bool) → changed act (letters cmdname) (some handler) t js ≡ find js t
      kept t t₁ r js w true = rw w
      kept t t₁ r js w false = refl

  -- A module registers its commands and later unregisters the same names: whatever allocations fail,
  -- both return in a tree whose nodes have all their children, and leave such a tree, where the words
  -- of the names, in either case, call nothing, and every other word calls what it did at first.
  pub unregister_all-register_all :
      (commands : List (Bytes × H)) (calloc_ok : ℕ → ℕ → Bool) (cmds : CommandTree H)
      → IsFull cmds
      → (loaded unloaded : CommandTree H) × (result : ℤ) × (register_all calloc_ok cmds commands
          ≡ ok (loaded, result))
        × (unregister_all loaded (names_of commands) ≡ ok unloaded)
        × IsFull unloaded
        × ((js : List ℕ)
            → find js unloaded ≡ (if named (names_of commands) js then none else find js cmds))
  unregister_all-register_all commands calloc_ok cmds full =
      let (loaded, result, run, full₁, same) = register_all-find commands calloc_ok cmds full in
      let (unloaded, run₂, full₂, drop) = unregister_all-find (names_of commands) loaded full₁ in
      (
        loaded,
        unloaded,
        result,
        run,
        run₂,
        full₂,
        λ js. drop js ∙ other js loaded same (Bool-cases (named (names_of commands) js)),
      )
    where
      other :
          (js : List ℕ) (loaded : CommandTree H)
          → ((js : List ℕ) → named (names_of commands) js ≡ false → find js loaded ≡ find js cmds)
          → (named (names_of commands) js ≡ true) ⊎ (named (names_of commands) js ≡ false)
          → (if named (names_of commands) js then none else find js loaded)
            ≡ (if named (names_of commands) js then none else find js cmds)
      other js loaded same (inl y) = rw y
      other js loaded same (inr n) = rw n (same js n)
