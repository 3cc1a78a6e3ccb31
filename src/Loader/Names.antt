-- ===== src/Loader/Names.antt =====
-- The files that `modules_rescanall` loads, by their names.
use minervabot.Prelude.{
  ℕ, ◌≡◌, refl, ap, ◌∙◌, true, false, none, some, [], ◌∷◌, ◌++◌, arith, ◌==◌, ==_iff, inl, inr, ◌↔◌,
  Bool-cases, Option-cases,
}
use minervabot.CString.{Bytes, codes, starts_with}
use minervabot.Irc.Sender.{Lacks}
use minervabot.Loader.Scan.{behind_last_dot, is_module_file}

behind_last_dot-Lacks : (name : Bytes) → behind_last_dot name ≡ none → Lacks b'.' name
unfolding behind_last_dot
behind_last_dot-Lacks [] e = tt
behind_last_dot-Lacks (c ∷ name) e = elim (Option-cases (behind_last_dot name)) [
  | inr (rest, f) ↦ absurd (cc (rw f at e))
  | inl f ↦ elim (Bool-cases (c == b'.')) [
    | inl dot ↦ absurd (cc (rw (f, dot) at e))
    | inr other ↦ (other, behind_last_dot-Lacks name f)
  ]
]

behind_last_dot-some :
    (name rest : Bytes)
    → behind_last_dot name ≡ some rest
    → (stem : Bytes) × (name ≡ stem ++ b'.' ∷ rest) × Lacks b'.' rest
unfolding behind_last_dot
behind_last_dot-some [] rest e = absurd (cc e)
behind_last_dot-some (c ∷ name) rest e = elim (Option-cases (behind_last_dot name)) [
  | inr (rest', f) ↦
      let (stem, shape, lacks) = behind_last_dot-some name rest' f in
      let same : rest' ≡ rest = ground (arith, rw f at e) in
      (c ∷ stem, ap (λ l. c ∷ l) (shape ∙ ap (λ r. stem ++ b'.' ∷ r) same), rw same at lacks)
  | inl f ↦ elim (Bool-cases (c == b'.')) [
    | inl dot ↦
        let same : name ≡ rest = ground (arith, rw (f, dot) at e) in
        ([], rw ((==_iff c b'.').0 dot, same) refl, rw same at (behind_last_dot-Lacks name f))
    | inr other ↦ absurd (cc (rw (f, other) at e))
  ]
]

Lacks-behind_last_dot : (name : Bytes) → Lacks b'.' name → behind_last_dot name ≡ none
unfolding behind_last_dot
Lacks-behind_last_dot [] l = refl
Lacks-behind_last_dot (c ∷ name) (other, l) = rw (Lacks-behind_last_dot name l) (rw other refl)

behind_last_dot-append :
    (stem rest : Bytes) → Lacks b'.' rest → behind_last_dot (stem ++ b'.' ∷ rest) ≡ some rest
unfolding behind_last_dot
behind_last_dot-append [] rest l = rw (Lacks-behind_last_dot rest l) refl
behind_last_dot-append (c ∷ stem) rest l = rw (behind_last_dot-append stem rest l)

starts_with-so :
    (rest : Bytes)
    → starts_with rest (codes "so") ≡ true
    → (ext : Bytes) × (rest ≡ codes "so" ++ ext)
unfolding starts_with
starts_with-so [] e = absurd (cc e)
starts_with-so (x ∷ []) e = absurd (ground (arith, e))
starts_with-so (x ∷ y ∷ ext) e = (ext, ground (arith, e))

nonempty_stem :
    (c : ℕ) (name stem rest : Bytes)
    → (c == b'.') ≡ false
    → c ∷ name ≡ stem ++ b'.' ∷ rest
    → (stem' : Bytes) × (name ≡ stem' ++ b'.' ∷ rest)
nonempty_stem c name [] rest other shape = absurd (ground (arith, other, shape))
nonempty_stem c name (d ∷ stem) rest other shape = (stem, cc shape)

-- a name that begins with another character than a full stop, with `so` right behind its last one
abbrev pub IsModuleName : Bytes → Type 0
IsModuleName name =
    (c : ℕ) × (stem ext : Bytes) × ((c == b'.') ≡ false)
    × (name ≡ c ∷ (stem ++ (codes ".so" ++ ext)))
    × Lacks b'.' ext

module_name :
    (c : ℕ) (stem ext : Bytes)
    → (c == b'.') ≡ false
    → Lacks b'.' ext
    → is_module_file (c ∷ (stem ++ (codes ".so" ++ ext))) ≡ true
unfolding is_module_file starts_with
module_name c stem ext other lacks =
    rw (other, behind_last_dot-append (c ∷ stem) (codes "so" ++ ext) (refl, (refl, lacks))) refl

-- `modules_rescanall` loads exactly the files whose name does not begin with a full stop and has the letters
-- `so` right behind its last one, whatever else stands behind them.
pub is_module_file_iff : (name : Bytes) → (is_module_file name ≡ true) ↔ IsModuleName name
unfolding is_module_file
is_module_file_iff [] =
    (λ e. absurd (cc e), λ (c, stem, ext, other, shape, lacks). absurd (cc shape))
is_module_file_iff (c ∷ name) = (there, back)
  where
    there : is_module_file (c ∷ name) ≡ true → IsModuleName (c ∷ name)
    there e = elim (Bool-cases (c == b'.')) [
      | inl dot ↦ absurd (cc (rw (dot, is_module_file) at e))
      | inr other ↦ elim (Option-cases (behind_last_dot (c ∷ name))) [
        | inl f ↦ absurd (cc (rw (other, f, is_module_file) at e))
        | inr (rest, f) ↦
            let (ext, so) = starts_with-so rest (rw (other, f, is_module_file) at e) in
            let (stem, shape, lacks) = behind_last_dot-some (c ∷ name) rest f in
            let (stem', shape') = nonempty_stem c name stem rest other shape in
            (
              c,
              stem',
              ext,
              other,
              ap (λ n. c ∷ n) (shape' ∙ ap (λ r. stem' ++ b'.' ∷ r) so),
              (rw so at lacks).1.1,
            )
      ]
    ]

    back : IsModuleName (c ∷ name) → is_module_file (c ∷ name) ≡ true
    back (d, stem, ext, other, shape, lacks) =
        ap is_module_file shape ∙ module_name d stem ext other lacks
