-- ===== src/Commands/Dispatch.antt =====
-- What `modules_check_cmd` finds in a message.
use minervabot.Prelude.{
  ℕ, ◌≡◌, sym, ap, ◌∙◌, Option, none, some, [], ◌∷◌, ◌++◌, arith, ◌==◌, if◌then◌else◌, inl, inr,
  Bool-cases, Option-cases,
}
use mathlib.Core.List.{append-nil, append_assoc}
use minervabot.Run.{ok}
use minervabot.CString.{Bytes}
use minervabot.Commands.Tree.{
  letters, letters_bad, letters-cons, letter-lt, child_or_null, find, IsFull, child-child_or_null,
  child_or_null-IsFull, find-null,
}
use minervabot.Commands.Register.{find-cons}
use minervabot.Commands.{CommandTree, null, node, Children, letter, Call, call, check_from}

-- what stands before the first space, and what stands behind it
unfoldable pub first_word : Bytes → Bytes × Bytes
first_word [] = ([], [])
first_word (c ∷ rest) =
    let (word, args) = first_word rest in if c == b' ' then ([], rest) else (c ∷ word, args)

module _ {H : Type 0} where
  -- the handler of a word, called with the word as it was typed and the arguments
  unfoldable pub called : CommandTree H → Bytes → Bytes → Bytes → Option (Call H)
  unfolding call
  called t name word args = elim (letters word) [
    | none ↦ none
    | some is ↦ call (find is t) (name ++ word) args
  ]

  called-null : (name word args : Bytes) → called null name word args ≡ none
  unfolding called
  called-null name word args = elim (Option-cases (letters word)) [
    | inl e ↦ rw (e, called)
    | inr (is, e) ↦ rw (e, called) (rw (find-null is))
  ]

  called-none :
      (t : CommandTree H) (name word args : Bytes) (c : ℕ)
      → letter c ≡ none
      → called t name (c ∷ word) args ≡ none
  unfolding called
  called-none t name word args c e = rw (letters_bad c word e, called)

  called-cons :
      (h : Option H) (cs : Children H) (name word args : Bytes) (c i : ℕ)
      → letter c ≡ some i
      → called (node h cs) name (c ∷ word) args
        ≡ called (child_or_null cs i) (name ++ c ∷ []) word args
  unfolding called
  called-cons h cs name word args c i e = elim (Option-cases (letters word)) [
    | inl n ↦ rw (letters-cons c i word e, called) (rw (n, called))
    | inr (is, n) ↦
        rw (letters-cons c i word e, called)
          (rw (n, called) (rw (find-cons i is h cs, append_assoc)))
  ]

  called_here :
      (h : Option H) (cs : Children H) (name args : Bytes)
      → call h name args ≡ called (node h cs) name [] args
  unfolding called letters find
  called_here h cs name args = rw append-nil

  pub check_from-called :
      (name message : Bytes) (t : CommandTree H)
      → IsFull t
      → check_from name message t ≡ ok (called t name (first_word message).0 (first_word message).1)
  unfolding check_from first_word
  check_from-called name [] null f = rw called-null
  check_from-called name (c ∷ message) null f = rw called-null
  check_from-called name [] (node h cs) f = ap ok (called_here h cs name [])
  check_from-called name (c ∷ message) (node h cs) f = elim (Bool-cases (c == b' ')) [
    | inl sp ↦ rw sp (ap ok (called_here h cs name message))
    | inr ns ↦ rw ns (elim (Option-cases (letter c)) [
      | inl e ↦ rw e (
          ap ok
            (sym (called-none (node h cs) name (first_word message).0 (first_word message).1 c e)))
      | inr (i, e) ↦ rw e (
          rw (child-child_or_null cs i (omega (arith, f.0, letter-lt c i e))) (
            check_from-called (name ++ c ∷ []) message (child_or_null cs i)
              (child_or_null-IsFull cs i f.1)
            ∙ ap ok
                (sym (called-cons h cs name (first_word message).0 (first_word message).1 c i e))))
    ])
  ]
