-- ===== src/Commands/Unregister.antt =====
-- `modules_unregister_cmd` and `modules_cmds_clean`.
use minervabot.Prelude.{
  ℕ, zero, suc, ◌≡◌, refl, ap, ◌∙◌, true, Option, none, some, List, [], ◌∷◌, arith, ◌==◌, ==_iff,
  if◌then◌else◌, inl, inr, Bool-cases, Option-cases, ◌⊎◌, false, ℤ, pos, negsuc, is_zero,
}
use minervabot.Run.{ok}
use minervabot.CString.{Bytes, equal}
use minervabot.Commands.Register.{changed, is_word-letters, find_replaced, find_here, find-cons}
use minervabot.Commands.Tree.{
  letters, letters_bad, letter-lt, child_or_null, find, IsFull, child-child_or_null,
  child_or_null-IsFull, set_child-Replaces, find-null, is_word,
}
use minervabot.Commands.{
  modules_unregister_cmd, CommandTree, null, node, Children, nil, cons, letter, unregister_from,
  clean_children, modules_cmds_clean,
}

module _ {H : Type 0} where
  -- What a walk of `modules_unregister_cmd` from `t` leaves; if it fails, nothing was registered.
  pub record Unregistered (name : Bytes) (t t' : CommandTree H) (result : ℤ) : Type 0 where
    pub runs : unregister_from name t ≡ ok (t', result)
    pub full : IsFull t'
    pub finds : (js : List ℕ) → find js t' ≡ changed (is_zero result) (letters name) none t js
    pub absent :
        is_zero result ≡ false → (js : List ℕ) → is_word (letters name) js ≡ true → find js t ≡ none

  absent-letters :
      (c i : ℕ) (name : Bytes) (h : Option H) (cs : Children H)
      → letter c ≡ some i
      → ((js : List ℕ) → is_word (letters name) js ≡ true → find js (child_or_null cs i) ≡ none)
      → (js : List ℕ) → is_word (letters (c ∷ name)) js ≡ true
      → find js (node h cs) ≡ none
  absent-letters c i name h cs e below [] w = cc (is_word-letters c i name e [])
  absent-letters c i name h cs e below (j ∷ js) w = elim (Bool-cases (j == i)) [
    | inl same ↦
        let at_i : j ≡ i = (==_iff j i).0 same in
        let w' : is_word (letters name) js ≡ true =
          ground (arith, is_word-letters c i name e (j ∷ js)) in
        find-cons j js h cs ∙ rw at_i (below js w')
    | inr ne ↦ absurd (cc (rw ne at (is_word-letters c i name e (j ∷ js))))
  ]

  -- In a tree whose nodes have all their children, the walk of `modules_unregister_cmd` returns and
  -- leaves such a tree. If it returns 0, the word of `cmdname` calls no handler and all other words
  -- call what they did; if not, every word calls what it did, and that word called nothing.
  pub unregister_from-Unregistered :
      (name : Bytes) (t : CommandTree H)
      → IsFull t
      → (t' : CommandTree H) × (result : ℤ) × Unregistered name t t' result
  unfolding unregister_from
  unregister_from-Unregistered [] null f = (
    null,
    negsuc 2,
    record {
      runs = refl;
      full = f;
      finds = λ js. unfold is_zero in refl;
      absent = λ _ js _. find-null js;
    },
  )
  unregister_from-Unregistered (c ∷ name) null f = (
    null,
    negsuc 2,
    record {
      runs = refl;
      full = f;
      finds = λ js. unfold is_zero in refl;
      absent = λ _ js _. find-null js;
    },
  )
  unregister_from-Unregistered [] (node h cs) f = (
    node none cs,
    pos 0,
    record {
      runs = refl;
      full = f;
      finds = λ js. unfold is_zero letters in find_here none h cs js;
      absent = λ p. absurd (unfold is_zero in cc p);
    },
  )
  unregister_from-Unregistered (c ∷ name) (node h cs) f = elim (Option-cases (letter c)) [
    | inl e ↦ (
      node h cs,
      negsuc 0,
      record {
        runs = rw (e, unregister_from);
        full = f;
        finds = λ js. unfold is_zero in refl;
        absent = λ _ js w. absurd (cc (rw (letters_bad c name e) at w));
      },
    )
    | inr (i, e) ↦
        let lt = letter-lt c i e in
        let (t', result, g) =
          unregister_from-Unregistered name (child_or_null cs i) (child_or_null-IsFull cs i f.1) in
        let (cs', r) = set_child-Replaces cs i t' (omega (arith, f.0)) in
        (
          node h cs',
          result,
          record {
            runs =
                rw (e, unregister_from)
                  (rw (child-child_or_null cs i (omega (arith, f.0))) (rw g.runs (rw r.runs)));
            full = (r.size_same ∙ f.0, r.full f.1 g.full);
            finds = find_replaced h none cs cs' i c t' name (is_zero result) e r g.finds;
            absent = λ p. absent-letters c i name h cs e (g.absent p);
          },
        )
  ]

  find_cleaned : (cs : Children H) (i : ℕ) → child_or_null (clean_children cs) i ≡ null
  unfolding child_or_null clean_children
  find_cleaned nil i = refl
  find_cleaned (cons t cs) zero = refl
  find_cleaned (cons t cs) (suc i) = find_cleaned cs i

  -- After `modules_cmds_clean` no word of one letter or more calls a handler; a handler that was
  -- registered under the empty word stays.
  pub find-modules_cmds_clean :
      (t : CommandTree H) (js : List ℕ)
      → find js (modules_cmds_clean t) ≡ (if equal js [] then find js t else none)
  unfolding modules_cmds_clean
  find-modules_cmds_clean null [] = unfold equal in refl
  find-modules_cmds_clean null (j ∷ js) = unfold equal in find-null (j ∷ js)
  find-modules_cmds_clean (node h cs) [] = unfold equal find in refl
  find-modules_cmds_clean (node h cs) (j ∷ js) =
      find-cons j js h (clean_children cs)
      ∙ ap (find js) (find_cleaned cs j)
      ∙ find-null js
      ∙ (unfold equal in refl)

  -- the word of the name calls nothing, every other word what it did
  abbrev pub Dropped : Bytes → CommandTree H → CommandTree H → Type 0
  Dropped name t t' =
      (js : List ℕ) → find js t' ≡ (if is_word (letters name) js then none else find js t)

  pub modules_unregister_cmd-Dropped :
      (t : CommandTree H) (name : Bytes)
      → IsFull t
      → (t' : CommandTree H) × (result : ℤ) × (modules_unregister_cmd t name ≡ ok (t', result))
        × IsFull t'
        × Dropped name t t'
  unfolding modules_unregister_cmd
  modules_unregister_cmd-Dropped t name full =
      let (t', result, u) = unregister_from-Unregistered name t full in
      (
        t',
        result,
        u.runs,
        u.full,
        λ js.
            go t' result u js (Bool-cases (is_zero result))
              (Bool-cases (is_word (letters name) js)),
      )
    where
      go :
          (t' : CommandTree H) (result : ℤ)
          → Unregistered name t t' result
          → (js : List ℕ) → (is_zero result ≡ true) ⊎ (is_zero result ≡ false)
          → (is_word (letters name) js ≡ true) ⊎ (is_word (letters name) js ≡ false)
          → find js t' ≡ (if is_word (letters name) js then none else find js t)
      go t' result u js (inl z) w = u.finds js ∙ rw z
      go t' result u js (inr z) (inl w) = u.finds js ∙ rw (z, w) (u.absent z js w)
      go t' result u js (inr z) (inr w) = u.finds js ∙ rw (z, w)
