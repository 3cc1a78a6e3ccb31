-- ===== src/Commands/Register.antt =====
-- `modules_register_cmd`, `modules_unregister_cmd` and `modules_cmds_clean` change the map from words
-- to handlers at the one word, or not at all.
use minervabot.Prelude.{
  ℕ, ◌≡◌, ◌≢◌, refl, sym, ap, ◌∙◌, Bool, true, false, Option, none, some, List, [], ◌∷◌, arith,
  ◌==◌, ==_iff, if◌then◌else◌, length, inl, inr, Bool-cases, Option-cases, ℤ, pos, negsuc, is_zero,
}
use minervabot.Run.{ok}
use minervabot.CString.{Bytes, equal}
use minervabot.Commands.Tree.{
  letters, letters_bad, letters-cons, letter-lt, child_or_null, find, IsFull, child-child_or_null,
  child_or_null-IsFull, Replaces, set_child-Replaces, or_new-IsFull, find-or_new, or_new-ne-null,
  is_word,
}
use minervabot.Commands.{CommandTree, null, node, Children, or_new, letter, register_from}

abbrev pub below_letter : ℕ → Option (List ℕ) → List ℕ → Bool
below_letter i word [] = false
below_letter i word (j ∷ js) = if j == i then is_word word js else false

is_word-cons :
    (i : ℕ) (word : Option (List ℕ)) (js : List ℕ)
    → is_word (elim word [ none ↦ none | some is ↦ some (i ∷ is) ]) js ≡ below_letter i word js
unfolding equal
is_word-cons i none [] = refl
is_word-cons i none (j ∷ js) = ground arith
is_word-cons i (some is) [] = refl
is_word-cons i (some is) (j ∷ js) = ground arith

pub is_word-letters :
    (c i : ℕ) (word : Bytes)
    → letter c ≡ some i
    → (js : List ℕ) → is_word (letters (c ∷ word)) js ≡ below_letter i (letters word) js
is_word-letters c i word e js = rw (letters-cons c i word e) (is_word-cons i (letters word) js)

-- the value at a word is `v` if the operation acted on that word, and else what it was
abbrev pub changed :
    {H : Type 0} → Bool → Option (List ℕ) → Option H → CommandTree H → List ℕ → Option H
changed act word v t js = if act then (if is_word word js then v else find js t) else find js t

-- The return value where no allocation fails.
abbrev pub register_result : Option (List ℕ) → ℤ
register_result none = negsuc 0
register_result (some is) = pos 0

register_result-none :
    (c : ℕ) (word : Bytes) → letter c ≡ none → register_result (letters (c ∷ word)) ≡ negsuc 0
register_result-none c word e = rw (letters_bad c word e)

register_result-cons :
    (c i : ℕ) (word : Bytes)
    → letter c ≡ some i
    → register_result (letters word) ≡ register_result (letters (c ∷ word))
register_result-cons c i word e = rw (letters-cons c i word e) (go (letters word))
  where
    go :
        (word' : Option (List ℕ))
        → register_result word'
          ≡ register_result (elim word' [ none ↦ none | some is ↦ some (i ∷ is) ])
    go none = refl
    go (some is) = refl

module _ {H : Type 0} where
  pub find_here :
      (v h : Option H) (cs : Children H) (js : List ℕ)
      → find js (node v cs) ≡ (if equal js [] then v else find js (node h cs))
  unfolding find equal
  find_here v h cs [] = refl
  find_here v h cs (j ∷ js) = refl

  pub find-cons :
      (i : ℕ) (is : List ℕ) (h : Option H) (cs : Children H)
      → find (i ∷ is) (node h cs) ≡ find is (child_or_null cs i)
  unfolding find
  find-cons i is h cs = refl

  -- a child is replaced by a tree that differs from it at one word only
  pub find_replaced :
      (h v : Option H) (cs cs' : Children H) (i c : ℕ) (t : CommandTree H) (word : Bytes)
      (act : Bool)
      → letter c ≡ some i
      → Replaces cs i t cs'
      → ((js : List ℕ) → find js t ≡ changed act (letters word) v (child_or_null cs i) js)
      → (js : List ℕ) → find js (node h cs') ≡ changed act (letters (c ∷ word)) v (node h cs) js
  unfolding find
  find_replaced h v cs cs' i c t word act e r below [] =
      rw (is_word-letters c i word e []) (ground arith)
  find_replaced h v cs cs' i c t word act e r below (j ∷ js) =
      rw (is_word-letters c i word e (j ∷ js), find-cons j js h cs', find-cons j js h cs)
        (elim (Bool-cases (j == i)) [
          | inl same ↦
              let at_i : j ≡ i = (==_iff j i).0 same in
              rw at_i (rw (r.at_self, below js) (ground arith))
          | inr ne ↦ rw (ne, r.at_other j ne) (ground arith)
        ])

  -- What a walk of `modules_register_cmd` from `t` leaves.
  pub record Registered (calloc_ok : ℕ → Bool) (handler : H) (name : Bytes) (t : CommandTree H)
      (t' : CommandTree H) (result : ℤ) : Type 0 where
    pub runs : register_from calloc_ok handler name t ≡ ok (t', result)
    pub full : IsFull t'
    pub finds :
        (js : List ℕ) → find js t' ≡ changed (is_zero result) (letters name) (some handler) t js
    pub completes :
        ((n : ℕ) → calloc_ok n ≡ true) → t ≢ null → result ≡ register_result (letters name)
    pub stays : t ≢ null → t' ≢ null

  pub register_from-Registered :
      (calloc_ok : ℕ → Bool) (handler : H) (name : Bytes) (t : CommandTree H)
      → IsFull t
      → (t' : CommandTree H) × (result : ℤ) × Registered calloc_ok handler name t t' result
  unfolding register_from
  register_from-Registered calloc_ok handler [] null f = (
    null,
    negsuc 1,
    record {
      runs = refl;
      full = f;
      finds = λ js. unfold is_zero in refl;
      completes = λ _ ne. absurd (ne refl);
      stays = λ ne. ne;
    },
  )
  register_from-Registered calloc_ok handler (c ∷ name) null f = (
    null,
    negsuc 1,
    record {
      runs = refl;
      full = f;
      finds = λ js. unfold is_zero in refl;
      completes = λ _ ne. absurd (ne refl);
      stays = λ ne. ne;
    },
  )
  register_from-Registered calloc_ok handler [] (node h cs) f = (
    node (some handler) cs,
    pos 0,
    record {
      runs = refl;
      full = f;
      finds = λ js. unfold is_zero letters in find_here (some handler) h cs js;
      completes = λ _ _. unfold letters in refl;
      stays = λ _ p. cc;
    },
  )
  register_from-Registered calloc_ok handler (c ∷ name) (node h cs) f =
      elim (Option-cases (letter c)) [
        | inl e ↦ (
          node h cs,
          negsuc 0,
          record {
            runs = rw (e, register_from);
            full = f;
            finds = λ js. unfold is_zero in refl;
            completes = λ _ _. sym (register_result-none c name e);
            stays = λ _ p. cc;
          },
        )
        | inr (i, e) ↦
            let lt = letter-lt c i e in
            let old = child_or_null cs i in
            let b = calloc_ok (length name) in
            let (t', result, g) =
              register_from-Registered calloc_ok handler name (or_new b old)
                (or_new-IsFull b old (child_or_null-IsFull cs i f.1)) in
            let (cs', r) = set_child-Replaces cs i t' (omega (arith, f.0)) in
            (
              node h cs',
              result,
              record {
                runs =
                    rw (e, register_from)
                      (rw (child-child_or_null cs i (omega (arith, f.0))) (rw g.runs (rw r.runs)));
                full = (r.size_same ∙ f.0, r.full f.1 g.full);
                finds = find_replaced h (some handler) cs cs' i c t' name (is_zero result) e r λ js.
                    g.finds js
                    ∙ ap
                        (λ o.
                          if is_zero result
                          then (if is_word (letters name) js then some handler else o)
                          else o)
                        (find-or_new b old js);
                completes = λ all ne.
                    g.completes all (or_new-ne-null b old (all (length name)))
                    ∙ register_result-cons c i name e;
                stays = λ _ p. cc;
              },
            )
      ]
