-- ===== src/Commands/Tree.antt =====
-- The map from words to handlers that a command tree stands for.
use minervabot.Prelude.{
  ℕ, zero, suc, ◌<◌, ◌≡◌, ◌≢◌, refl, ap, Bool, true, false, Option, none, some, List, [], ◌∷◌,
  arith, ◌==◌,
}
use minervabot.Run.{ok}
use minervabot.CString.{Bytes, equal}
use minervabot.Commands.{
  CommandTree, null, node, Children, nil, cons, child, set_child, nulls, new_node, or_new, letter,
}

-- the indices of the letters of a word, if it has letters only
unfoldable pub letters : Bytes → Option (List ℕ)
letters [] = some []
letters (c ∷ word) = elim (letter c) [
  | none ↦ none
  | some i ↦ elim (letters word) [ none ↦ none | some is ↦ some (i ∷ is) ]
]

pub letters_bad : (c : ℕ) (word : Bytes) → letter c ≡ none → letters (c ∷ word) ≡ none
unfolding letters
letters_bad c word e = rw (e, letters)

pub letters-cons :
    (c i : ℕ) (word : Bytes)
    → letter c ≡ some i
    → letters (c ∷ word) ≡ (elim (letters word) [ none ↦ none | some is ↦ some (i ∷ is) ])
unfolding letters
letters-cons c i word e = rw (e, letters)

pub letter-lt : (c i : ℕ) → letter c ≡ some i → i < 26
unfolding letter
letter-lt c i h = ground arith

module _ {H : Type 0} where
  -- a child of a full node; outside it there is nothing
  unfoldable pub child_or_null : Children H → ℕ → CommandTree H
  child_or_null nil i = null
  child_or_null (cons t ts) zero = t
  child_or_null (cons t ts) (suc i) = child_or_null ts i

  unfoldable pub find : List ℕ → CommandTree H → Option H
  find is null = none
  find [] (node h cs) = h
  find (i ∷ is) (node h cs) = find is (child_or_null cs i)

  abbrev pub size : Children H → ℕ
  size nil = 0
  size (cons t ts) = suc (size ts)

-- every node has its 26 children
abbrev mutual
  pub IsFull : {H : Type 0} → CommandTree H → Type 0
  IsFull null = Unit
  IsFull (node h cs) = (size cs ≡ 26) × AreFull cs

  pub AreFull : {H : Type 0} → Children H → Type 0
  AreFull nil = Unit
  AreFull (cons t ts) = IsFull t × AreFull ts

module _ {H : Type 0} where
  pub child-child_or_null :
      (cs : Children H) (i : ℕ) → i < size cs → child cs i ≡ ok (child_or_null cs i)
  unfolding child child_or_null
  child-child_or_null nil i h = absurd (omega arith)
  child-child_or_null (cons t ts) zero h = refl
  child-child_or_null (cons t ts) (suc i) h = child-child_or_null ts i (omega arith)

  pub child_or_null-IsFull : (cs : Children H) (i : ℕ) → AreFull cs → IsFull (child_or_null cs i)
  unfolding child_or_null
  child_or_null-IsFull nil i h = tt
  child_or_null-IsFull (cons t ts) zero h = h.0
  child_or_null-IsFull (cons t ts) (suc i) h = child_or_null-IsFull ts i h.1

  -- what a write of one child does
  pub record Replaces (cs : Children H) (i : ℕ) (t : CommandTree H) (cs' : Children H)
      : Type 0 where
    pub runs : set_child cs i t ≡ ok cs'
    pub size_same : size cs' ≡ size cs
    pub full : AreFull cs → IsFull t → AreFull cs'
    pub at_self : child_or_null cs' i ≡ t
    pub at_other : (j : ℕ) → (j == i) ≡ false → child_or_null cs' j ≡ child_or_null cs j

  pub set_child-Replaces :
      (cs : Children H) (i : ℕ) (t : CommandTree H)
      → i < size cs
      → (cs' : Children H) × Replaces cs i t cs'
  unfolding set_child child_or_null
  set_child-Replaces nil i t h = absurd (omega arith)
  set_child-Replaces (cons u ts) zero t h = (
    cons t ts,
    record {
      runs = refl;
      size_same = refl;
      full = λ f g. (g, f.1);
      at_self = refl;
      at_other = at_other;
    },
  )
    where
      at_other :
          (j : ℕ) → (j == 0) ≡ false → child_or_null (cons t ts) j ≡ child_or_null (cons u ts) j
      at_other zero ne = ground arith
      at_other (suc j) ne = refl
  set_child-Replaces (cons u ts) (suc i) t h =
      let (ts', r) = set_child-Replaces ts i t (omega arith) in
      (
        cons u ts',
        record {
          runs = rw r.runs;
          size_same = omega (arith, r.size_same);
          full = λ f g. (f.0, r.full f.1 g);
          at_self = r.at_self;
          at_other = at_other ts' r.at_other;
        },
      )
    where
      at_other :
          (ts' : Children H)
          → ((j : ℕ) → (j == i) ≡ false → child_or_null ts' j ≡ child_or_null ts j)
          → (j : ℕ) → (j == suc i) ≡ false
          → child_or_null (cons u ts') j ≡ child_or_null (cons u ts) j
      at_other ts' below zero ne = refl
      at_other ts' below (suc j) ne = below j (ground arith)

  pub find-null : (is : List ℕ) → find {H = H} is null ≡ none
  unfolding find
  find-null [] = refl
  find-null (i ∷ is) = refl

module _ (H : Type 0) where
  child_or_null-nulls : (n i : ℕ) → child_or_null (nulls {H = H} n) i ≡ null
  unfolding child_or_null nulls
  child_or_null-nulls zero i = refl
  child_or_null-nulls (suc n) zero = refl
  child_or_null-nulls (suc n) (suc i) = child_or_null-nulls n i

  pub nulls_full : (n : ℕ) → (size (nulls {H = H} n) ≡ n) × AreFull (nulls {H = H} n)
  unfolding nulls
  nulls_full zero = (refl, tt)
  nulls_full (suc n) = let (s, f) = nulls_full n in (ap suc s, (tt, f))

module _ {H : Type 0} where
  pub or_new-IsFull :
      (calloc_ok : Bool) (t : CommandTree H) → IsFull t → IsFull (or_new calloc_ok t)
  unfolding or_new new_node
  or_new-IsFull true null f = nulls_full H 26
  or_new-IsFull false null f = f
  or_new-IsFull b (node h cs) f = f

  -- a fresh node calls nothing, like the null pointer in its place
  pub find-or_new :
      (calloc_ok : Bool) (t : CommandTree H) (is : List ℕ)
      → find is (or_new calloc_ok t) ≡ find is t
  unfolding or_new new_node find child_or_null
  find-or_new true null [] = refl
  find-or_new true null (i ∷ is) = rw (child_or_null-nulls H 26 i) (find-null is)
  find-or_new false null is = refl
  find-or_new b (node h cs) is = refl

  pub or_new-ne-null :
      (calloc_ok : Bool) (t : CommandTree H) → calloc_ok ≡ true → or_new calloc_ok t ≢ null
  unfolding or_new new_node
  or_new-ne-null true null e = λ p. cc
  or_new-ne-null false null e = λ p. cc
  or_new-ne-null b (node h cs) e = λ p. cc

-- whether a list of letters is the given word
abbrev pub is_word : Option (List ℕ) → List ℕ → Bool
is_word none js = false
is_word (some is) js = equal js is
