-- ===== src/Hashmap/Removal.antt =====
-- Removing a pair from a bucket, by a copy of the slots behind it.
use minervabot.Prelude.{
  ℕ, suc, ◌+◌, ◌-◌, ◌<◌, ◌≡◌, refl, ap, sym, subst, true, ltb, ◌∙◌, none, some, List, [], ◌∷◌, ◌++◌,
  arith, length, take, drop, ◌≢◌, ◌⊎◌, inl, inr, Bool-cases, length-append, ℤ,
}
use minervabot.Run.{ok, fault}
use minervabot.CString.{Bytes, equal, copy}
use mathlib.Core.List.{append-nil, append_assoc}
use minervabot.Hashmap.Assoc.{Pairs, lookup, erase, or_zero, AtEnd, AtEnd-cons, AtEnd-first}
use minervabot.Hashmap.Bucket.{slot, slots, length-slots, slots-append, Holds, position, scan-Holds}
use minervabot.Hashmap.{HashmapEntryList, Slot, read_slots, close_gap, remove_found, remove_entry}

-- The first pair under `q` stands behind `pre`.
record Split (q : Bytes) (es : Pairs) (i : ℕ) : Type 0 where
  pre : Pairs
  pair : Bytes × ℤ
  post : Pairs
  whole : es ≡ pre ++ pair ∷ post
  found : position q es i ≡ some (i + length pre, record { key = some pair.0; value = pair.1 })
  looked : lookup q es ≡ some pair.1
  erased : erase q es ≡ pre ++ post
  last : (post ≡ [] → AtEnd q es) × (AtEnd q es → post ≡ [])

abbrev Absent : Bytes → Pairs → ℕ → Type 0
Absent q es i = (position q es i ≡ none) × (lookup q es ≡ none) × (erase q es ≡ es) × AtEnd q es

Split-cases : (q : Bytes) (es : Pairs) (i : ℕ) → Absent q es i ⊎ Split q es i
unfolding lookup erase
Split-cases q [] i = inl (refl, refl, refl, tt)
Split-cases q ((k, v) ∷ es) i = elim (Bool-cases (equal q k)) [
  | inl e ↦ inr (record {
    pre = [];
    pair = (k, v);
    post = es;
    whole = refl;
    found = rw e (ap (λ (n : ℕ). some (n, record { key = some k; value = v })) (omega arith));
    looked = rw e;
    erased = rw e;
    last = AtEnd-first q k v es e;
  })
  | inr e ↦ elim (Split-cases q es (i + 1)) [
    | inl (a, b, c, d) ↦ inl (rw (e, a), rw (e, b), rw (e, c), (AtEnd-cons q k v es e).0 d)
    | inr s ↦ inr (record {
      pre = (k, v) ∷ s.pre;
      pair = s.pair;
      post = s.post;
      whole = rw s.whole;
      found = rw e (
          s.found
          ∙ ap (λ (n : ℕ). some (n, record { key = some s.pair.0; value = s.pair.1 }))
              (omega arith));
      looked = rw e s.looked;
      erased = rw (e, s.erased);
      last = (
        λ none_behind. (AtEnd-cons q k v es e).0 (s.last.0 none_behind),
        λ at_end. s.last.1 ((AtEnd-cons q k v es e).1 at_end),
      );
    })
  ]
]

module _ {ℓ} {A : Type ℓ} where
  take-append : (xs ys : List A) → take (length xs) (xs ++ ys) ≡ xs
  take-append [] ys = refl
  take-append (x ∷ xs) ys = ap (◌∷◌ x) (take-append xs ys)

  drop-append : (xs ys : List A) → drop (length xs) (xs ++ ys) ≡ ys
  drop-append [] ys = refl
  drop-append (x ∷ xs) ys = drop-append xs ys

  drop-append_suc : (xs ys : List A) (x : A) → drop (length xs + 1) (xs ++ x ∷ ys) ≡ ys
  drop-append_suc [] ys x = refl
  drop-append_suc (y ∷ xs) ys x =
      let e : suc (length xs) + 1 ≡ suc (length xs + 1) = omega arith in
      rw e (drop-append_suc xs ys x)

read_slots-append :
    (xs : List Slot) (y : Slot) (rest : List Slot)
    → read_slots (xs ++ y ∷ rest) (suc (length xs)) ≡ ok (xs ++ y ∷ [])
unfolding read_slots
read_slots-append [] y rest = refl
read_slots-append (x ∷ xs) y rest = rw (read_slots-append xs y rest)

close_gap-slots :
    (pre : List Slot) (x y : Slot) (rest : List Slot)
    → close_gap (pre ++ x ∷ y ∷ rest) (length pre) 1 ≡ ok (pre ++ y ∷ y ∷ rest)
unfolding close_gap read_slots copy
close_gap-slots pre x y rest =
    rw (drop-append_suc pre (y ∷ rest) x, drop-append pre _) (rw (take-append pre (x ∷ y ∷ rest)))

-- two slots or more are copied onto slots that they overlap
close_gap-overlap :
    (pre xs : List Slot) (x z y : Slot) (rest : List Slot)
    → close_gap (pre ++ x ∷ (z ∷ xs ++ y ∷ rest)) (length pre) (suc (suc (length xs))) ≡ fault
unfolding close_gap
close_gap-overlap pre xs x z y rest =
    let many : ltb 1 (suc (suc (length xs))) ≡ true = ground arith in
    rw (drop-append_suc pre (z ∷ xs ++ y ∷ rest) x, read_slots-append (z ∷ xs) y rest, many) refl

spare_slot :
    (spare : List Slot) → 0 < length spare → (y : Slot) × (rest : List Slot) × (spare ≡ y ∷ rest)
spare_slot [] h = absurd (omega arith)
spare_slot (y ∷ rest) h = (y, rest, refl)

remove_last :
    {hel : HashmapEntryList} (pre : Pairs) (pair : Bytes × ℤ) (y : Slot) (rest : List Slot)
    → hel.values ≡ slots (pre ++ pair ∷ []) ++ y ∷ rest
    → hel.vlen ≡ length (pre ++ pair ∷ [])
    → hel.vroom ≡ length (pre ++ pair ∷ []) + suc (length rest)
    → (hel' : HashmapEntryList) × (remove_found hel
          (some (0 + length pre, record { key = some pair.0; value = pair.1 }))
        ≡ ok (hel', pair.1))
      × Holds hel' (pre ++ [])
unfolding remove_found
remove_last {hel} pre pair y rest p q r = (
  record hel { values = slots pre ++ y ∷ y ∷ rest; vlen = hel.vlen - 1 },
  rw (at_zero, layout, moved) (rw (close_gap-slots (slots pre) (slot pair) y rest)),
  record {
    spare = y ∷ y ∷ rest;
    values = simp append-nil;
    vlen = omega (arith, q, length-append pre (pair ∷ []), length-append pre []);
    vroom = omega (arith, r, length-append pre (pair ∷ []), length-append pre []);
  },
)
  where
    at_zero : 0 + length pre ≡ length (slots pre)
    at_zero = omega (arith, length-slots pre)

    layout : hel.values ≡ slots pre ++ slot pair ∷ y ∷ rest
    layout = rw p (simp (slots-append, append_assoc))

    moved : hel.vlen - length (slots pre) ≡ 1
    moved = omega (arith, q, length-slots pre, length-append pre (pair ∷ []))

-- The bucket has a slot to spare and the pair under the key, if there is one, is its last: it goes and its
-- value is returned, or 0 if there is none.
pub remove_entry-Holds :
    {hel : HashmapEntryList} {es : Pairs} (k : Bytes)
    → Holds hel es
    → hel.vlen < hel.vroom
    → AtEnd k es
    → (hel' : HashmapEntryList) × (remove_entry hel k ≡ ok (hel', or_zero (lookup k es)))
      × Holds hel' (erase k es)
unfolding remove_entry
remove_entry-Holds {hel} {es} k h room at_end = rw (scan-Holds h k) (elim (Split-cases k es 0) [
  | inl (a, b, c, d) ↦ (hel, rw (a, b) (unfold remove_found in refl), rw c h)
  | inr s ↦
      let (y, rest, e) = spare_slot h.spare (omega (arith, h.vlen, h.vroom)) in
      let whole : es ≡ s.pre ++ s.pair ∷ [] =
        s.whole ∙ ap (λ post. s.pre ++ s.pair ∷ post) (s.last.1 at_end) in
      let (hel', run, held) =
        remove_last s.pre s.pair y rest
          (h.values
            ∙ ap (λ l. slots l ++ h.spare) whole
            ∙ ap (λ l. slots (s.pre ++ s.pair ∷ []) ++ l) e)
          (h.vlen ∙ ap length whole)
          (h.vroom
            ∙ ap (λ l. length l + length h.spare) whole
            ∙ ap (λ l. length (s.pre ++ s.pair ∷ []) + length l) e) in
      (
        hel',
        rw (s.found, s.looked) run,
        rw s.erased (subst (λ post. Holds hel' (s.pre ++ post)) (sym (s.last.1 at_end)) held),
      )
])

-- Where another pair stands behind the first one under the key, removing it is undefined.
pub remove_entry-overlap :
    {hel : HashmapEntryList} {es : Pairs} (k : Bytes)
    → Holds hel es
    → hel.vlen < hel.vroom
    → (AtEnd k es → ⊥)
    → remove_entry hel k ≡ fault
unfolding remove_entry remove_found
remove_entry-overlap {hel} {es} k h room not_last = rw (scan-Holds h k) (elim (Split-cases k es 0) [
  | inl (a, b, c, d) ↦ absurd (not_last d)
  | inr s ↦
      let (y, rest, e) = spare_slot h.spare (omega (arith, h.vlen, h.vroom)) in
      rw (s.found) (shifted s s.post refl y rest e)
])
  where
    shifted :
        (s : Split k es 0) (post : Pairs)
        → s.post ≡ post
        → (y : Slot) (rest : List Slot) → h.spare ≡ y ∷ rest
        → remove_found hel
            (some (0 + length s.pre, record { key = some s.pair.0; value = s.pair.1 }))
          ≡ fault
    shifted s [] behind y rest spare = absurd (not_last (s.last.0 behind))
    shifted s (e ∷ post) behind y rest spare =
        let whole : es ≡ s.pre ++ s.pair ∷ e ∷ post =
          s.whole ∙ ap (λ l. s.pre ++ s.pair ∷ l) behind in
        let values : hel.values ≡ slots s.pre ++ slot s.pair ∷ (slot e ∷ slots post ++ y ∷ rest) =
          h.values
          ∙ ap (λ l. slots l ++ h.spare) whole
          ∙ ap (λ l. slots (s.pre ++ s.pair ∷ e ∷ post) ++ l) spare
          ∙ simp (slots-append, append_assoc) in
        let at_zero : 0 + length s.pre ≡ length (slots s.pre) = omega (arith, length-slots s.pre) in
        let moved : hel.vlen - length (slots s.pre) ≡ suc (suc (length (slots post))) = omega (
          arith,
          h.vlen,
          ap length whole,
          length-slots s.pre,
          length-slots post,
          length-append s.pre (s.pair ∷ e ∷ post),
        ) in
        rw (at_zero, values, moved)
          (rw (close_gap-overlap (slots s.pre) (slots post) (slot s.pair) (slot e) y rest) refl)

read_slots-overrun : (xs : List Slot) → read_slots xs (suc (length xs)) ≡ fault
unfolding read_slots
read_slots-overrun [] = refl
read_slots-overrun (x ∷ xs) = rw (read_slots-overrun xs)

no_spare : (spare : List Slot) → length spare ≡ 0 → spare ≡ []
no_spare [] h = refl
no_spare (y ∷ rest) h = absurd (omega arith)

-- In a bucket with no slot to spare, removing a key that is there reads one slot behind the array.
pub remove_entry-fault :
    {hel : HashmapEntryList} {es : Pairs} (k : Bytes)
    → Holds hel es
    → hel.vlen ≡ hel.vroom
    → lookup k es ≢ none
    → remove_entry hel k ≡ fault
unfolding remove_entry remove_found close_gap
remove_entry-fault {hel} {es} k h full present = rw (scan-Holds h k) (elim (Split-cases k es 0) [
  | inl (a, b, c, d) ↦ absurd (present b)
  | inr s ↦ rw (s.found) (overrun s)
])
  where
    overrun :
        (s : Split k es 0)
        → remove_found hel
            (some (0 + length s.pre, record { key = some s.pair.0; value = s.pair.1 }))
          ≡ fault
    overrun s =
        let values : hel.values ≡ slots s.pre ++ slot s.pair ∷ slots s.post =
          h.values
          ∙ ap (λ l. slots es ++ l) (no_spare h.spare (omega (arith, h.vlen, h.vroom)))
          ∙ append-nil (slots es)
          ∙ ap slots s.whole
          ∙ slots-append s.pre (s.pair ∷ s.post) in
        let at_zero : 0 + length s.pre ≡ length (slots s.pre) = omega (arith, length-slots s.pre) in
        let moved : hel.vlen - length (slots s.pre) ≡ suc (length (slots s.post)) = omega (
          arith,
          h.vlen,
          ap length s.whole,
          length-slots s.pre,
          length-slots s.post,
          length-append s.pre (s.pair ∷ s.post),
        ) in
        rw (at_zero, values, moved)
          (rw (drop-append_suc (slots s.pre) (slots s.post) (slot s.pair))
            (rw (read_slots-overrun (slots s.post))))
