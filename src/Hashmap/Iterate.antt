-- ===== src/Hashmap/Iterate.antt =====
-- `hashmap_iterate` and `hashmap_empty`, which go through all the buckets in order.
use minervabot.Prelude.{
  ℕ, zero, suc, ◌+◌, ◌<◌, ◌≡◌, refl, sym, subst, Bool, true, false, some, List, [], ◌∷◌, ◌++◌,
  arith, length, get_elem?, replicate, length-replicate, ℤ,
}
use mathlib.Core.Option.{some-injective}
use minervabot.Run.{ok}
use minervabot.CString.{Bytes}
use minervabot.Hashmap.Assoc.{Pairs}
use minervabot.Hashmap.Bucket.{Holds, slots, empty-Holds}
use minervabot.Hashmap.Refine.{Models, get_elem?-replicate}
use minervabot.Hashmap.{
  Slot, HashmapEntryList, Hashmap, empty_list, iterate_list, iterate_buckets, hashmap_iterate,
  free_keys, empty_buckets, hashmap_empty,
}

-- the pairs of the buckets `i`, `i + 1`, …, `n` of them
abbrev pub pairs_from : (ℕ → Pairs) → ℕ → ℕ → Pairs
pairs_from pairs zero i = []
pairs_from pairs (suc n) i = pairs i ++ pairs_from pairs n (i + 1)

abbrev HoldAll : List HashmapEntryList → (ℕ → Pairs) → ℕ → ℕ → Type 0
HoldAll hels pairs zero i = Unit
HoldAll [] pairs (suc n) i = ⊥
HoldAll (hel ∷ hels) pairs (suc n) i = Holds hel (pairs i) × HoldAll hels pairs n (i + 1)

-- the state invariant, bucket by bucket from the front
HoldAll-Models :
    (hels : List HashmapEntryList) (pairs : ℕ → Pairs) (n i : ℕ)
    → length hels ≡ n
    → ((j : ℕ)
        → j < n
        → (hel : HashmapEntryList) × (get_elem? hels j ≡ some hel) × Holds hel (pairs (i + j)))
    → HoldAll hels pairs n i
HoldAll-Models hels pairs zero i e h = tt
HoldAll-Models [] pairs (suc n) i e h = absurd (omega arith)
HoldAll-Models (hel ∷ hels) pairs (suc n) i e h =
    let (hel', at_zero, held) = h 0 (omega arith) in
    let same : hel' ≡ hel = sym (some-injective _ _ at_zero) in
    let here : i + 0 ≡ i = omega arith in
    (
      subst (λ l. Holds l (pairs i)) same (subst (λ j. Holds hel' (pairs j)) here held),
      HoldAll-Models hels pairs n (i + 1) (omega arith) λ j lt.
          let shift : i + suc j ≡ i + 1 + j = omega arith in
          let (hel'', at_j, held') = h (suc j) (omega arith) in
          (hel'', at_j, subst (λ l. Holds hel'' (pairs l)) shift held'),
    )

Models-HoldAll : {m : Hashmap} {pairs : ℕ → Pairs} → Models m pairs → HoldAll m.buckets pairs 256 0
Models-HoldAll {m} {pairs} t = HoldAll-Models m.buckets pairs 256 0 t.width λ j lt.
    let plain : j ≡ 0 + j = omega arith in
    let (hel, at_j, held) = t.bucket j lt in
    (hel, at_j, subst (λ l. Holds hel (pairs l)) plain held)

module _ {ℓ} {S : Type ℓ} (iter : S → Bytes → ℤ → S × Bool) where
  -- the callback over a list of pairs, up to the first call that returns non-zero
  unfoldable pub visit : Pairs → S → S × Bool
  visit [] s = (s, false)
  visit ((k, v) ∷ es) s =
      let (s', stop) = iter s k v in elim stop [ true ↦ (s', true) | false ↦ visit es s' ]

  iterate_list-visit :
      (es : Pairs) (spare : List Slot) (s : S)
      → iterate_list iter (slots es ++ spare) (length es) s ≡ ok (visit es s)
  unfolding iterate_list visit
  iterate_list-visit [] spare s = refl
  iterate_list-visit ((k, v) ∷ es) spare s =
      let rest = iterate_list-visit es spare (iter s k v).0 in ground (arith, rest)

  -- visiting on, unless a call has returned non-zero
  abbrev or_stop : S × Bool → (S → S × Bool) → S × Bool
  or_stop (s, true) f = (s, true)
  or_stop (s, false) f = f s

  visit-append : (a b : Pairs) (s : S) → visit (a ++ b) s ≡ or_stop (visit a s) (visit b)
  unfolding visit
  visit-append [] b s = refl
  visit-append ((k, v) ∷ a) b s = let rest = visit-append a b (iter s k v).0 in ground (arith, rest)

  iterate_buckets-visit :
      (hels : List HashmapEntryList) (pairs : ℕ → Pairs) (n i : ℕ) (s : S)
      → HoldAll hels pairs n i
      → iterate_buckets iter hels n s ≡ ok (visit (pairs_from pairs n i) s)
  unfolding iterate_buckets
  iterate_buckets-visit hels pairs zero i s h = unfold visit in refl
  iterate_buckets-visit [] pairs (suc n) i s h = absurd h
  iterate_buckets-visit (hel ∷ hels) pairs (suc n) i s (held, h) =
      rw (held.values, held.vlen)
        (rw (iterate_list-visit (pairs i) held.spare s, visit-append)
          (go_on (visit (pairs i) s) λ s'. iterate_buckets-visit hels pairs n (i + 1) s' h))
    where
      go_on :
          (r : S × Bool)
          → ((s' : S) → iterate_buckets iter hels n s' ≡ ok (visit (pairs_from pairs n (i + 1)) s'))
          → (elim r.1 [ true ↦ ok (r.0, true) | false ↦ iterate_buckets iter hels n r.0 ])
            ≡ ok (or_stop r (visit (pairs_from pairs n (i + 1))))
      go_on (s', true) later = refl
      go_on (s', false) later = later s'

  -- `hashmap_iterate` calls back on every pair, bucket after bucket and in the order of the puts
  -- within a bucket, up to the first call that returns non-zero, which it reports.
  pub hashmap_iterate-visit :
      {m : Hashmap} {pairs : ℕ → Pairs} (s : S)
      → Models m pairs
      → hashmap_iterate iter m s ≡ ok (visit (pairs_from pairs 256 0) s)
  unfolding hashmap_iterate
  hashmap_iterate-visit {m} {pairs} s t =
      rw t.size (iterate_buckets-visit m.buckets pairs 256 0 s (Models-HoldAll t))

free_keys-slots :
    (es : Pairs) (spare : List Slot) → free_keys (slots es ++ spare) (length es) ≡ ok tt
unfolding free_keys
free_keys-slots [] spare = refl
free_keys-slots ((k, v) ∷ es) spare = free_keys-slots es spare

empty_buckets-replicate :
    (hels : List HashmapEntryList) (pairs : ℕ → Pairs) (n i : ℕ)
    → length hels ≡ n
    → HoldAll hels pairs n i
    → empty_buckets hels n ≡ ok (replicate n empty_list)
unfolding empty_buckets
empty_buckets-replicate [] pairs zero i e h = refl
empty_buckets-replicate (hel ∷ hels) pairs zero i e h = absurd (omega arith)
empty_buckets-replicate [] pairs (suc n) i e h = absurd h
empty_buckets-replicate (hel ∷ hels) pairs (suc n) i e (held, h) =
    rw (held.values, held.vlen)
      (rw (free_keys-slots (pairs i) held.spare)
        (rw (empty_buckets-replicate hels pairs n (i + 1) (omega arith) h)))

-- `hashmap_empty` leaves a map that stands for no pair; the entry count stays what it was.
pub hashmap_empty-Models :
    {m : Hashmap} {pairs : ℕ → Pairs}
    → Models m pairs
    → (m' : Hashmap) × (hashmap_empty m ≡ ok m')
      × Models m' (λ _. [])
      × (m'.num_entry ≡ m.num_entry)
unfolding hashmap_empty
hashmap_empty-Models {m} {pairs} t = (
  record m { buckets = replicate 256 empty_list },
  rw t.size (rw (empty_buckets-replicate m.buckets pairs 256 0 t.width (Models-HoldAll t))),
  record {
    size = t.size;
    width = length-replicate 256 empty_list;
    bucket = λ i lt. (empty_list, get_elem?-replicate 256 i empty_list lt, empty-Holds);
  },
  refl,
)
