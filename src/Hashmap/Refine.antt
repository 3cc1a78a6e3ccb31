-- ===== src/Hashmap/Refine.antt =====
-- The map as a whole: what each operation of src/hashmap.c does to the lists of pairs that the 256
-- buckets stand for.
use minervabot.Prelude.{
  ℕ, zero, suc, ◌+◌, ◌%◌, ◌^◌, ◌<◌, ◌≡◌, refl, sym, ◌∙◌, subst, Bool, true, false, Option, none,
  some, [], ◌∷◌, ◌++◌, arith, length, get_elem?, set, get_elem?-set_self, get_elem?-set_ne,
  length-set, inl, inr, Bool-cases, ◌==◌, ==_iff, if◌then◌else◌, replicate, ℤ,
}
use mathlib.Core.Option.{some-injective}
use minervabot.Run.{ok, fault}
use minervabot.CString.{Bytes, equal}
use minervabot.CString.Laws.{equal_iff, read-get_elem?, write-set}
use minervabot.Crc8.Reference.{AreBytes, crc8_block-remainder_of}
use minervabot.Hashmap.Assoc.{
  Pairs, lookup, erase, or_zero, first_of_two, lookup-append, lookup-erase_ne, AtEnd,
}
use minervabot.Hashmap.Bucket.{Holds, get-Holds, append_entry-Holds, empty-Holds}
use minervabot.Hashmap.Removal.{remove_entry-Holds, remove_entry-overlap}
use minervabot.Hashmap.{
  HashmapEntryList, Hashmap, hash, empty_list, hashmap_new, hashmap_put, hashmap_remove,
  hashmap_get,
}

-- Bucket `i` stands for `pairs i`.
pub record Models (m : Hashmap) (pairs : ℕ → Pairs) : Type 0 where
  pub size : m.bucketsize ≡ 256
  pub width : length m.buckets ≡ 256
  pub bucket :
      (i : ℕ)
      → i < 256
      → (hel : HashmapEntryList) × (get_elem? m.buckets i ≡ some hel) × Holds hel (pairs i)

-- the value under a key
abbrev pub view : (ℕ → Pairs) → Bytes → Option ℤ
view pairs q = lookup q (pairs (hash q))

-- the bucket of a key has a slot to spare
abbrev pub HasRoom : Hashmap → Bytes → Type 0
HasRoom m k =
    (hel : HashmapEntryList) → get_elem? m.buckets (hash k) ≡ some hel → hel.vlen < hel.vroom

abbrev pub replace : (ℕ → Pairs) → ℕ → Pairs → ℕ → Pairs
replace pairs h es i = if i == h then es else pairs i

pub hash-lt : (key : Bytes) → AreBytes key → hash key < 256
unfolding hash
hash-lt key h = (crc8_block-remainder_of _ key h (λ _. refl)).1

pub get_elem?-replicate {ℓ} :
    {A : Type ℓ} (n i : ℕ) (a : A) → i < n → get_elem? (replicate n a) i ≡ some a
get_elem?-replicate zero i a h = absurd (omega arith)
get_elem?-replicate (suc n) zero a h = refl
get_elem?-replicate (suc n) (suc i) a h = get_elem?-replicate n i a (omega arith)

-- A map that `hashmap_new` returns stands for no pair.
pub hashmap_new-Models :
    (ret_ok buckets_ok : Bool) {m : Hashmap}
    → hashmap_new ret_ok buckets_ok ≡ some m
    → Models m (λ _. [])
unfolding hashmap_new
hashmap_new-Models true true e = subst (λ m. Models m (λ _. [])) (some-injective _ _ e) fresh
  where
    fresh :
        Models
          (record { num_entry = 0; bucketsize = 256; buckets = replicate 256 empty_list })
          (λ _. [])
    fresh = record {
      size = refl;
      width = refl;
      bucket = λ i lt. (empty_list, get_elem?-replicate 256 i empty_list lt, empty-Holds);
    }
hashmap_new-Models true false e = cc
hashmap_new-Models false b e = cc

pub Models-replace :
    {m : Hashmap} {pairs : ℕ → Pairs} (h : ℕ) (hel : HashmapEntryList) (es : Pairs) (n : ℕ)
    → Models m pairs
    → h < 256
    → Holds hel es
    → Models (record m { buckets = set m.buckets h hel; num_entry = n }) (replace pairs h es)
Models-replace {m} {pairs} h hel es n t lt held = record {
  size = t.size;
  width = rw length-set t.width;
  bucket = λ i i_lt. elim (Bool-cases (i == h)) [
    | inl e ↦
        let same : i ≡ h = (==_iff i h).0 e in
        (hel, rw same (get_elem?-set_self m.buckets h hel (rw t.width lt)), rw e held)
    | inr e ↦
        let (old, at_i, holds) = t.bucket i i_lt in
        (old, get_elem?-set_ne m.buckets hel (ground arith) ∙ at_i, rw e holds)
  ];
}

module _ {m : Hashmap} {pairs : ℕ → Pairs} (t : Models m pairs) (k : Bytes)
    (bytes : AreBytes k) where
  -- `hashmap_get` reads the first value under the key, and 0 for a key that is not there.
  pub hashmap_get-view : hashmap_get m k ≡ ok (or_zero (view pairs k))
  unfolding hashmap_get
  hashmap_get-view =
      let (hel, at_h, held) = t.bucket (hash k) (hash-lt k bytes) in
      rw (read-get_elem? m.buckets (hash k) at_h) (get-Holds held k)

  -- `hashmap_put` adds a pair behind those of its bucket.
  pub hashmap_put-Models :
      (v : ℤ)
      → length (pairs (hash k)) < 32768
      → (m' : Hashmap) × (hashmap_put true true m k v ≡ ok m')
        × Models m' (replace pairs (hash k) (pairs (hash k) ++ (k, v) ∷ []))
  unfolding hashmap_put
  hashmap_put-Models v small =
      let lt = hash-lt k bytes in
      let (hel, at_h, held) = t.bucket (hash k) lt in
      let (hel', run, held') = append_entry-Holds held k v small in
      (
        record m { buckets = set m.buckets (hash k) hel'; num_entry = (m.num_entry + 1) % 2 ^ 64 },
        rw (read-get_elem? m.buckets (hash k) at_h)
            (rw run (rw (write-set m.buckets (hash k) hel' (rw t.width lt)))),
        Models-replace (hash k) hel' _ _ t lt held',
      )

  -- `hashmap_remove` takes the pair under the key away, if its bucket has room to spare and the pair is its last.
  pub hashmap_remove-Models :
      HasRoom m k
      → AtEnd k (pairs (hash k))
      → (m' : Hashmap) × (hashmap_remove m k ≡ ok (m', or_zero (view pairs k)))
        × Models m' (replace pairs (hash k) (erase k (pairs (hash k))))
  unfolding hashmap_remove
  hashmap_remove-Models room at_end =
      let lt = hash-lt k bytes in
      let (hel, at_h, held) = t.bucket (hash k) lt in
      let (hel', run, held') = remove_entry-Holds k held (room hel at_h) at_end in
      (
        record m { buckets = set m.buckets (hash k) hel' },
        rw (read-get_elem? m.buckets (hash k) at_h)
            (rw run (rw (write-set m.buckets (hash k) hel' (rw t.width lt)))),
        Models-replace (hash k) hel' _ m.num_entry t lt held',
      )

  -- Where another pair stands behind the first one under the key, `hashmap_remove` is undefined.
  pub hashmap_remove-overlap :
      HasRoom m k → (AtEnd k (pairs (hash k)) → ⊥) → hashmap_remove m k ≡ fault
  unfolding hashmap_remove
  hashmap_remove-overlap room not_last =
      let (hel, at_h, held) = t.bucket (hash k) (hash-lt k bytes) in
      rw (read-get_elem? m.buckets (hash k) at_h)
        (rw (remove_entry-overlap k held (room hel at_h) not_last) refl)

single : (q k : Bytes) (v : ℤ) → lookup q ((k, v) ∷ []) ≡ (if equal q k then some v else none)
unfolding lookup
single q k v = refl

first_none : (o : Option ℤ) → first_of_two o none ≡ o
first_none none = refl
first_none (some v) = refl

-- the view behind an added pair: what was there first stays
pub view_added :
    (pairs : ℕ → Pairs) (k q : Bytes) (v : ℤ)
    → view (replace pairs (hash k) (pairs (hash k) ++ (k, v) ∷ [])) q
      ≡ first_of_two (view pairs q) (if equal q k then some v else none)
view_added pairs k q v = elim (Bool-cases (hash q == hash k)) [
  | inl e ↦
      let same : hash q ≡ hash k = (==_iff _ _).0 e in rw e (rw (lookup-append, single) (rw same))
  | inr e ↦ rw e (rw (other e) (sym (first_none _)))
]
  where
    other : (hash q == hash k) ≡ false → equal q k ≡ false
    other e = ground (arith, equal_iff q k)

pub view_erased_ne :
    (pairs : ℕ → Pairs) (k q : Bytes)
    → equal q k ≡ false
    → view (replace pairs (hash k) (erase k (pairs (hash k)))) q ≡ view pairs q
view_erased_ne pairs k q h = elim (Bool-cases (hash q == hash k)) [
  | inl e ↦
      let same : hash q ≡ hash k = (==_iff _ _).0 e in rw e (rw (lookup-erase_ne q k _ h, same))
  | inr e ↦ rw e
]
