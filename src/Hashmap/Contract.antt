-- ===== src/Hashmap/Contract.antt =====
-- What callers of src/hashmap.c may count on, in terms of the calls alone.
use minervabot.Prelude.{
  ℕ, ◌<◌, ◌≡◌, ◌≢◌, sym, subst, ◌∙◌, true, false, none, some, arith, length, if◌then◌else◌, ℤ, pos,
  get_elem?,
}
use mathlib.Core.Option.{some-injective}
use minervabot.Run.{ok, fault}
use minervabot.CString.{Bytes, equal}
use minervabot.CString.Laws.{read-get_elem?}
use minervabot.Crc8.Reference.{AreBytes}
use minervabot.Hashmap.Assoc.{
  Pairs, lookup, erase, or_zero, first_of_two, Once, lookup-erase, AtEnd,
}
use minervabot.Hashmap.Bucket.{Holds}
use minervabot.Hashmap.Removal.{remove_entry-fault}
use minervabot.Hashmap.Refine.{
  Models, view, replace, HasRoom, hash-lt, hashmap_get-view, hashmap_put-Models,
  hashmap_remove-Models, view_added, view_erased_ne,
}
use minervabot.Hashmap.{HashmapEntryList, Hashmap, hash, hashmap_put, hashmap_remove, hashmap_get}

module _ {m : Hashmap} {pairs : ℕ → Pairs} (t : Models m pairs) (k : Bytes)
    (bytes : AreBytes k) where
  -- A `hashmap_put` into a bucket of fewer than 32768 pairs succeeds where memory is given. A later
  -- `hashmap_get` of any key reads what was there before it, and the value that was put only if it
  -- asks for that key and nothing was there: `hashmap_put` overwrites nothing.
  pub hashmap_get-put :
      (v : ℤ)
      → length (pairs (hash k)) < 32768
      → (m' : Hashmap) × (hashmap_put true true m k v ≡ ok m')
        × ((q : Bytes)
            → AreBytes q
            → hashmap_get m' q
              ≡ ok (or_zero (first_of_two (view pairs q) (if equal q k then some v else none))))
  hashmap_get-put v small =
      let (m', run, t') = hashmap_put-Models t k bytes v small in
      (m', run, λ q q_bytes. rw (hashmap_get-view t' q q_bytes) (rw (view_added pairs k q v)))

  -- Where the bucket of `k` has a slot to spare and holds each key once, and `k` is its last key or not among
  -- them, `hashmap_remove` returns what `hashmap_get` reads at `k`; after it `k` reads 0 and every other key reads what it did.
  pub hashmap_get-remove :
      HasRoom m k
      → Once (pairs (hash k))
      → AtEnd k (pairs (hash k))
      → (m' : Hashmap) × (v : ℤ) × (hashmap_get m k ≡ ok v)
        × (hashmap_remove m k ≡ ok (m', v))
        × (hashmap_get m' k ≡ ok (pos 0))
        × ((q : Bytes) → AreBytes q → equal q k ≡ false → hashmap_get m' q ≡ hashmap_get m q)
  hashmap_get-remove room once at_end =
      let (m', run, t') = hashmap_remove-Models t k bytes room at_end in
      (
        m',
        or_zero (view pairs k),
        hashmap_get-view t k bytes,
        run,
        rw (hashmap_get-view t' k bytes) (rw (view_erased_self, lookup-erase k _ once)),
        λ q q_bytes ne.
            rw (hashmap_get-view t' q q_bytes, hashmap_get-view t q q_bytes)
              (rw (view_erased_ne pairs k q ne)),
      )
    where
      view_erased_self :
          view (replace pairs (hash k) (erase k (pairs (hash k)))) k
          ≡ lookup k (erase k (pairs (hash k)))
      view_erased_self = ground arith

  -- `hashmap_remove` of a key that is there, from a bucket whose slots are all in use, reads one
  -- slot behind the end of the array.
  pub hashmap_remove-overrun :
      (hel : HashmapEntryList)
      → get_elem? m.buckets (hash k) ≡ some hel
      → hel.vlen ≡ hel.vroom
      → view pairs k ≢ none
      → hashmap_remove m k ≡ fault
  unfolding hashmap_remove
  hashmap_remove-overrun hel at_h full present =
      let (hel', at_h', held) = t.bucket (hash k) (hash-lt k bytes) in
      let same : hel' ≡ hel = some-injective _ _ (sym at_h' ∙ at_h) in
      let held' : Holds hel (pairs (hash k)) = subst (λ l. Holds l (pairs (hash k))) same held in
      rw (read-get_elem? m.buckets (hash k) at_h) (rw (remove_entry-fault k held' full present))
