-- ===== src/Hashmap.antt =====
-- src/hashmap.c: the map from strings to ints, 256 growing arrays of entries.
-- A slot of an array that `realloc` gave and nothing has written yet is `none`. The allocator's
-- answers are arguments: `realloc_ok` and `strdup_ok` say whether the call gave memory.
pub mod Assoc
pub mod Bucket
pub mod Removal
pub mod Refine
pub mod Contract
pub mod Iterate
use minervabot.Prelude.{
  ℕ, zero, suc, ◌+◌, ◌-◌, ◌*◌, ◌%◌, ◌^◌, Bool, true, false, ◌&&◌, ◌||◌, not, Option, none, some,
  List, [], ◌∷◌, ◌++◌, ltb, ◌==◌, if◌then◌else◌, length, take, drop, replicate, ℤ, pos,
}
use minervabot.Run.{Run, ok, fault, ◌>>=◌, deref}
use minervabot.CString.{Bytes, equal, read, write, copy}
use minervabot.Crc8.{crc8_init, crc8_block}

-- a null key is what a failed `strdup` leaves
pub record HashmapEntry : Type 0 where
  pub key : Option Bytes
  pub value : ℤ

abbrev pub Slot : Type 0
Slot = Option HashmapEntry

-- `vlen` and `vroom` are of type `unsigned short`
pub record HashmapEntryList : Type 0 where
  pub vlen : ℕ
  pub vroom : ℕ
  pub values : List Slot

pub record Hashmap : Type 0 where
  pub num_entry : ℕ
  pub bucketsize : ℕ
  pub buckets : List HashmapEntryList

abbrev pub empty_list : HashmapEntryList
empty_list = record { vlen = 0; vroom = 0; values = [] }

-- the arguments say whether each `calloc` gave memory
unfoldable pub hashmap_new : Bool → Bool → Option Hashmap
hashmap_new ret_ok buckets_ok =
    if not ret_ok || not buckets_ok
    then none
    else some (record { num_entry = 0; bucketsize = 256; buckets = replicate 256 empty_list })

-- `hashmap_new` has built the table before there is a map to hash for
unfoldable pub hash : Bytes → ℕ
unfolding crc8_block
hash key = (crc8_block crc8_init key).0

-- the loop over the pairs of a bucket: `n` rounds left, `i` is the index of the first slot
unfoldable pub scan : Bytes → List Slot → ℕ → ℕ → Run (Option (ℕ × HashmapEntry))
scan key values zero i = ok none
scan key [] (suc n) i = fault
scan key (slot ∷ values) (suc n) i =
    let rest = scan key values n (i + 1) in
    do he ← deref slot; stored ← deref he.key; if equal key stored then ok (some (i, he)) else rest

-- `realloc(p, n * sizeof(hashmap_entry))`, when it succeeds
abbrev pub realloc : List Slot → ℕ → List Slot
realloc p n = take n p ++ replicate (n - length p) none

-- `he = &hel->values[hel->vlen-1]` and the writes to it
write_last : HashmapEntryList → ℕ → HashmapEntry → Run HashmapEntryList
write_last hel zero he = fault
write_last hel (suc last) he = do
  values ← write hel.values last (some he)
  ok (record hel { values = values })

-- what happens to the bucket; `none` is the early return when memory runs out
unfoldable pub append_entry :
    Bool → Bool → HashmapEntryList → Bytes → ℤ → Run (HashmapEntryList × Bool)
unfolding write_last
append_entry realloc_ok strdup_ok hel key value =
    let vlen = (hel.vlen + 1) % 2 ^ 16 in
    let vroom =
      if ltb hel.vroom vlen
      then (if hel.vroom == 0 then 4 else hel.vroom * 2 % 2 ^ 16)
      else hel.vroom in
    let grown =
      if ltb hel.vroom vlen
      then (if realloc_ok then realloc hel.values vroom else [])
      else hel.values in
    let he : HashmapEntry = record { key = if strdup_ok then some key else none; value = value } in
    if ltb hel.vroom vlen && not realloc_ok
    then ok (record hel { vlen = vlen; vroom = vroom }, false)
    else do
      hel' ← write_last (record { vlen = vlen; vroom = vroom; values = grown }) vlen he
      ok (hel', true)

unfoldable pub hashmap_put : Bool → Bool → Hashmap → Bytes → ℤ → Run Hashmap
hashmap_put realloc_ok strdup_ok m key value = do
  hel ← read m.buckets (hash key)
  (hel', done) ← append_entry realloc_ok strdup_ok hel key value
  buckets ← write m.buckets (hash key) hel'
  ok (record m {
    buckets = buckets;
    num_entry = if done then (m.num_entry + 1) % 2 ^ 64 else m.num_entry;
  })

-- the next `n` slots; `memcpy` reads them all
unfoldable pub read_slots : List Slot → ℕ → Run (List Slot)
read_slots p zero = ok []
read_slots [] (suc n) = fault
read_slots (x ∷ p) (suc n) = do xs ← read_slots p n; ok (x ∷ xs)

-- `memcpy` of `n` slots onto those from `i`, from those behind `i`. Where more than one is copied the ranges
-- overlap, which is undefined behaviour.
unfoldable pub close_gap : List Slot → ℕ → ℕ → Run (List Slot)
close_gap values i n = do
  moved ← read_slots (drop (i + 1) values) n
  if ltb 1 n then fault else (do kept ← copy (drop i values) moved; ok (take i values ++ kept))

remove_found : HashmapEntryList → Option (ℕ × HashmapEntry) → Run (HashmapEntryList × ℤ)
remove_found hel none = ok (hel, pos 0)
remove_found hel (some (i, he)) = do
  values ← close_gap hel.values i (hel.vlen - i)
  ok (record hel { values = values; vlen = hel.vlen - 1 }, he.value)

-- what happens to the bucket, and the value that was removed
unfoldable pub remove_entry : HashmapEntryList → Bytes → Run (HashmapEntryList × ℤ)
unfolding remove_found
remove_entry hel key = do found ← scan key hel.values hel.vlen 0; remove_found hel found

unfoldable pub hashmap_remove : Hashmap → Bytes → Run (Hashmap × ℤ)
hashmap_remove m key = do
  hel ← read m.buckets (hash key)
  (hel', value) ← remove_entry hel key
  buckets ← write m.buckets (hash key) hel'
  ok (record m { buckets = buckets }, value)

unfoldable pub value_found : Option (ℕ × HashmapEntry) → ℤ
value_found none = pos 0
value_found (some (i, he)) = he.value

unfoldable pub hashmap_get : Hashmap → Bytes → Run ℤ
unfolding value_found
hashmap_get m key = do
  hel ← read m.buckets (hash key)
  found ← scan key hel.values hel.vlen 0
  ok (value_found found)

module _ {ℓ} {S : Type ℓ} (iter : S → Bytes → ℤ → S × Bool) where
  -- the pairs of one bucket, `n` rounds left; the flag says that the callback returned non-zero
  unfoldable pub iterate_list : List Slot → ℕ → S → Run (S × Bool)
  iterate_list values zero s = ok (s, false)
  iterate_list [] (suc n) s = fault
  iterate_list (slot ∷ values) (suc n) s = do
    he ← deref slot
    key ← deref he.key
    let (s', stop) = iter s key he.value
    elim stop [ true ↦ ok (s', true) | false ↦ iterate_list values n s' ]

  unfoldable pub iterate_buckets : List HashmapEntryList → ℕ → S → Run (S × Bool)
  iterate_buckets buckets zero s = ok (s, false)
  iterate_buckets [] (suc n) s = fault
  iterate_buckets (hel ∷ buckets) (suc n) s = do
    (s', stop) ← iterate_list hel.values hel.vlen s
    elim stop [ true ↦ ok (s', true) | false ↦ iterate_buckets buckets n s' ]

  -- the flag is set where the C function returns -1
  unfoldable pub hashmap_iterate : Hashmap → S → Run (S × Bool)
  hashmap_iterate m s = iterate_buckets m.buckets m.bucketsize s

-- `free(he->key)` reads the slot, and frees nothing for a null key
free_keys : List Slot → ℕ → Run (Unit {0})
free_keys values zero = ok tt
free_keys [] (suc n) = fault
free_keys (slot ∷ values) (suc n) = do he ← deref slot; free_keys values n

empty_buckets : List HashmapEntryList → ℕ → Run (List HashmapEntryList)
unfolding free_keys
empty_buckets buckets zero = ok buckets
empty_buckets [] (suc n) = fault
empty_buckets (hel ∷ buckets) (suc n) = do
  freed ← free_keys hel.values hel.vlen
  rest ← empty_buckets buckets n
  ok (empty_list ∷ rest)

unfoldable pub hashmap_empty : Hashmap → Run Hashmap
unfolding empty_buckets
hashmap_empty m = do
  buckets ← empty_buckets m.buckets m.bucketsize
  ok (record m { buckets = buckets })

-- the buckets are emptied before the map itself is freed
unfoldable pub hashmap_destroy : Hashmap → Run {0} Unit
hashmap_destroy m = do emptied ← hashmap_empty m; ok tt
