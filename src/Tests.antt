-- ===== src/Tests.antt =====
-- Concrete maps, levels and command trees, for the tests of the children.
mod Maps
mod Levels
mod Tree
mod Wire
mod Bots
mod Loading
mod Pages
mod Entry
use minervabot.Prelude.{
  ℕ, zero, suc, ◌+◌, ◌≤◌, ◌<◌, ◌≡◌, ◌≢◌, refl, sym, ap, ◌∙◌, subst, Bool, true, false, Option, none,
  some, List, [], ◌∷◌, ◌++◌, arith, length, get_elem?, set, get_elem?-set_self, replicate,
  length-replicate, ℤ, pos,
}
use mathlib.Core.Option.{some-injective}
use minervabot.CString.{Bytes, codes}
use minervabot.Crc8.Reference.{AreBytes}
use minervabot.Hashmap.{
  HashmapEntry, HashmapEntryList, Hashmap, Slot, hash, empty_list, hashmap_new,
}
use minervabot.Hashmap.Assoc.{Pairs}
use minervabot.Hashmap.Bucket.{Holds, slots}
use minervabot.Hashmap.Refine.{
  Models, HasRoom, replace, hash-lt, hashmap_new-Models, Models-replace,
}
use minervabot.Permissions.{Permissions}
use minervabot.Permissions.Update.{replace_self}

abbrev pub fresh_map : Hashmap
fresh_map = record { num_entry = 0; bucketsize = 256; buckets = replicate 256 empty_list }

pub fresh_map-Models : Models fresh_map (λ _. [])
unfolding hashmap_new
fresh_map-Models = hashmap_new-Models true true refl

-- a bucket of the pairs and as many spare slots
abbrev pub bucket_of : Pairs → ℕ → HashmapEntryList
bucket_of es spare = record {
  vlen = length es;
  vroom = length es + spare;
  values = slots es ++ replicate spare none;
}

-- a map with all its pairs in the bucket of one key
abbrev pub map_of : Bytes → Pairs → ℕ → Hashmap
map_of k es spare = record {
  num_entry = length es;
  bucketsize = 256;
  buckets = set (replicate 256 empty_list) (hash k) (bucket_of es spare);
}

abbrev pub pairs_of : Bytes → Pairs → ℕ → Pairs
pairs_of k es = replace (λ _. []) (hash k) es

abbrev pub host : Bytes
host = codes "a.org"

pub host-AreBytes : AreBytes host
host-AreBytes = ground arith

bucket_of-Holds : (es : Pairs) (spare : ℕ) → Holds (bucket_of es spare) es
bucket_of-Holds es spare = record {
  spare = replicate spare none;
  values = refl;
  vlen = refl;
  vroom = ap (λ n. length es + n) (sym (length-replicate {A = Slot} spare none));
}

pub map_of-Models :
    (k : Bytes) (es : Pairs) (spare : ℕ) → AreBytes k → Models (map_of k es spare) (pairs_of k es)
map_of-Models k es spare bytes =
    Models-replace (hash k) (bucket_of es spare) es (length es) fresh_map-Models (hash-lt k bytes)
      (bucket_of-Holds es spare)

pub map_of-bucket :
    (k : Bytes) (es : Pairs) (spare : ℕ)
    → AreBytes k
    → get_elem? (map_of k es spare).buckets (hash k) ≡ some (bucket_of es spare)
map_of-bucket k es spare bytes =
    get_elem?-set_self (replicate 256 empty_list) (hash k) (bucket_of es spare) (hash-lt k bytes)

pub map_of-HasRoom :
    (k : Bytes) (es : Pairs) (spare : ℕ) → AreBytes k → 0 < spare → HasRoom (map_of k es spare) k
map_of-HasRoom k es spare bytes room hel at =
    subst (λ (l : HashmapEntryList). l.vlen < l.vroom)
      (some-injective _ _ (sym (map_of-bucket k es spare bytes) ∙ at)) (omega arith)

pub pairs_of_self : (k : Bytes) (es : Pairs) → pairs_of k es (hash k) ≡ es
pairs_of_self k es = replace_self (λ _. []) (hash k) es
