-- ===== src/Tests/Maps.antt =====
-- The theorems on src/hashmap.c at concrete maps.
use minervabot.Prelude.{
  ℕ, ◌*◌, ◌+◌, ◌<◌, ◌≡◌, ◌≢◌, refl, sym, ap, ◌∙◌, subst, Bool, true, false, none, some, [], ◌∷◌,
  arith, length, if◌then◌else◌, ℤ, pos, pos_part, ◌==◌,
}
use minervabot.Run.{ok, fault}
use minervabot.CString.{Bytes, codes, equal}
use minervabot.Crc8.{Crc8, crc8_init, crc8_block}
use minervabot.Crc8.Reference.{AreBytes}
use minervabot.Crc8.Polynomial.{bits, long_division, dividend, crc8_block-long_division}
use minervabot.Hashmap.{Hashmap, hash, hashmap_put, hashmap_get, hashmap_remove, hashmap_iterate}
use minervabot.Hashmap.Assoc.{Pairs, lookup, or_zero, first_of_two, Once, AtEnd}
use minervabot.Hashmap.Refine.{view}
use minervabot.Hashmap.Contract.{hashmap_get-put, hashmap_get-remove, hashmap_remove-overrun}
use minervabot.Hashmap.Iterate.{visit, pairs_from, hashmap_iterate-visit}
use minervabot.Tests.{
  bucket_of, map_of, pairs_of, map_of-Models, map_of-bucket, map_of-HasRoom, pairs_of_self, host,
  host-AreBytes,
}

-- a table that has not been filled yet
abbrev empty_table : Crc8
empty_table = record { table8 = []; crc8_hinit = false }

crc8_block-long_division_example :
    (bits (crc8_block empty_table host).0 ≡ long_division (8 * length host) (dividend host))
    × ((crc8_block empty_table host).0 < 256)
    × ((crc8_block empty_table host).1 ≡ crc8_init)
crc8_block-long_division_example =
    crc8_block-long_division empty_table host host-AreBytes (λ h. absurd (cc h))

abbrev two_pairs : Pairs
two_pairs = (host, pos 7) ∷ (codes "b", pos 8) ∷ []

-- the host behind another key
abbrev last_pair : Pairs
last_pair = (codes "b", pos 8) ∷ (host, pos 7) ∷ []

last_pair-Once : Once (pairs_of host last_pair (hash host))
unfolding equal lookup
last_pair-Once = subst Once (sym (pairs_of_self host last_pair)) (refl, (refl, tt))

last_pair-AtEnd : AtEnd host (pairs_of host last_pair (hash host))
unfolding equal
last_pair-AtEnd = subst (AtEnd host) (sym (pairs_of_self host last_pair)) (refl, tt)

few_pairs : length (pairs_of host two_pairs (hash host)) < 32768
few_pairs = rw (pairs_of_self host two_pairs) (omega arith)

hashmap_get-put_example :
    (m' : Hashmap) × (hashmap_put true true (map_of host two_pairs 2) host (pos 9) ≡ ok m')
    × ((q : Bytes)
        → AreBytes q
        → hashmap_get m' q
          ≡ ok (
              or_zero (
                first_of_two
                  (view (pairs_of host two_pairs) q)
                  (if equal q host then some (pos 9) else none))))
hashmap_get-put_example =
    hashmap_get-put (map_of-Models host two_pairs 2 host-AreBytes) host host-AreBytes (pos 9)
      few_pairs

hashmap_get-remove_example :
    (m' : Hashmap) × (v : ℤ) × (hashmap_get (map_of host last_pair 2) host ≡ ok v)
    × (hashmap_remove (map_of host last_pair 2) host ≡ ok (m', v))
    × (hashmap_get m' host ≡ ok (pos 0))
    × ((q : Bytes)
        → AreBytes q
        → equal q host ≡ false
        → hashmap_get m' q ≡ hashmap_get (map_of host last_pair 2) q)
hashmap_get-remove_example =
    hashmap_get-remove (map_of-Models host last_pair 2 host-AreBytes) host host-AreBytes
      (map_of-HasRoom host last_pair 2 host-AreBytes (omega arith)) last_pair-Once last_pair-AtEnd

-- a bucket of four slots, all in use
abbrev four_pairs : Pairs
four_pairs = (host, pos 1) ∷ (host, pos 2) ∷ (host, pos 3) ∷ (host, pos 4) ∷ []

four_pairs-present : view (pairs_of host four_pairs) host ≢ none
unfolding equal lookup
four_pairs-present e =
    let found : lookup host four_pairs ≡ some (pos 1) = refl in
    cc (sym found ∙ sym (ap (lookup host) (pairs_of_self host four_pairs)) ∙ e)

hashmap_remove-overrun_example : hashmap_remove (map_of host four_pairs 0) host ≡ fault
hashmap_remove-overrun_example =
    hashmap_remove-overrun (map_of-Models host four_pairs 0 host-AreBytes) host host-AreBytes
      (bucket_of four_pairs 0) (map_of-bucket host four_pairs 0 host-AreBytes) refl
      four_pairs-present

-- a callback that counts the pairs and stops at the value 8
abbrev count_to_eight : ℕ → Bytes → ℤ → ℕ × Bool
count_to_eight n key v = (n + 1, pos_part v == 8)

hashmap_iterate-visit_example :
    hashmap_iterate count_to_eight (map_of host two_pairs 2) 0
    ≡ ok (visit count_to_eight (pairs_from (pairs_of host two_pairs) 256 0) 0)
hashmap_iterate-visit_example =
    hashmap_iterate-visit count_to_eight 0 (map_of-Models host two_pairs 2 host-AreBytes)
