-- ===== src/Hashmap/Bucket.antt =====
-- A bucket and the list of pairs that it stands for: what the operations do to both.
use minervabot.Prelude.{
  ℕ, zero, suc, ◌+◌, ◌-◌, ◌*◌, ◌%◌, ◌^◌, ◌≤◌, ◌<◌, ◌≡◌, refl, ap, ◌∙◌, subst, true, false, Option,
  none, some, List, [], ◌∷◌, ◌++◌, arith, ltb, ◌==◌, if◌then◌else◌, length, take, replicate,
  length-append, length-replicate, ℤ,
}
use minervabot.Run.{ok, ◌>>=◌}
use minervabot.CString.{Bytes, equal, write}
use minervabot.CString.Laws.{write-append}
use mathlib.Core.List.{append-nil, append_assoc}
use minervabot.Hashmap.Assoc.{Pairs, lookup, or_zero}
use minervabot.Hashmap.{
  HashmapEntry, HashmapEntryList, Slot, scan, value_found, realloc, append_entry,
}

abbrev pub slot : Bytes × ℤ → Slot
slot (k, v) = some (record { key = some k; value = v })

abbrev pub slots : Pairs → List Slot
slots [] = []
slots ((k, v) ∷ es) = slot (k, v) ∷ slots es

pub length-slots : (es : Pairs) → length (slots es) ≡ length es
length-slots [] = refl
length-slots (e ∷ es) = ap suc (length-slots es)

pub slots-append : (a b : Pairs) → slots (a ++ b) ≡ slots a ++ slots b
slots-append [] b = refl
slots-append (e ∷ a) b = ap (◌∷◌ (slot e)) (slots-append a b)

-- The first `vlen` slots hold the pairs, and `vroom` slots are allocated.
pub record Holds (hel : HashmapEntryList) (es : Pairs) : Type 0 where
  pub spare : List Slot
  pub values : hel.values ≡ slots es ++ spare
  pub vlen : hel.vlen ≡ length es
  pub vroom : hel.vroom ≡ length es + length spare

-- where the first pair under a key stands
abbrev pub position : Bytes → Pairs → ℕ → Option (ℕ × HashmapEntry)
position q [] i = none
position q ((k, v) ∷ es) i =
    if equal q k then some (i, record { key = some k; value = v }) else position q es (i + 1)

pub scan-position :
    (q : Bytes) (es : Pairs) (spare : List Slot) (i : ℕ)
    → scan q (slots es ++ spare) (length es) i ≡ ok (position q es i)
unfolding scan
scan-position q [] spare i = refl
scan-position q ((k, v) ∷ es) spare i = rw (scan-position q es spare (i + 1)) (ground arith)

value-position :
    (q : Bytes) (es : Pairs) (i : ℕ) → value_found (position q es i) ≡ or_zero (lookup q es)
unfolding lookup value_found
value-position q [] i = refl
value-position q ((k, v) ∷ es) i = ground (arith, value-position q es (i + 1))

take_all : (n : ℕ) (xs : List Slot) → length xs ≤ n → take n xs ≡ xs
take_all n [] h = elim n as (λ m. take {A = Slot} m [] ≡ []) [ zero ↦ refl | suc m ↦ refl ]
take_all zero (x ∷ xs) h = absurd (omega arith)
take_all (suc n) (x ∷ xs) h = ap (◌∷◌ x) (take_all n xs (omega arith))

-- more room than before leaves at least one fresh slot behind the old ones
realloc_room :
    (p : List Slot) (n : ℕ)
    → length p < n
    → (m : ℕ) × (n ≡ length p + suc m) × (realloc p n ≡ p ++ none ∷ replicate m none)
realloc_room p n h =
    let m : ℕ = n - length p - 1 in
    let e : n - length p ≡ suc m = omega arith in
    (m, omega arith, rw (take_all n p (omega arith)) (ap (λ j. p ++ replicate j none) e))

write-slots :
    (es : Pairs) (y : Slot) (spare : List Slot) (e : Bytes × ℤ)
    → write (slots es ++ y ∷ spare) (length es) (slot e) ≡ ok (slots es ++ slot e ∷ spare)
write-slots es y spare e =
    let written = write-append (slots es) spare y (slot e) in rw (length-slots es) at written

Holds-append :
    (es : Pairs) (spare : List Slot) (k : Bytes) (v : ℤ) (vroom : ℕ)
    → vroom ≡ suc (length es + length spare)
    → Holds
        (record { vlen = suc (length es); vroom = vroom; values = slots es ++ slot (k, v) ∷ spare })
        (es ++ (k, v) ∷ [])
Holds-append es spare k v vroom room = record {
  spare = spare;
  values = simp (slots-append, append_assoc);
  vlen = rw length-append (omega arith);
  vroom = rw length-append (omega arith);
}

same_list :
    {hel : HashmapEntryList} {values : List Slot} {vlen vroom : ℕ}
    → hel.values ≡ values
    → hel.vlen ≡ vlen
    → hel.vroom ≡ vroom
    → record { vlen = vlen; vroom = vroom; values = values } ≡ hel
same_list p q r = ground (arith, p, q, r)

module _ (es : Pairs) (k : Bytes) (v : ℤ) (small : length es < 32768) where
  abbrev Appended : HashmapEntryList → Type 0
  Appended hel =
      (hel' : HashmapEntryList) × (append_entry true true hel k v ≡ ok (hel', true))
      × Holds hel' (es ++ (k, v) ∷ [])

  next_len : (length es + 1) % 2 ^ 16 ≡ suc (length es)
  next_len = omega arith

  -- room is left: the next slot is written
  append_within :
      (y : Slot) (spare : List Slot)
      → Appended (record {
        vlen = length es;
        vroom = length es + suc (length spare);
        values = slots es ++ y ∷ spare;
      })
  unfolding append_entry
  append_within y spare = (
    record {
      vlen = suc (length es);
      vroom = length es + suc (length spare);
      values = slots es ++ slot (k, v) ∷ spare;
    },
    rw (next_len, fits) (rw (write-slots es y spare (k, v))),
    Holds-append es spare k v _ (omega arith),
  )
    where
      fits : ltb (length es + suc (length spare)) (suc (length es)) ≡ false
      fits = ground arith

  -- the array is full: it grows first
  append_grown : Appended (record { vlen = length es; vroom = length es; values = slots es })
  unfolding append_entry
  append_grown =
      let (m, room, grown) = realloc_room (slots es) larger more in
      (
        record {
          vlen = suc (length es);
          vroom = larger;
          values = slots es ++ slot (k, v) ∷ replicate m none;
        },
        rw (next_len, full) (rw grown (rw (write-slots es none (replicate m none) (k, v)))),
        Holds-append es _ k v _
            (omega (arith, length-slots es, length-replicate {A = Slot} m none)),
      )
    where
      larger : ℕ
      larger = if length es == 0 then 4 else length es * 2 % 2 ^ 16

      more : length (slots es) < larger
      more = rw (length-slots es) (ground arith)

      full : ltb (length es) (suc (length es)) ≡ true
      full = ground arith

module _ {hel : HashmapEntryList} {es : Pairs} (h : Holds hel es) where
  pub scan-Holds : (q : Bytes) → scan q hel.values hel.vlen 0 ≡ ok (position q es 0)
  scan-Holds q = rw (h.values, h.vlen) (scan-position q es h.spare 0)

  pub get-Holds :
      (q : Bytes)
      → (scan q hel.values hel.vlen 0 >>= (λ found. ok (value_found found)))
        ≡ ok (or_zero (lookup q es))
  get-Holds q = rw (scan-Holds q, value-position q es 0)

  pub append_entry-Holds :
      (k : Bytes) (v : ℤ)
      → length es < 32768
      → (hel' : HashmapEntryList) × (append_entry true true hel k v ≡ ok (hel', true))
        × Holds hel' (es ++ (k, v) ∷ [])
  append_entry-Holds k v small = go h.spare h.values h.vlen h.vroom
    where
      go :
          (spare : List Slot)
          → hel.values ≡ slots es ++ spare
          → hel.vlen ≡ length es
          → hel.vroom ≡ length es + length spare
          → Appended es k v small hel
      go [] p q r =
          subst (Appended es k v small) (same_list (p ∙ append-nil (slots es)) q (r ∙ omega arith))
            (append_grown es k v small)
      go (y ∷ spare) p q r =
          subst (Appended es k v small) (same_list p q r) (append_within es k v small y spare)

pub empty-Holds : Holds (record { vlen = 0; vroom = 0; values = [] }) []
empty-Holds = record { spare = []; values = refl; vlen = refl; vroom = omega arith }
