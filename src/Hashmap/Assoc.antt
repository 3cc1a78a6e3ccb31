-- ===== src/Hashmap/Assoc.antt =====
-- What a bucket stands for: the list of its pairs, in the order in which they were put.
use minervabot.Prelude.{
  ◌≡◌, refl, true, false, Option, none, some, List, [], ◌∷◌, ◌++◌, arith, if◌then◌else◌, ℤ, pos,
}
use minervabot.CString.{Bytes, equal}
use minervabot.CString.Laws.{equal_iff}

abbrev pub Pairs : Type 0
Pairs = List (Bytes × ℤ)

-- the first pair under a key counts
unfoldable pub lookup : Bytes → Pairs → Option ℤ
lookup q [] = none
lookup q ((k, v) ∷ es) = if equal q k then some v else lookup q es

-- without the first pair under a key
unfoldable pub erase : Bytes → Pairs → Pairs
erase q [] = []
erase q ((k, v) ∷ es) = if equal q k then es else (k, v) ∷ erase q es

-- no pair but the last one is under the key
abbrev pub AtEnd : Bytes → Pairs → Type 0
AtEnd q [] = Unit
AtEnd q ((k, v) ∷ []) = Unit
AtEnd q ((k, v) ∷ e ∷ es) = (equal q k ≡ false) × AtEnd q (e ∷ es)

pub AtEnd-cons :
    (q k : Bytes) (v : ℤ) (es : Pairs)
    → equal q k ≡ false
    → (AtEnd q es → AtEnd q ((k, v) ∷ es)) × (AtEnd q ((k, v) ∷ es) → AtEnd q es)
AtEnd-cons q k v [] h = (λ a. tt, λ a. tt)
AtEnd-cons q k v (e ∷ es) h = (λ a. (h, a), λ a. a.1)

pub AtEnd-first :
    (q k : Bytes) (v : ℤ) (es : Pairs)
    → equal q k ≡ true
    → (es ≡ [] → AtEnd q ((k, v) ∷ es)) × (AtEnd q ((k, v) ∷ es) → es ≡ [])
AtEnd-first q k v [] h = (λ e. tt, λ a. refl)
AtEnd-first q k v (e ∷ es) h = (λ e. absurd (cc e), λ a. absurd (cc (a.0, h)))

abbrev pub first_of_two : Option ℤ → Option ℤ → Option ℤ
first_of_two none b = b
first_of_two (some a) b = some a

-- what `hashmap_get` makes of a missing key
abbrev pub or_zero : Option ℤ → ℤ
or_zero none = pos 0
or_zero (some v) = v

pub lookup-append :
    (q : Bytes) (a b : Pairs) → lookup q (a ++ b) ≡ first_of_two (lookup q a) (lookup q b)
unfolding lookup
lookup-append q [] b = refl
lookup-append q ((k, v) ∷ a) b = ground (arith, lookup-append q a b)

pub lookup-erase_ne :
    (q k : Bytes) (es : Pairs) → equal q k ≡ false → lookup q (erase k es) ≡ lookup q es
unfolding lookup erase
lookup-erase_ne q k [] h = refl
lookup-erase_ne q k ((j, v) ∷ es) h =
    ground (arith, equal_iff q k, equal_iff k j, equal_iff q j, lookup-erase_ne q k es)

-- every key stands once
abbrev pub Once : Pairs → Type 0
Once [] = Unit
Once ((k, v) ∷ es) = (lookup k es ≡ none) × Once es

pub lookup-erase : (k : Bytes) (es : Pairs) → Once es → lookup k (erase k es) ≡ none
unfolding lookup erase
lookup-erase k [] h = refl
lookup-erase k ((j, v) ∷ es) (new, h) = ground (arith, equal_iff k j, lookup-erase k es h)

pub Once-erase : (k : Bytes) (es : Pairs) → Once es → Once (erase k es)
unfolding lookup erase
Once-erase k [] h = tt
Once-erase k ((j, v) ∷ es) (new, h) =
    ground (arith, equal_iff j k, equal_iff k j, Once-erase k es h, lookup-erase_ne j k es)

pub Once-append :
    (es : Pairs) (k : Bytes) (v : ℤ) → Once es → lookup k es ≡ none → Once (es ++ (k, v) ∷ [])
unfolding lookup
Once-append [] k v h absent = (refl, tt)
Once-append ((j, w) ∷ es) k v (new, h) absent =
    ground
      (arith, equal_iff j k, equal_iff k j, Once-append es k v h, lookup-append j es ((k, v) ∷ []))
