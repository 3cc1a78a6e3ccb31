-- ===== src/Permissions/Search.antt =====
-- `permissions_get` finds the most specific mask of a host.
use minervabot.Prelude.{
  ℕ, zero, suc, ◌+◌, ◌≤◌, ◌<◌, ◌≡◌, refl, sym, ap, ◌∙◌, true, false, Option, [], ◌∷◌, ◌++◌, arith,
  ltb, if◌then◌else◌, length, take, length-append, inl, inr, Bool-cases, ℤ, pos, is_zero,
  length-take,
}
use minervabot.Run.{ok, ◌>>=◌}
use minervabot.CString.{Bytes, write, copy, string, terminated}
use minervabot.CString.Laws.{write-append}
use mathlib.Core.List.{append_assoc}
use minervabot.Crc8.Reference.{AreBytes}
use minervabot.Hashmap.Assoc.{Pairs, or_zero}
use minervabot.Hashmap.Refine.{Models, view, hashmap_get-view}
use minervabot.Hashmap.{Hashmap}
use minervabot.Permissions.{Permissions, search_masks, permissions_get}

-- the bytes of a C string: none is the null
abbrev pub IsText : Bytes → Type 0
IsText [] = Unit
IsText (c ∷ s) = (0 < c) × (c < 256) × IsText s

pub IsText-AreBytes : (s : Bytes) → IsText s → AreBytes s
IsText-AreBytes [] h = tt
IsText-AreBytes (c ∷ s) (p, q, h) = (q, IsText-AreBytes s h)

IsText-take : (n : ℕ) (s : Bytes) → IsText s → IsText (take n s)
IsText-take zero s h = tt
IsText-take (suc n) [] h = tt
IsText-take (suc n) (c ∷ s) (p, q, h) = (p, q, IsText-take n s h)

IsText-append : (s t : Bytes) → IsText s → IsText t → IsText (s ++ t)
IsText-append [] t h k = k
IsText-append (c ∷ s) t (p, q, h) k = (p, q, IsText-append s t h k)

pub string-append : (s rest : Bytes) → IsText s → string (s ++ 0 ∷ rest) ≡ ok s
unfolding string
string-append [] rest h = refl
string-append (c ∷ s) rest (p, q, h) = rw (string-append s rest h) (ground arith)

-- The level of the longest mask `prefix*` of the first `n` prefixes, the longest first.
unfoldable pub best_mask : (Bytes → Option ℤ) → Bytes → ℕ → ℤ
best_mask level host zero = pos 0
best_mask level host (suc n) =
    let v = or_zero (level (take n host ++ b'*' ∷ [])) in
    if is_zero v then best_mask level host n else v

-- The level of the host itself, or else that of its longest mask with a level other than 0.
abbrev pub best_match : (Bytes → Option ℤ) → Bytes → ℤ
best_match level host =
    let v = or_zero (level host) in if is_zero v then best_mask level host (length host + 1) else v

zero_or_itself : (v : ℤ) → v ≡ (if is_zero v then pos 0 else v)
unfolding is_zero
zero_or_itself v = ground arith

best_mask-suc :
    (level : Bytes → Option ℤ) (host : Bytes) (n : ℕ)
    → best_mask level host (suc n) ≡ (
        if is_zero (or_zero (level (take n host ++ b'*' ∷ [])))
        then best_mask level host n
        else or_zero (level (take n host ++ b'*' ∷ [])))
unfolding best_mask
best_mask-suc level host n = refl

best_mask_one :
    (level : Bytes → Option ℤ) (host : Bytes) → best_mask level host 1 ≡ or_zero (level (b'*' ∷ []))
unfolding best_mask
best_mask_one level host = sym (zero_or_itself _)

take_next : (n : ℕ) (s : Bytes) → n < length s → (c : ℕ) × (take (suc n) s ≡ take n s ++ c ∷ [])
take_next n [] h = absurd (omega arith)
take_next zero (c ∷ s) h = (c, refl)
take_next (suc n) (c ∷ s) h = let (d, e) = take_next n s (omega arith) in (d, ap (◌∷◌ c) e)

module _ {m : Hashmap} {pairs : ℕ → Pairs} (t : Models m pairs) (host : Bytes)
    (text : IsText host) where
  mask-IsText : (n : ℕ) → IsText (take n host ++ b'*' ∷ [])
  mask-IsText n =
      IsText-append (take n host) (b'*' ∷ []) (IsText-take n host text)
        (omega arith, omega arith, tt)

  write_mask :
      (n x y : ℕ) (rest : Bytes)
      → n ≤ length host
      → (write (take n host ++ x ∷ y ∷ rest) n b'*' ≡ ok (take n host ++ b'*' ∷ y ∷ rest))
        × (write (take n host ++ b'*' ∷ y ∷ rest) (n + 1) 0 ≡ ok (take n host ++ b'*' ∷ 0 ∷ rest))
  write_mask n x y rest le =
      let at_n : length (take n host) ≡ n = length-take n host ∙ omega arith in
      let starred : write (take n host ++ x ∷ y ∷ rest) n b'*'
          ≡ ok (take n host ++ b'*' ∷ y ∷ rest) =
        rw at_n at (write-append (take n host) (y ∷ rest) x b'*') in
      let behind : length (take n host ++ b'*' ∷ []) ≡ n + 1 =
        length-append (take n host) (b'*' ∷ []) ∙ omega arith in
      let ended = rw behind at (write-append (take n host ++ b'*' ∷ []) rest y 0) in
      (starred, simp append_assoc at ended)

  search_hit :
      (n : ℕ) (pbuf key : Bytes)
      → AreBytes key
      → string pbuf ≡ ok key
      → is_zero (or_zero (view pairs key)) ≡ false
      → search_masks m (suc n) pbuf ≡ ok (or_zero (view pairs key), pbuf)
  unfolding search_masks
  search_hit n pbuf key good at_key hit =
      rw at_key (rw (hashmap_get-view t key good) (rw (hit, ◌>>=◌)))

  search_miss :
      (n x y : ℕ) (rest key : Bytes)
      → n ≤ length host
      → AreBytes key
      → string (take n host ++ x ∷ y ∷ rest) ≡ ok key
      → is_zero (or_zero (view pairs key)) ≡ true
      → search_masks m (suc n) (take n host ++ x ∷ y ∷ rest)
        ≡ search_masks m n (take n host ++ b'*' ∷ 0 ∷ rest)
  unfolding search_masks
  search_miss n x y rest key le good at_key miss =
      let (starred, ended) = write_mask n x y rest le in
      rw at_key (rw (hashmap_get-view t key good) (rw (miss, ◌>>=◌) (rw starred (rw ended))))

  search_last :
      (pbuf key : Bytes)
      → AreBytes key
      → string pbuf ≡ ok key
      → search_masks m zero pbuf ≡ ok (or_zero (view pairs key), pbuf)
  unfolding search_masks
  search_last pbuf key good at_key = rw at_key (rw (hashmap_get-view t key good))

  -- `n` prefixes are left to try behind the string that the buffer holds
  search-best :
      (n : ℕ) (x y : ℕ) (rest key : Bytes)
      → n ≤ length host
      → IsText key
      → string (take n host ++ x ∷ y ∷ rest) ≡ ok key
      → (pbuf : Bytes) × (search_masks m (suc n) (take n host ++ x ∷ y ∷ rest)
          ≡ ok (
            (if is_zero (or_zero (view pairs key))
                then best_mask (view pairs) host (suc n)
                else or_zero (view pairs key)),
            pbuf,
          ))
        × (length pbuf ≡ length (take n host) + suc (suc (length rest)))
  search-best zero x y rest key le good at_key =
      elim (Bool-cases (is_zero (or_zero (view pairs key)))) [
        | inr hit ↦ (
          x ∷ y ∷ rest,
          search_hit 0 _ key (IsText-AreBytes key good) at_key hit ∙ rw hit,
          omega arith,
        )
        | inl miss ↦ (
          b'*' ∷ 0 ∷ rest,
          search_miss 0 x y rest key le (IsText-AreBytes key good) at_key miss
              ∙ search_last (b'*' ∷ 0 ∷ rest) (b'*' ∷ [])
                  (IsText-AreBytes (b'*' ∷ []) (mask-IsText 0))
                  (string-append (b'*' ∷ []) rest (mask-IsText 0))
              ∙ rw miss (ap (λ v. ok (v, b'*' ∷ 0 ∷ rest)) (sym (best_mask_one (view pairs) host))),
          omega arith,
        )
      ]
  search-best (suc n) x y rest key le good at_key =
      elim (Bool-cases (is_zero (or_zero (view pairs key)))) [
        | inr hit ↦ (
          take (suc n) host ++ x ∷ y ∷ rest,
          search_hit (suc n) _ key (IsText-AreBytes key good) at_key hit ∙ rw hit,
          length-append (take (suc n) host) (x ∷ y ∷ rest),
        )
        | inl miss ↦
            let mask = take (suc n) host ++ b'*' ∷ [] in
            let (c, e) = take_next n host (omega arith) in
            let layout : (z : ℕ) (l : Bytes)
                → take (suc n) host ++ z ∷ l ≡ take n host ++ c ∷ z ∷ l =
              λ z l. ap (λ p. p ++ z ∷ l) e ∙ append_assoc (take n host) (c ∷ []) (z ∷ l) in
            let at_mask : string (take n host ++ c ∷ b'*' ∷ 0 ∷ rest) ≡ ok mask =
              ap string (
                sym (layout b'*' (0 ∷ rest))
                ∙ sym (append_assoc (take (suc n) host) (b'*' ∷ []) (0 ∷ rest)))
              ∙ string-append mask rest (mask-IsText (suc n)) in
            let (pbuf, run, size) =
              search-best n c b'*' (0 ∷ rest) mask (omega arith) (mask-IsText (suc n)) at_mask in
            (
              pbuf,
              search_miss (suc n) x y rest key le (IsText-AreBytes key good) at_key miss
                  ∙ ap (search_masks m (suc n)) (layout b'*' (0 ∷ rest))
                  ∙ run
                  ∙ rw miss
                      (ap (λ v. ok (v, pbuf)) (sym (best_mask-suc (view pairs) host (suc n)))),
              omega (arith, size, length-take n host, length-take (suc n) host),
            )
      ]

take_all : (s : Bytes) → take (length s) s ≡ s
take_all [] = refl
take_all (c ∷ s) = ap (◌∷◌ c) (take_all s)

copy-terminated :
    (pbuf s : Bytes)
    → length s + 2 ≤ length pbuf
    → (y : ℕ) × (rest : Bytes) × (copy pbuf (terminated s) ≡ ok (s ++ 0 ∷ y ∷ rest))
      × (length pbuf ≡ length s + suc (suc (length rest)))
unfolding copy
copy-terminated [] s h = absurd (omega arith)
copy-terminated (x ∷ []) s h = absurd (omega arith)
copy-terminated (x ∷ y ∷ rest) [] h = (y, rest, refl, omega arith)
copy-terminated (x ∷ y ∷ p) (c ∷ s) h =
    let (z, rest, e, size) = copy-terminated (y ∷ p) s (omega arith) in (z, rest, rw e, omega arith)

-- With the mutex free and the buffer of 128 bytes, `permissions_get` of a host of at most 126 bytes
-- returns the level of the host, or where that is 0 the level of the longest mask `prefix*` that has
-- one, down to `*`. It leaves the map and the mutex as they were, and the buffer at its size.
pub permissions_get-best_match :
    (s : Permissions) {pairs : ℕ → Pairs} (host : Bytes)
    → Models s.perm_map pairs
    → s.locked ≡ false
    → length s.pbuf ≡ 128
    → IsText host
    → length host ≤ 126
    → (s' : Permissions) × (permissions_get s host ≡ ok (best_match (view pairs) host, s'))
      × (s'.perm_map ≡ s.perm_map)
      × (s'.locked ≡ false)
      × (length s'.pbuf ≡ 128)
unfolding permissions_get
permissions_get-best_match s {pairs} host t free size text short =
    let (y, rest, copied, room) = copy-terminated s.pbuf host (omega arith) in
    let whole : host ++ 0 ∷ y ∷ rest ≡ take (length host) host ++ 0 ∷ y ∷ rest =
      ap (λ h. h ++ 0 ∷ y ∷ rest) (sym (take_all host)) in
    let at_key : string (take (length host) host ++ 0 ∷ y ∷ rest) ≡ ok host =
      ap string (sym whole) ∙ string-append host (y ∷ rest) text in
    let (pbuf, run, size') =
      search-best t host text (length host) 0 y rest host (omega arith) text at_key in
    let len : length host + 1 ≡ suc (length host) = omega arith in
    let fits : ltb 128 (length host) ≡ false = ground arith in
    (
      record { perm_map = s.perm_map; locked = false; pbuf = pbuf },
      simp (free, fits) (rw copied (rw (len, whole) (rw run))),
      refl,
      refl,
      omega (arith, size', length-take (length host) host),
    )
