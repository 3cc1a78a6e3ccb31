-- ===== src/Permissions/Hazards.antt =====
-- Where src/permissions.c does not keep its promise: hosts that are too long, levels of 0, and hosts that are not the last
-- of their bucket.
use minervabot.Prelude.{
  ℕ, ◌<◌, ◌≡◌, refl, ap, ◌∙◌, true, false, some, [], ◌∷◌, ◌++◌, arith, ltb, length, length-append,
  ℤ, pos, is_zero,
}
use minervabot.Run.{ok, fault, deadlock, ◌>>=◌}
use minervabot.CString.{Bytes, terminated}
use minervabot.CString.Laws.{copy-overrun}
use minervabot.Crc8.Reference.{AreBytes}
use minervabot.Hashmap.Assoc.{Pairs, or_zero, AtEnd}
use minervabot.Hashmap.Refine.{
  Models, view, replace, hashmap_get-view, hashmap_put-Models, view_added, HasRoom,
  hashmap_remove-overlap,
}
use minervabot.Hashmap.{hash, hashmap_get}
use minervabot.Permissions.Update.{enough, IsRecord}
use minervabot.Permissions.{Memory, Permissions, drop_old, permissions_set, permissions_get}

-- `permissions_get` of a host of more than 128 bytes answers 0 and keeps the mutex: from then on
-- every call of `permissions_get` or `permissions_set`, for any host, waits for ever.
pub permissions_get-held :
    (s : Permissions) (host : Bytes)
    → s.locked ≡ false
    → 128 < length host
    → (s' : Permissions) × (permissions_get s host ≡ ok (pos 0, s'))
      × ((q : Bytes) → permissions_get s' q ≡ deadlock)
      × ((mem : Memory) (q : Bytes) (level : ℤ) → permissions_set mem s' q level ≡ deadlock)
unfolding permissions_get permissions_set
permissions_get-held s host free long =
    let over : ltb 128 (length host) ≡ true = ground arith in
    (record s { locked = true }, simp (free, over), λ q. refl, λ mem q level. refl)

-- A host of exactly 128 bytes passes the length check, and copying it with its null runs over the
-- end of the buffer.
pub permissions_get-overrun :
    (s : Permissions) (host : Bytes)
    → s.locked ≡ false
    → length s.pbuf ≡ 128
    → length host ≡ 128
    → permissions_get s host ≡ fault
unfolding permissions_get
permissions_get-overrun s host free size len =
    let within : ltb 128 (length host) ≡ false = ground arith in
    simp (free, within) (rw (copy-overrun s.pbuf (terminated host) longer))
  where
    longer : length s.pbuf < length (terminated host)
    longer = omega (arith, length-append host (0 ∷ []))

-- Where a host is on record with another one behind it in its bucket, which has a slot to spare, and the mutex
-- is free, `permissions_set` with any level is undefined: it copies entries onto others that they overlap.
pub permissions_set-overlap :
    (mem : Memory) (s : Permissions) {pairs : ℕ → Pairs} (host : Bytes) (level : ℤ)
    → s.locked ≡ false
    → IsRecord s.perm_map pairs
    → AreBytes host
    → HasRoom s.perm_map host
    → is_zero (or_zero (view pairs host)) ≡ false
    → (AtEnd host (pairs (hash host)) → ⊥)
    → permissions_set mem s host level ≡ fault
unfolding permissions_set drop_old
permissions_set-overlap mem s {pairs} host level free t bytes room known not_last = simp free (
    rw (hashmap_get-view t.models host bytes)
      (rw (known, ◌>>=◌) (rw (hashmap_remove-overlap t.models host bytes room not_last) refl)))

-- Once a host has the level 0 on record, `permissions_set` with any level returns and frees the
-- mutex, but `hashmap_get` still reads 0 for the host, and the level 0 stays on record, so that the
-- next call does no better.
pub permissions_set-zero :
    (s : Permissions) {pairs : ℕ → Pairs} (host : Bytes) (level : ℤ)
    → s.locked ≡ false
    → Models s.perm_map pairs
    → AreBytes host
    → length (pairs (hash host)) < 32768
    → view pairs host ≡ some (pos 0)
    → (s' : Permissions) × (permissions_set enough s host level ≡ ok s')
      × (s'.locked ≡ false)
      × (hashmap_get s'.perm_map host ≡ ok (pos 0))
      × (pairs' : ℕ → Pairs) × Models s'.perm_map pairs'
      × (view pairs' host ≡ some (pos 0))
unfolding permissions_set
permissions_set-zero s {pairs} host level free t bytes small zero_level =
    let (m, run, t') = hashmap_put-Models t host bytes level small in
    let got : hashmap_get s.perm_map host ≡ ok (pos 0) =
      hashmap_get-view t host bytes ∙ ap (λ o. ok (or_zero o)) zero_level in
    let still : view (replace pairs (hash host) (pairs (hash host) ++ (host, level) ∷ [])) host
        ≡ some (pos 0) =
      view_added pairs host host level ∙ rw zero_level in
    let z : is_zero (pos 0) ≡ true = unfold is_zero in refl in
    (
      record { perm_map = m; locked = false; pbuf = s.pbuf },
      simp free (rw got (rw (z, ◌>>=◌) (rw run))),
      refl,
      hashmap_get-view t' host bytes ∙ ap (λ o. ok (or_zero o)) still,
      replace pairs (hash host) (pairs (hash host) ++ (host, level) ∷ []),
      t',
      still,
    )
