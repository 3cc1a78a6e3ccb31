-- ===== src/Permissions.antt =====
-- src/permissions.c: the levels of hosts, behind a mutex, with a scratch buffer for masks.
-- Logging is left out. `Memory` says whether the allocations of a call succeed.
pub mod Search
pub mod Update
pub mod Contract
pub mod Hazards
use minervabot.Prelude.{
  ℕ, zero, suc, ◌+◌, Bool, true, false, Option, none, some, List, [], ◌∷◌, ◌++◌, ltb, if◌then◌else◌,
  length, ℤ, pos, is_zero,
}
use minervabot.Run.{Run, ok, fault, deadlock, ◌>>=◌}
use minervabot.CString.{Bytes, write, copy, string, terminated}
use minervabot.Hashmap.{
  Hashmap, hashmap_new, hashmap_put, hashmap_remove, hashmap_get, hashmap_destroy,
}

pub record Memory : Type 0 where
  pub realloc_ok : Bool
  pub strdup_ok : Bool

-- the globals: `locked` is the state of `permissions_mutex`
pub record Permissions : Type 0 where
  pub perm_map : Hashmap
  pub locked : Bool
  pub pbuf : Bytes

-- `pthread_mutex_lock` waits as long as the mutex is held
abbrev pub lock : Permissions → Run Permissions
lock s = if s.locked then deadlock else ok (record s { locked = true })

abbrev pub unlock : Permissions → Permissions
unlock s = record s { locked = false }

-- the owner's host is `getenv("BOT_OWNER_HOST")`; `none` is the return value -1
put_owner : Memory → Hashmap → Option Bytes → Run Hashmap
put_owner mem m none = ok m
put_owner mem m (some owner_host) =
    hashmap_put mem.realloc_ok mem.strdup_ok m owner_host (pos 100000)

init_with : Memory → Option Bytes → Option Hashmap → Run (Option Hashmap)
unfolding put_owner
init_with mem owner none = ok none
init_with mem owner (some m) = do m' ← put_owner mem m owner; ok (some m')

unfoldable pub permissions_init : Bool → Bool → Memory → Option Bytes → Run (Option Hashmap)
unfolding init_with
permissions_init ret_ok buckets_ok mem owner = init_with mem owner (hashmap_new ret_ok buckets_ok)

-- `if (hashmap_get(perm_map, host) != 0) hashmap_remove(perm_map, host);`
drop_old : Hashmap → Bytes → Run Hashmap
drop_old m host = do
  level ← hashmap_get m host
  elim (is_zero level) [ true ↦ ok m | false ↦ do (m', old) ← hashmap_remove m host; ok m' ]

unfoldable pub permissions_set : Memory → Permissions → Bytes → ℤ → Run Permissions
unfolding drop_old
permissions_set mem s host level = do
  s' ← lock s
  dropped ← drop_old s'.perm_map host
  m ← hashmap_put mem.realloc_ok mem.strdup_ok dropped host level
  ok (unlock (record s' { perm_map = m }))

-- the `while` loop, `n` is `len + 1`: it ends at the latest when `len` is -1
unfoldable pub search_masks : Hashmap → ℕ → Bytes → Run (ℤ × Bytes)
search_masks m zero pbuf = do key ← string pbuf; perm ← hashmap_get m key; ok (perm, pbuf)
search_masks m (suc len) pbuf = do
  key ← string pbuf
  perm ← hashmap_get m key
  elim (is_zero perm) [
    | false ↦ ok (perm, pbuf)
    | true ↦ do
      starred ← write pbuf len b'*'
      ended ← write starred (len + 1) 0
      search_masks m len ended
  ]

-- A host of more than 128 bytes is left with the mutex held.
unfoldable pub permissions_get : Permissions → Bytes → Run (ℤ × Permissions)
permissions_get s host = do
  s' ← lock s
  if ltb 128 (length host) then ok (pos 0, s') else do
    pbuf ← copy s'.pbuf (terminated host)
    (perm, pbuf') ← search_masks s'.perm_map (length host + 1) pbuf
    ok (perm, unlock (record s' { pbuf = pbuf' }))

unfoldable pub permissions_cleanup : Permissions → Run {0} Unit
permissions_cleanup s = hashmap_destroy s.perm_map
