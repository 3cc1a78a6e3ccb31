-- ===== src/Threadpool/Faults.antt =====
-- Where the pool and its threads go wrong: no memory, a wait for detached threads, a sender of no host.
use minervabot.Prelude.{
  ℕ, zero, suc, ◌+◌, ◌*◌, ◌≤◌, ◌<◌, ◌≡◌, refl, sym, ap, ◌∙◌, Bool, true, false, Option, none, some,
  List, [], ◌∷◌, ◌++◌, arith, ltb, length, ℤ,
}
use minervabot.Run.{ok, fault, deadlock, ◌>>=◌}
use minervabot.CString.{Bytes}
use minervabot.Irc.Sender.{Lacks, irc_parsesender_parts}
use minervabot.Permissions.{Memory, Permissions, permissions_set, permissions_get}
use minervabot.Threadpool.{
  Job, Threadpool, first_free, grow, threadpool_queue_findspace, execution_done, crashed, look_up,
  threadpool_wrapper_cmd,
}
use minervabot.Threadpool.Slots.{IsPool}

not_below : (i n : ℕ) → n ≤ i → ltb i n ≡ false
not_below i n h = ground arith

module _ {H C : Type 0} where
  -- every slot has a job
  abbrev pub AllBusy : List (Option (Job H C)) → Type 0
  AllBusy [] = Unit
  AllBusy (none ∷ pool) = ⊥
  AllBusy (some job ∷ pool) = AllBusy pool

  first_free-AllBusy :
      (pool : List (Option (Job H C))) (k n : ℕ)
      → AllBusy pool
      → (k ≡ length pool → first_free pool k n ≡ ok (n + k))
        × (length pool < k → first_free pool k n ≡ fault)
  unfolding first_free
  first_free-AllBusy [] zero n busy = (λ e. ap ok (omega arith), λ lt. absurd (omega arith))
  first_free-AllBusy [] (suc k) n busy = (λ e. absurd (omega arith), λ lt. refl)
  first_free-AllBusy (none ∷ pool) k n busy = absurd busy
  first_free-AllBusy (some job ∷ pool) zero n busy =
      (λ e. absurd (omega arith), λ lt. absurd (omega arith))
  first_free-AllBusy (some job ∷ pool) (suc k) n busy =
      let (all, over) = first_free-AllBusy pool k (n + 1) busy in
      (λ e. all (omega arith) ∙ ap ok (omega arith), λ lt. over (omega arith))

  execution_done-set :
      (s : Threadpool H C) (n : ℕ) → s.pool_flags ≡ true → execution_done s n ≡ deadlock
  unfolding execution_done
  execution_done-set s n h = simp h

  -- In a pool in order with a job in every slot, a failed realloc leaves a pool from which nothing
  -- recovers: no thread ever frees its slot, and the next search for a slot reads behind the pool.
  pub findspace-out_of_memory :
      (s : Threadpool H C)
      → IsPool s
      → AllBusy s.pool
      → (s' : Threadpool H C) × (threadpool_queue_findspace false s ≡ ok (none, s'))
        × ((n : ℕ) → execution_done s' n ≡ deadlock)
        × ((realloc_ok : Bool) → threadpool_queue_findspace realloc_ok s' ≡ fault)
  unfolding threadpool_queue_findspace grow
  findspace-out_of_memory s h busy =
      let full = (first_free-AllBusy s.pool s.pool_len 0 busy).0 (sym h.size) in
      let s' : Threadpool H C = record {
        pool = s.pool;
        pool_len = s.pool_len * 2;
        pool_flags = true;
      } in
      let over =
        (first_free-AllBusy s.pool (s.pool_len * 2) 0 busy).1
          (omega (arith, h.size, h.some_slot)) in
      (
        s',
        rw (full, ◌>>=◌) (rw (not_below (0 + s.pool_len) s.pool_len (omega arith))),
        λ n. execution_done-set s' n refl,
        λ realloc_ok. rw (over, ◌>>=◌) refl,
      )

-- A sender with no `!`, or with one and no `@` behind it, has no host: where the mutex is free, the
-- thread crashes with the mutex held, and from then on every look at a level and every change waits
-- for ever.
pub threadpool_wrapper_cmd_no_host :
    (s : Permissions) (nick ident : Bytes)
    → s.locked ≡ false
    → Lacks b'!' nick
    → Lacks b'@' ident
    → (s' : Permissions) × (threadpool_wrapper_cmd s nick ≡ ok (crashed, s'))
      × (threadpool_wrapper_cmd s (nick ++ b'!' ∷ ident) ≡ ok (crashed, s'))
      × ((host : Bytes) → permissions_get s' host ≡ deadlock)
      × ((mem : Memory) (host : Bytes) (level : ℤ) → permissions_set mem s' host level ≡ deadlock)
unfolding threadpool_wrapper_cmd look_up permissions_get permissions_set
threadpool_wrapper_cmd_no_host s nick ident free n i =
    let (_, no_host, no_ident) = irc_parsesender_parts nick ident [] n i in
    (
      record { perm_map = s.perm_map; locked = true; pbuf = s.pbuf },
      rw no_ident (simp free),
      rw no_host (simp free),
      λ host. refl,
      λ mem host level. refl,
    )
