-- ===== src/Threadpool.antt =====
-- src/threadpool.c: the slots of the pool, the calls that queue a job, and what its thread does.
-- `H` is the type of handlers and `C` that of pointers to a `struct core_ctx`. A job is what the
-- `args` of its slot point to; a slot whose `args` are null is `none`.
pub mod Slots
pub mod Queue
pub mod Faults
pub mod Command
use minervabot.Prelude.{
  ℕ, zero, suc, ◌+◌, ◌*◌, Bool, true, false, not, Option, none, some, List, [], ◌∷◌, ◌++◌, ltb,
  if◌then◌else◌, replicate, ℤ, is_zero,
}
use minervabot.Run.{Run, ok, fault, deadlock, ◌>>=◌}
use minervabot.CString.{Bytes, write}
use minervabot.Irc.{CommandSender, irc_parsesender}
use minervabot.Permissions.{Permissions, lock, permissions_get}
use minervabot.Bot.{Caller}

-- `cmd` has the handler, the command's name, its sender, where it was given and its arguments; the
-- number of `init` and `deinit` is the place of the context in `loaded`.
pub data Job (H C : Type 0) : Type 0 where
  cmd : H → Bytes → Bytes → Bytes → Bytes → Job H C
  init : H → C → ℕ → Job H C
  deinit : H → C → ℕ → Job H C

-- the globals; `pool_flags` is its lowest bit
pub record Threadpool (H C : Type 0) : Type 0 where
  pub pool : List (Option (Job H C))
  pub pool_len : ℕ
  pub pool_flags : Bool

-- which allocations and calls of pthread_create succeed
pub record Resources : Type 0 where
  pub realloc_ok : Bool
  pub malloc_ok : Bool
  pub create_ok : Bool

module _ {H C : Type 0} where
  -- `for (*n = 0; *n < pool_len; (*n)++)`, with the number of slots still to be read
  unfoldable pub first_free : List (Option (Job H C)) → ℕ → ℕ → Run ℕ
  first_free pool zero n = ok n
  first_free [] (suc k) n = fault
  first_free (none ∷ pool) (suc k) n = ok n
  first_free (some job ∷ pool) (suc k) n = first_free pool k (n + 1)

  -- `realloc` to twice the size; where it fails, the length is doubled and the flag set all the same
  unfoldable pub grow : Bool → Threadpool H C → Threadpool H C
  grow true s = record {
    pool = s.pool ++ replicate s.pool_len none;
    pool_len = s.pool_len * 2;
    pool_flags = false;
  }
  grow false s = record { pool = s.pool; pool_len = s.pool_len * 2; pool_flags = true }

  -- the index of the slot, or `none` for the return value -1
  unfoldable pub threadpool_queue_findspace :
      Bool → Threadpool H C → Run (Option ℕ × Threadpool H C)
  unfolding grow
  threadpool_queue_findspace realloc_ok s = do
    n ← first_free s.pool s.pool_len 0
    ok (
        if ltb n s.pool_len
        then (some n, s)
        else ((if realloc_ok then some n else none), grow realloc_ok s))

  -- `pool[n].args = job`
  unfoldable pub set_args : Threadpool H C → ℕ → Option (Job H C) → Run (Threadpool H C)
  set_args s n job = do pool ← write s.pool n job; ok (record s { pool = pool })

  -- The second part of the result is the slot whose thread has been started.
  unfoldable pub fill_slot :
      Resources → Option ℕ → Threadpool H C → Job H C → Run (Threadpool H C × Option ℕ)
  unfolding set_args
  fill_slot r none s job = ok (s, none)
  fill_slot r (some n) s job = do
    s' ← set_args s n (if r.malloc_ok then some job else none)
    ok (s', if r.malloc_ok then (if r.create_ok then some n else none) else none)

  unfoldable pub threadpool_queue_cmd :
      Resources
      → Threadpool H C
      → H
      → Bytes
      → Bytes
      → Bytes
      → Bytes
      → Run (Threadpool H C × Option ℕ)
  unfolding fill_slot
  threadpool_queue_cmd r s handler cmdname from where_ args = do
    (n, s') ← threadpool_queue_findspace r.realloc_ok s
    fill_slot r n s' (cmd handler cmdname from where_ args)

  unfoldable pub threadpool_queue_init :
      Resources → Threadpool H C → C → H → ℕ → Run (Threadpool H C × Option ℕ)
  unfolding fill_slot
  threadpool_queue_init r s ctx handler ctx_pos = do
    (n, s') ← threadpool_queue_findspace r.realloc_ok s
    fill_slot r n s' (init handler ctx ctx_pos)

  -- A thread of the pool is detached: `pthread_join` on it is undefined behaviour.
  unfoldable pub join_started : Bool → Threadpool H C × Option ℕ → Run (Threadpool H C × Option ℕ)
  join_started true (s, some n) = fault
  join_started wait (s, started) = ok (s, started)

  unfoldable pub threadpool_queue_deinit :
      Resources → Threadpool H C → H → C → ℕ → Bool → Run (Threadpool H C × Option ℕ)
  unfolding fill_slot join_started
  threadpool_queue_deinit r s handler ctx ctx_pos wait = do
    (n, s') ← threadpool_queue_findspace r.realloc_ok s
    queued ← fill_slot r n s' (deinit handler ctx ctx_pos)
    join_started wait queued

  -- The end of each wrapper, in the thread of slot `n`: it waits as long as the flag is set.
  unfoldable pub execution_done : Threadpool H C → ℕ → Run (Threadpool H C)
  unfolding set_args
  execution_done s n = if s.pool_flags then deadlock else set_args s n none

  -- the loop of `threadpool_waitall`, with the number of slots still to be read
  unfoldable pub join_all : List (Option (Job H C)) → ℕ → Run (List (Option (Job H C)))
  join_all pool zero = ok pool
  join_all [] (suc k) = fault
  join_all (none ∷ pool) (suc k) = do rest ← join_all pool k; ok (none ∷ rest)
  join_all (some job ∷ pool) (suc k) = fault

  unfoldable pub threadpool_waitall : Threadpool H C → Run (Threadpool H C)
  unfolding join_all
  threadpool_waitall s = do
    pool ← join_all s.pool s.pool_len
    ok (record { pool = pool; pool_len = s.pool_len; pool_flags = false })

  -- `pool` keeps pointing to what has been freed
  unfoldable pub threadpool_deinit : Threadpool H C → Run (Threadpool H C)
  threadpool_deinit s = do
    s' ← threadpool_waitall s
    ok (record { pool = []; pool_len = 8; pool_flags = s'.pool_flags })

  -- The first call, when `pool` is null and `pool_len` is 2; `none` is the return value -1.
  unfoldable pub threadpool_init : Bool → Option (Threadpool H C)
  threadpool_init true = some (record { pool = replicate 2 none; pool_len = 2; pool_flags = false })
  threadpool_init false = none

-- What the thread of a command does before the handler: `crashed` is a null pointer that is read, from
-- which the handler of SIGSEGV jumps to the end of the wrapper.
pub data Outcome : Type 0 where
  calls : Caller → Outcome
  crashed : Outcome

-- `permissions_get` locks the mutex before it reads the host
unfoldable pub look_up : Permissions → CommandSender → Option Bytes → Run (Outcome × Permissions)
look_up s sender none = do s' ← lock s; ok (crashed, s')
look_up s sender (some host) = do
  (level, s') ← permissions_get s host
  ok (calls (record { sender = sender; permission_level = level }), s')

unfoldable pub threadpool_wrapper_cmd : Permissions → Bytes → Run (Outcome × Permissions)
unfolding look_up
threadpool_wrapper_cmd s from = look_up s (irc_parsesender from) (irc_parsesender from).host

-- What the wrapper of an initialisation leaves in `*ctx_pos`: the handler's return value is `none`
-- where it crashed.
unfoldable pub threadpool_wrapper_init : {C : Type 0} → C → Option ℤ → Option C
threadpool_wrapper_init ctx none = none
threadpool_wrapper_init ctx (some ret) = if is_zero ret then some ctx else none
