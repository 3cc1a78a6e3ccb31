-- ===== src/Threadpool/Slots.antt =====
-- The pool as a table of slots: a job is queued in a free one, and all others keep theirs.
use minervabot.Prelude.{
  ℕ, zero, suc, ◌+◌, ◌*◌, ◌≤◌, ◌<◌, ◌≡◌, ◌≢◌, refl, sym, ap, ◌∙◌, true, false, Option, none, some,
  List, [], ◌∷◌, ◌++◌, arith, ltb, length, length-append, length-set, length-replicate, replicate,
  set, get_elem?, get_elem?-set_self, get_elem?-set_ne, lt→ltb, inl, inr, ◌⊎◌,
}
use minervabot.Run.{ok, ◌>>=◌}
use minervabot.CString.{Bytes}
use minervabot.CString.Laws.{write-set}
use minervabot.Threadpool.{
  Job, cmd, Threadpool, first_free, grow, threadpool_queue_findspace, set_args, fill_slot,
  threadpool_queue_cmd, execution_done,
}

not_below : (i n : ℕ) → n ≤ i → ltb i n ≡ false
not_below i n h = ground arith

module _ {H C : Type 0} where
  -- A pool in order: as many slots as it says, at least one, and the flag is clear.
  pub record IsPool (s : Threadpool H C) : Type 0 where
    pub size : length s.pool ≡ s.pool_len
    pub some_slot : 0 < s.pool_len
    pub clear : s.pool_flags ≡ false

  abbrev pub AllTaken : List (Option (Job H C)) → Type 0
  AllTaken pool = (i : ℕ) → get_elem? pool i ≢ some none

  -- the first free slot, or the length of a pool with no free one
  abbrev pub IsFree : List (Option (Job H C)) → ℕ → Type 0
  IsFree pool n = (n < length pool) × (get_elem? pool n ≡ some none)

  later-IsFree :
      (job : Job H C) (pool : List (Option (Job H C))) (i : ℕ)
      → IsFree pool i ⊎ ((i ≡ length pool) × AllTaken pool)
      → IsFree (some job ∷ pool) (suc i)
        ⊎ ((suc i ≡ suc (length pool)) × AllTaken (some job ∷ pool))
  later-IsFree job pool i (inl (lt, at)) = inl (omega arith, at)
  later-IsFree job pool i (inr (e, taken)) = inr (omega arith, λ j. taken_here j)
    where
      taken_here : (j : ℕ) → get_elem? (some job ∷ pool) j ≢ some none
      taken_here zero h = cc h
      taken_here (suc j) h = taken j h

  first_free-IsFree :
      (pool : List (Option (Job H C))) (n : ℕ)
      → (i : ℕ) × (first_free pool (length pool) n ≡ ok (n + i))
        × (IsFree pool i ⊎ ((i ≡ length pool) × AllTaken pool))
  unfolding first_free
  first_free-IsFree [] n = (0, ap ok (omega arith), inr (refl, λ i h. cc h))
  first_free-IsFree (none ∷ pool) n = (0, ap ok (omega arith), inl (omega arith, refl))
  first_free-IsFree (some job ∷ pool) n =
      let (i, run, found) = first_free-IsFree pool (n + 1) in
      (suc i, run ∙ ap ok (omega arith), later-IsFree job pool i found)

  abbrev pub Kept : Threadpool H C → Threadpool H C → ℕ → Type 0
  Kept s s' n =
      (i : ℕ) (job : Job H C)
      → i ≢ n
      → get_elem? s.pool i ≡ some (some job)
      → get_elem? s'.pool i ≡ some (some job)

  -- Where the job is put: in a slot that was free, the pool keeping its size, or, in a pool with no free slot, in
  -- the first of as many new ones.
  abbrev pub RoomAt : Threadpool H C → Threadpool H C → ℕ → Type 0
  RoomAt s s' n =
      ((get_elem? s.pool n ≡ some none) × (s'.pool_len ≡ s.pool_len))
      ⊎ (((i : ℕ) → get_elem? s.pool i ≢ some none)
          × (n ≡ s.pool_len)
          × (s'.pool_len ≡ s.pool_len * 2))

  get_elem?-append :
      (p q : List (Option (Job H C))) (i : ℕ) {x : Option (Job H C)}
      → get_elem? p i ≡ some x
      → get_elem? (p ++ q) i ≡ some x
  get_elem?-append [] q i h = absurd (cc h)
  get_elem?-append (y ∷ p) q zero h = h
  get_elem?-append (y ∷ p) q (suc i) h = get_elem?-append p q i h

  get_elem?-middle :
      (p q : List (Option (Job H C))) (x : Option (Job H C))
      → get_elem? (p ++ x ∷ q) (length p) ≡ some x
  get_elem?-middle [] q x = refl
  get_elem?-middle (y ∷ p) q x = get_elem?-middle p q x

  get_elem?-grown :
      (p : List (Option (Job H C))) (k : ℕ)
      → 0 < k
      → get_elem? (p ++ replicate k none) (length p) ≡ some none
  get_elem?-grown p zero h = absurd (omega arith)
  get_elem?-grown p (suc k) h = get_elem?-middle p (replicate k none) none

  -- a free slot is found, or made
  pub findspace-IsPool :
      (s : Threadpool H C)
      → IsPool s
      → (n : ℕ) × (s' : Threadpool H C) × (threadpool_queue_findspace true s ≡ ok (some n, s'))
        × IsPool s'
        × IsFree s'.pool n
        × Kept s s' n
        × RoomAt s s' n
  unfolding threadpool_queue_findspace grow
  findspace-IsPool s h =
      let (i, run, found) = first_free-IsFree s.pool 0 in
      let run' : first_free s.pool s.pool_len 0 ≡ ok i =
        ap (λ k. first_free s.pool k 0) (sym h.size) ∙ run ∙ ap ok (omega arith) in
      elim found [
        | inl (lt, at) ↦ (
          i,
          s,
          rw (run', ◌>>=◌) (rw (lt→ltb i s.pool_len (omega (arith, h.size)))),
          h,
          (lt, at),
          λ j job ne e. e,
          inl (at, refl),
        )
        | inr (full, taken) ↦ (
          i,
          record {
            pool = s.pool ++ replicate s.pool_len none;
            pool_len = s.pool_len * 2;
            pool_flags = false;
          },
          rw (run', ◌>>=◌) (rw (not_below i s.pool_len (omega (arith, h.size)))),
          record {
            size =
                length-append s.pool (replicate s.pool_len none)
                ∙ omega (arith, h.size, length-replicate {A = Option (Job H C)} s.pool_len none);
            some_slot = omega (arith, h.some_slot);
            clear = refl;
          },
          (
            omega (
              arith,
              h.size,
              h.some_slot,
              length-append s.pool (replicate s.pool_len none),
              length-replicate {A = Option (Job H C)} s.pool_len none,
            ),
            ap (get_elem? (s.pool ++ replicate s.pool_len none)) full
                ∙ get_elem?-grown s.pool s.pool_len h.some_slot,
          ),
          λ j job ne e. get_elem?-append s.pool (replicate s.pool_len none) j e,
          inr (taken, full ∙ h.size, refl),
        )
      ]

  pub set_args-IsPool :
      (s : Threadpool H C) (n : ℕ) (slot : Option (Job H C))
      → IsPool s
      → n < length s.pool
      → (s' : Threadpool H C) × (set_args s n slot ≡ ok s')
        × IsPool s'
        × (get_elem? s'.pool n ≡ some slot)
        × Kept s s' n
        × (s'.pool_len ≡ s.pool_len)
  unfolding set_args
  set_args-IsPool s n slot h lt = (
    record { pool = set s.pool n slot; pool_len = s.pool_len; pool_flags = s.pool_flags },
    rw (write-set s.pool n slot lt, ◌>>=◌) refl,
    record { size = length-set s.pool n slot ∙ h.size; some_slot = h.some_slot; clear = h.clear },
    get_elem?-set_self s.pool n slot lt,
    λ i job ne e. get_elem?-set_ne s.pool slot (λ same. ne (sym same)) ∙ e,
    refl,
  )

  RoomAt-same_size :
      (s s₁ s₂ : Threadpool H C) (n : ℕ) → s₂.pool_len ≡ s₁.pool_len → RoomAt s s₁ n → RoomAt s s₂ n
  RoomAt-same_size s s₁ s₂ n same (inl (at, size)) = inl (at, same ∙ size)
  RoomAt-same_size s s₁ s₂ n same (inr (taken, first, size)) = inr (taken, first, same ∙ size)

  pub execution_done-clear :
      (s : Threadpool H C) (n : ℕ) → s.pool_flags ≡ false → execution_done s n ≡ set_args s n none
  unfolding execution_done
  execution_done-clear s n h = simp h

  -- Where allocations and pthread_create succeed, a pool in order queues a command in a slot that was
  -- free, or, if none was, in the first slot behind the old ones of a pool of twice the size: the slot's thread is started, every other job keeps its slot,
  -- and the pool is in order again. When the thread ends, it frees its slot and no other.
  pub threadpool_queue_cmd-execution_done :
      (s : Threadpool H C) (handler : H) (cmdname from where_ args : Bytes)
      → IsPool s
      → (s' s'' : Threadpool H C) × (n : ℕ) × (threadpool_queue_cmd
            (record { realloc_ok = true; malloc_ok = true; create_ok = true })
            s
            handler
            cmdname
            from
            where_
            args
          ≡ ok (s', some n))
        × IsPool s'
        × (get_elem? s'.pool n ≡ some (some (cmd handler cmdname from where_ args)))
        × Kept s s' n
        × RoomAt s s' n
        × (execution_done s' n ≡ ok s'')
        × IsPool s''
        × (get_elem? s''.pool n ≡ some none)
        × Kept s' s'' n
  unfolding threadpool_queue_cmd fill_slot
  threadpool_queue_cmd-execution_done s handler cmdname from where_ args h =
      let (n, s₁, found, h₁, (lt, at), kept₁, room) = findspace-IsPool s h in
      let (s₂, put, h₂, here, kept₂, same_size) =
        set_args-IsPool s₁ n (some (cmd handler cmdname from where_ args)) h₁ lt in
      let (s₃, freed, h₃, empty, kept₃, _) = set_args-IsPool s₂ n none h₂ (inside s₂.pool n here) in
      (
        s₂,
        s₃,
        n,
        rw (found, ◌>>=◌) (rw (put, ◌>>=◌) refl),
        h₂,
        here,
        λ i job ne e. kept₂ i job ne (kept₁ i job ne e),
        RoomAt-same_size s s₁ s₂ n same_size room,
        execution_done-clear s₂ n h₂.clear ∙ freed,
        h₃,
        empty,
        kept₃,
      )
    where
      inside :
          (p : List (Option (Job H C))) (i : ℕ) {x : Option (Job H C)}
          → get_elem? p i ≡ some x
          → i < length p
      inside [] i e = absurd (cc e)
      inside (y ∷ p) zero e = omega arith
      inside (y ∷ p) (suc i) e = let r = inside p i e in omega arith
