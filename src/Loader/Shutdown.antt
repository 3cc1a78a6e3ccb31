-- ===== src/Loader/Shutdown.antt =====
-- `modules_deinit` of src/modules.c, at the end of the program.
use minervabot.Prelude.{
  ℕ, zero, suc, ◌+◌, ◌≤◌, ◌<◌, ◌≡◌, ◌≢◌, refl, sym, ap, ◌∙◌, true, false, Option, none, some, List,
  [], ◌∷◌, arith, length, length-set, set, get_elem?, get_elem?-set_ne,
}
use minervabot.Run.{ok, ◌>>=◌}
use minervabot.CString.{codes}
use minervabot.CString.Laws.{read-get_elem?, write-set}
use minervabot.Commands.{modules_cmds_clean}
use minervabot.Threadpool.{
  Job, Threadpool, Resources, join_all, threadpool_waitall, threadpool_deinit,
}
use minervabot.Loader.{
  CoreCtx, LoadedSlot, unused, live, freed, Linker, Loader, lock_loaded, unlock_loaded, dlclose,
  modules_unloadmod,
}
use minervabot.Loader.Scan.{unload_slot, unload_from, modules_unloadall, modules_deinit}

module _ {L H : Type 0} (linker : Linker L H) (r : ℕ → Resources) where
  -- no module, or one that brings no clean-up
  abbrev pub Quiet : LoadedSlot L → Type 0
  Quiet unused = Unit
  Quiet (live ctx) = linker.dlsym ctx.dlsym (codes "module_cleanup") ≡ none
  Quiet freed = ⊥

  abbrev pub NoJobs : List (Option (Job H (CoreCtx L))) → Type 0
  NoJobs [] = Unit
  NoJobs (none ∷ pool) = NoJobs pool
  NoJobs (some job ∷ pool) = ⊥

  -- No thread is running, no module has a clean-up, and the mutex is free.
  pub record IsQuiet (s : Loader L H) : Type 0 where
    pub free : s.locked ≡ false
    pub size : length s.loaded ≡ s.loaded_len
    pub slots : (i : ℕ) (slot : LoadedSlot L) → get_elem? s.loaded i ≡ some slot → Quiet slot
    pub pool_size : length s.threads.pool ≡ s.threads.pool_len
    pub no_jobs : NoJobs s.threads.pool

  join_all-NoJobs :
      (pool : List (Option (Job H (CoreCtx L))))
      → NoJobs pool
      → join_all pool (length pool) ≡ ok pool
  unfolding join_all
  join_all-NoJobs [] h = refl
  join_all-NoJobs (none ∷ pool) h = rw (join_all-NoJobs pool h, ◌>>=◌) refl
  join_all-NoJobs (some job ∷ pool) h = absurd h

  slot_at :
      (loaded : List (LoadedSlot L)) (i : ℕ)
      → i < length loaded
      → (slot : LoadedSlot L) × (get_elem? loaded i ≡ some slot)
  slot_at [] i lt = absurd (omega arith)
  slot_at (x ∷ loaded) zero lt = (x, refl)
  slot_at (x ∷ loaded) (suc i) lt = slot_at loaded i (omega arith)

  -- A slot without a clean-up: no thread is started, and the other slots stay as they are.
  unload_slot-Quiet :
      (s : Loader L H) (i : ℕ) (slot : LoadedSlot L)
      → i < length s.loaded
      → Quiet slot
      → (s' : Loader L H) × (unload_slot linker (r i) s i slot ≡ ok s')
        × (length s'.loaded ≡ length s.loaded)
        × (s'.threads ≡ s.threads)
        × ((j : ℕ) → j ≢ i → get_elem? s'.loaded j ≡ get_elem? s.loaded j)
  unfolding unload_slot modules_unloadmod dlclose
  unload_slot-Quiet s i unused lt quiet = (s, refl, refl, refl, λ j ne. refl)
  unload_slot-Quiet s i (live ctx) lt quiet = (
    dlclose (record s { loaded = set s.loaded i freed }) ctx.dlsym,
    rw (quiet, unload_slot, modules_unloadmod) (rw (write-set s.loaded i freed lt, ◌>>=◌) refl),
    length-set s.loaded i freed,
    refl,
    λ j ne. get_elem?-set_ne s.loaded freed (λ e. ne (sym e)),
  )
  unload_slot-Quiet s i freed lt quiet = absurd quiet

  -- the loop over the rest of the array
  unload_from-Quiet :
      (k i : ℕ) (s : Loader L H)
      → i + k ≡ length s.loaded
      → ((j : ℕ) (slot : LoadedSlot L) → i ≤ j → get_elem? s.loaded j ≡ some slot → Quiet slot)
      → (s' : Loader L H) × (unload_from linker r k i s ≡ ok s') × (s'.threads ≡ s.threads)
  unfolding unload_from
  unload_from-Quiet zero i s e quiet = (s, refl, refl)
  unload_from-Quiet (suc k) i s e quiet =
      let (slot, at) = slot_at s.loaded i (omega arith) in
      let (s₁, run₁, size, threads₁, others) =
        unload_slot-Quiet s i slot (omega arith) (quiet i slot (omega arith) at) in
      let (s₂, run₂, threads₂) =
        unload_from-Quiet k (i + 1) s₁ (omega (arith, size)) (λ j slot' after at'.
          quiet j slot' (omega arith) (sym (others j (λ same. absurd (omega arith))) ∙ at')) in
      (s₂, rw (read-get_elem? s.loaded i at, ◌>>=◌) (rw (run₁, ◌>>=◌) run₂), threads₂ ∙ threads₁)

  waitall-NoJobs :
      (threads : Threadpool H (CoreCtx L))
      → length threads.pool ≡ threads.pool_len
      → NoJobs threads.pool
      → threadpool_waitall threads ≡ ok (record threads { pool_flags = false })
  unfolding threadpool_waitall
  waitall-NoJobs threads size none_there =
      rw (ap (join_all threads.pool) (sym size) ∙ join_all-NoJobs threads.pool none_there, ◌>>=◌)
        refl

  -- Where no thread is running, no module has a clean-up, and the mutex is free, `modules_deinit` returns.
  pub modules_deinit-IsQuiet :
      (s : Loader L H) → IsQuiet s → (s' : Loader L H) × (modules_deinit linker r s ≡ ok s')
  unfolding modules_deinit modules_unloadall threadpool_deinit lock_loaded unlock_loaded
  modules_deinit-IsQuiet s h =
      let waited = waitall-NoJobs s.threads h.pool_size h.no_jobs in
      let s₁ : Loader L H = record s {
        locked = true;
        threads = record s.threads { pool_flags = false };
      } in
      let (s₂, run, threads) =
        unload_from-Quiet s.loaded_len 0 s₁ (omega (arith, h.size))
          (λ j slot after at. h.slots j slot at) in
      let again : threadpool_waitall s₂.threads ≡ ok (record s.threads { pool_flags = false }) =
        ap threadpool_waitall threads
        ∙ waitall-NoJobs (record s.threads { pool_flags = false }) h.pool_size h.no_jobs in
      (
        record s₂ {
          locked = false;
          cmds = modules_cmds_clean s₂.cmds;
          threads = record { pool = []; pool_len = 8; pool_flags = false };
        },
        simp h.free (rw (waited, ◌>>=◌) (rw (run, ◌>>=◌) (rw (again, ◌>>=◌) refl))),
      )
