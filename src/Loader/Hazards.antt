-- ===== src/Loader/Hazards.antt =====
-- Where the loader runs into undefined behaviour: a reload of a module that is loaded, and threads that end
-- after the array has moved.
use minervabot.Prelude.{
  ℕ, zero, suc, ◌+◌, ◌-◌, ◌*◌, ◌≤◌, ◌<◌, ◌≡◌, refl, sym, ◌∙◌, true, false, Option, none, some, List,
  [], ◌∷◌, ◌++◌, arith, leb, length, replicate, length-append, length-replicate, ℤ, pos, ◌+ℤ◌,
  ltb_ℤ, inl, inr, ◌⊎◌, Bool-cases,
}
use minervabot.Run.{ok, fault, ◌>>=◌}
use minervabot.CString.{Bytes, codes, equal, write}
use minervabot.CString.Laws.{equal_refl}
use minervabot.Threadpool.{threadpool_wrapper_init}
use minervabot.Threadpool.Queue.{threadpool_queue_deinit_wait}
use minervabot.Loader.{
  CoreCtx, LoadedSlot, unused, live, freed, Linker, Supplies, Loader, modules_unloadmod,
  grow_loaded, clear_slot, init_done, deinit_done,
}
use minervabot.Loader.Slots.{slot_of, IsLoader}
use minervabot.Loader.Load.{lock_loaded_free}
use minervabot.Loader.Scan.{WatchEvent, find_module, unload_found, watch_event}

write_outside : {A : Type 0} (xs : List A) (i : ℕ) (x : A) → length xs ≤ i → write xs i x ≡ fault
unfolding write
write_outside [] i x out = refl
write_outside (y ∷ xs) zero x out = absurd (omega arith)
write_outside (y ∷ xs) (suc i) x out = rw (write_outside xs i x (omega arith), ◌>>=◌) refl

module _ {L : Type 0} where
  -- no slot points to a context that has been freed
  abbrev pub NoneFreed : List (LoadedSlot L) → Type 0
  NoneFreed [] = Unit
  NoneFreed (unused ∷ loaded) = NoneFreed loaded
  NoneFreed (live ctx ∷ loaded) = NoneFreed loaded
  NoneFreed (freed ∷ loaded) = ⊥

  find_module-live :
      (name : Bytes) (loaded : List (LoadedSlot L)) (k n i : ℕ) {ctx : CoreCtx L}
      → k ≡ length loaded
      → NoneFreed loaded
      → slot_of loaded i ≡ live ctx
      → ctx.fn ≡ name
      → (j : ℕ) × (ctx' : CoreCtx L) × (find_module name loaded k n ≡ ok (some (j, ctx')))
  unfolding find_module
  find_module-live name [] k n i e none_freed at same = absurd (cc at)
  find_module-live name (x ∷ loaded) zero n i e none_freed at same = absurd (omega arith)
  find_module-live name (unused ∷ loaded) (suc k) n zero e none_freed at same = absurd (cc at)
  find_module-live name (unused ∷ loaded) (suc k) n (suc i) e none_freed at same =
      find_module-live name loaded k (n + 1) i (omega arith) none_freed at same
  find_module-live name (freed ∷ loaded) k n i e none_freed at same = absurd none_freed
  find_module-live name (live c ∷ loaded) (suc k) n zero e none_freed at same =
      (n, c, rw (found c _ at same) refl)
    where
      found : (c ctx : CoreCtx L) → live c ≡ live ctx → ctx.fn ≡ name → equal c.fn name ≡ true
      found c ctx e same = let same_ctx : c ≡ ctx = cc e in rw (same_ctx, same) (equal_refl name)
  find_module-live name (live c ∷ loaded) (suc k) n (suc i) e none_freed at same =
      elim (Bool-cases (equal c.fn name)) [
        | inl q ↦ (n, c, rw q refl)
        | inr q ↦
            let (j, ctx', found) =
              find_module-live name loaded k (n + 1) i (omega arith) none_freed at same in
            (j, ctx', rw q found)
      ]

module _ {L H : Type 0} where
  -- an address that is not in the array
  abbrev pub Outside : Loader L H → ℕ → Type 0
  Outside s p = (p < s.base) ⊎ (s.base + length s.loaded ≤ p)

  clear_slot-Outside : (s : Loader L H) (p : ℕ) → Outside s p → clear_slot s p ≡ fault
  unfolding clear_slot
  clear_slot-Outside s p (inl below) = let no : leb s.base p ≡ false = ground arith in rw no refl
  clear_slot-Outside s p (inr behind) =
      let yes : leb s.base p ≡ true = ground arith in
      rw yes (rw (write_outside s.loaded (p - s.base) unused (omega arith), ◌>>=◌) refl)

  -- A loaded module, found by the name of its file, is written anew or deleted: with memory for the clean-up's
  -- thread, the watch waits for that thread by pthread_join, which is undefined for a detached thread.
  pub watch_event-loaded :
      (linker : Linker L H) (supplies : Supplies) (mod_dir : Bytes) (s : Loader L H)
      (event : WatchEvent) (i : ℕ) {ctx : CoreCtx L}
      → IsLoader s
      → s.locked ≡ false
      → NoneFreed s.loaded
      → slot_of s.loaded i ≡ live ctx
      → ctx.fn ≡ event.name
      → ((handle : L) → (h : H) × (linker.dlsym handle (codes "module_cleanup") ≡ some h))
      → watch_event linker
          (record { realloc_ok = true; malloc_ok = true; create_ok = true })
          supplies
          mod_dir
          s
          event
        ≡ fault
  unfolding watch_event unload_found modules_unloadmod
  watch_event-loaded linker supplies mod_dir s event i h free none_freed at same cleanups =
      let (j, ctx', found) =
        find_module-live event.name s.loaded s.loaded_len 0 i (sym h.size) none_freed at same in
      let (cleanuph, symbol) = cleanups ctx'.dlsym in
      rw (lock_loaded_free s free, ◌>>=◌)
        (rw (found, ◌>>=◌)
          (rw (symbol, unload_found, modules_unloadmod)
            (rw (threadpool_queue_deinit_wait s.threads cleanuph ctx' (s.base + j) h.pool, ◌>>=◌)
              refl)))

  -- An array that is grown may move. Where it has left its old place, the thread of every job that was queued
  -- before writes through a pointer to freed memory when it ends: each clean-up, and each
  -- initialisation that failed.
  pub grow_loaded-moved :
      (s : Loader L H) (base n i : ℕ) (ctx : CoreCtx L)
      → ltb_ℤ (s.loaded_use +ℤ pos 1) (pos s.loaded_len) ≡ false
      → length s.loaded ≡ s.loaded_len
      → i < s.loaded_len
      → (base + 2 * s.loaded_len ≤ s.base) ⊎ (s.base + s.loaded_len ≤ base)
      → (s' : Loader L H) × (grow_loaded (some base) s ≡ some s')
        × (deinit_done s' n ctx (s.base + i) ≡ fault)
        × ((ret : Option ℤ)
            → threadpool_wrapper_init ctx ret ≡ none
            → init_done s' n ctx (s.base + i) ret ≡ fault)
  unfolding grow_loaded deinit_done init_done
  grow_loaded-moved s base n i ctx full size lt apart =
      let s' : Loader L H = record s {
        base = base;
        loaded = s.loaded ++ replicate s.loaded_len unused;
        loaded_len = s.loaded_len * 2;
      } in
      let grown : length (s.loaded ++ replicate s.loaded_len unused) ≡ 2 * s.loaded_len =
        length-append s.loaded (replicate s.loaded_len unused)
        ∙ omega (arith, size, length-replicate {A = LoadedSlot L} s.loaded_len unused) in
      let gone =
        clear_slot-Outside s' (s.base + i)
          (elim apart [ inl below ↦ inr (omega (arith, grown)) | inr above ↦ inl (omega arith) ]) in
      (
        s',
        simp full,
        rw (gone, ◌>>=◌) refl,
        λ ret failed. rw (failed, init_done) (rw (gone, ◌>>=◌) refl),
      )
