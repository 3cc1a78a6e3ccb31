-- ===== src/Loader/Unload.antt =====
-- `modules_unloadmod` and the end of the thread of the clean-up.
use minervabot.Prelude.{
  ℕ, zero, suc, ◌+◌, ◌-◌, ◌<◌, ◌≡◌, ◌≢◌, refl, ap, ◌∙◌, true, false, none, some, List, [], ◌∷◌,
  arith, leb, length, length-set, set, get_elem?, pos, negsuc, ◌+ℤ◌, sub_nat,
}
use minervabot.Run.{ok, ◌>>=◌}
use minervabot.CString.{codes}
use minervabot.CString.Laws.{write-set}
use minervabot.Threadpool.{Threadpool, Resources, deinit, threadpool_queue_deinit}
use minervabot.Threadpool.Queue.{Queued, started_in, fill_slot-Queued, execution_done-IsPool}
use minervabot.Loader.{
  CoreCtx, LoadedSlot, unused, live, freed, Linker, Loader, dlclose, modules_unloadmod, clear_slot,
  end_thread, deinit_done,
}
use minervabot.Loader.Slots.{busy, slot_of, slot_of-set_self, slot_of-set_ne, IsLoader}

take_one : (n : ℕ) → (pos (suc n) +ℤ negsuc 0) ≡ pos n
unfolding ◌+ℤ◌ sub_nat
take_one n = ground arith

module _ {L : Type 0} where
  live-lt :
      (loaded : List (LoadedSlot L)) (i : ℕ) {ctx : CoreCtx L}
      → slot_of loaded i ≡ live ctx
      → i < length loaded
  live-lt [] i e = absurd (cc e)
  live-lt (x ∷ loaded) zero e = omega arith
  live-lt (x ∷ loaded) (suc i) e = let r = live-lt loaded i e in omega arith

  busy-freed_slot :
      (loaded : List (LoadedSlot L)) (i : ℕ) {ctx : CoreCtx L}
      → slot_of loaded i ≡ live ctx
      → suc (busy (set loaded i unused)) ≡ busy loaded
  busy-freed_slot [] i e = absurd (cc e)
  busy-freed_slot (unused ∷ loaded) zero e = absurd (cc e)
  busy-freed_slot (live c ∷ loaded) zero e = refl
  busy-freed_slot (freed ∷ loaded) zero e = refl
  busy-freed_slot (unused ∷ loaded) (suc i) e = busy-freed_slot loaded i e
  busy-freed_slot (live c ∷ loaded) (suc i) e = ap suc (busy-freed_slot loaded i e)
  busy-freed_slot (freed ∷ loaded) (suc i) e = ap suc (busy-freed_slot loaded i e)

module _ {L H : Type 0} where
  queue_deinit-Queued :
      (r : Resources) (s : Threadpool H (CoreCtx L)) (h : H) (ctx : CoreCtx L) (ctx_pos : ℕ)
      {s' : Threadpool H (CoreCtx L)} {n : ℕ}
      → Queued r s s' (deinit h ctx ctx_pos) n
      → threadpool_queue_deinit r s h ctx ctx_pos false ≡ ok (s', started_in r n)
  unfolding threadpool_queue_deinit
  queue_deinit-Queued r s h ctx ctx_pos q =
      let (s₁, found, filled) = q.slot_was_free in rw (found, ◌>>=◌) (rw (filled, ◌>>=◌) refl)

  clear_slot_own :
      (s : Loader L H) (i : ℕ)
      → i < length s.loaded
      → clear_slot s (s.base + i) ≡ ok (record s { loaded = set s.loaded i unused })
  unfolding clear_slot
  clear_slot_own s i lt =
      let inside : leb s.base (s.base + i) ≡ true = ground arith in
      let back : s.base + i - s.base ≡ i = omega arith in
      rw inside (rw (back, write-set s.loaded i unused lt, ◌>>=◌) refl)

  -- what `modules_unloadmod` and then the thread of the clean-up leave
  pub record Unloaded (ctx : CoreCtx L) (i : ℕ) (s s' : Loader L H) : Type 0 where
    pub is_loader : IsLoader s'
    pub cleared : slot_of s'.loaded i ≡ unused
    pub others : (j : ℕ) → j ≢ i → slot_of s'.loaded j ≡ slot_of s.loaded j
    pub closed_once : s'.closed ≡ ctx.dlsym ∷ s.closed
    pub one_less : s'.loaded_use ≡ s.loaded_use +ℤ negsuc 0

  pub modules_unloadmod-deinit_done :
      (linker : Linker L H) (s : Loader L H) (ctx : CoreCtx L) (i : ℕ) {cleanuph : H}
      → IsLoader s
      → slot_of s.loaded i ≡ live ctx
      → linker.dlsym ctx.dlsym (codes "module_cleanup") ≡ some cleanuph
      → (s' s'' : Loader L H) × (n : ℕ) × (modules_unloadmod linker
            (record { realloc_ok = true; malloc_ok = true; create_ok = true })
            s
            ctx
            i
            false
          ≡ ok s')
        × (get_elem? s'.threads.pool n ≡ some (some (deinit cleanuph ctx (s.base + i))))
        × (deinit_done s' n ctx (s.base + i) ≡ ok s'')
        × (get_elem? s''.threads.pool n ≡ some none)
        × Unloaded ctx i s s''
  unfolding modules_unloadmod deinit_done end_thread dlclose
  modules_unloadmod-deinit_done linker s ctx i {cleanuph} h at symbol =
      let r : Resources = record { realloc_ok = true; malloc_ok = true; create_ok = true } in
      let lt = live-lt s.loaded i at in
      let (n, threads, q) =
        fill_slot-Queued r s.threads (deinit cleanuph ctx (s.base + i)) refl h.pool in
      let (threads', ended, in_order, empty, kept) =
        execution_done-IsPool threads n q.in_order q.inside in
      let s' : Loader L H = record s { threads = threads; loaded_use = s.loaded_use +ℤ negsuc 0 } in
      let less = busy-freed_slot s.loaded i at in
      (
        s',
        record s' {
          loaded = set s.loaded i unused;
          threads = threads';
          closed = ctx.dlsym ∷ s.closed;
        },
        n,
        rw (symbol, modules_unloadmod)
            (rw (queue_deinit-Queued r s.threads cleanuph ctx (s.base + i) q, ◌>>=◌) refl),
        q.here,
        rw (clear_slot_own s' i lt, ◌>>=◌) (rw (ended, ◌>>=◌) refl),
        empty,
        record {
          is_loader = record {
            size = length-set s.loaded i unused ∙ h.size;
            some_slot = h.some_slot;
            uses = h.uses - 1;
            counted = rw h.counted (one_of h.uses (omega (arith, h.enough, less)));
            enough = omega (arith, h.enough, less);
            pool = in_order;
          };
          cleared = slot_of-set_self s.loaded i unused lt;
          others = λ j ne. slot_of-set_ne s.loaded i j unused ne;
          closed_once = refl;
          one_less = refl;
        },
      )
    where
      one_of : (u : ℕ) → 0 < u → pos u +ℤ negsuc 0 ≡ pos (u - 1)
      one_of zero lt = absurd (omega arith)
      one_of (suc u) lt = take_one u ∙ ap pos (omega arith)
