-- ===== src/Loader/Load.antt =====
-- `modules_loadmod`: whatever the linker and the allocator answer, a module is either in a slot of its own
-- or closed again.
use minervabot.Prelude.{
  ℕ, suc, ◌+◌, ◌≤◌, ◌<◌, ◌≡◌, refl, sym, ap, ◌∙◌, Bool, true, false, none, some, ◌∷◌, ◌++◌, arith,
  ltb, ◌==◌, length, length-set, set, pos, ◌+ℤ◌, sub_nat, inl, inr, ◌⊎◌, Bool-cases, Option-cases,
}
use minervabot.Run.{ok, ◌>>=◌}
use minervabot.CString.{Bytes, codes}
use minervabot.CString.Laws.{write-set}
use minervabot.Threadpool.{Threadpool, init, threadpool_queue_init}
use minervabot.Threadpool.Queue.{Queued, started_in, fill_slot-Queued}
use minervabot.Loader.{
  CoreCtx, unused, live, Linker, Supplies, Loader, returns, path_max, modules_ctx_new, dlclose,
  lock_loaded, unlock_loaded, place_ctx, add_module, modules_loadmod,
}
use minervabot.Loader.Slots.{
  slot_of, first_unused_lem, SameModules, busy-set, slot_of-set_self, slot_of-set_ne, IsLoader,
  grow_loaded-Grown,
}
use minervabot.Loader.Outcome.{Reason, Refused, Placed, Stays}

add_one : (n : ℕ) → (pos n +ℤ pos 1) ≡ pos (suc n)
unfolding ◌+ℤ◌ sub_nat
add_one n = ground arith

module _ {L H : Type 0} where
  queue_init-Queued :
      (supplies : Supplies) (s : Threadpool H (CoreCtx L)) (ctx : CoreCtx L) (inith : H)
      (ctx_pos : ℕ) {s' : Threadpool H (CoreCtx L)} {n : ℕ}
      → Queued supplies.threads s s' (init inith ctx ctx_pos) n
      → threadpool_queue_init supplies.threads s ctx inith ctx_pos
        ≡ ok (s', started_in supplies.threads n)
  unfolding threadpool_queue_init
  queue_init-Queued supplies s ctx inith ctx_pos q =
      let (s₁, found, filled) = q.slot_was_free in rw (found, ◌>>=◌) filled

  -- a context in a free slot of an array in order
  place_ctx-Placed :
      (linker : Linker L H) (supplies : Supplies) (s : Loader L H) (i : ℕ) (handle : L) (inith : H)
      (mod_file : Bytes)
      → IsLoader s
      → supplies.threads.realloc_ok ≡ true
      → i < s.loaded_len
      → slot_of s.loaded i ≡ unused
      → (s' : Loader L H) × (place_ctx supplies s i handle inith mod_file ≡ ok s')
        × IsLoader s'
        × (s'.cmds ≡ s.cmds)
        × (Refused linker supplies handle s s' ⊎ Placed supplies handle inith mod_file s s')
  unfolding place_ctx modules_ctx_new dlclose
  place_ctx-Placed linker supplies s i handle inith mod_file h room lt free =
      elim (Bool-cases supplies.calloc_ok) [
        | inl e ↦
            let ctx : CoreCtx L = record { dlsym = handle; fn = mod_file } in
            let (n, threads, q) =
              fill_slot-Queued supplies.threads s.threads (init inith ctx (s.base + i)) room
                h.pool in
            (
              record s {
                loaded = set s.loaded i (live ctx);
                threads = threads;
                loaded_use = s.loaded_use +ℤ pos 1;
              },
              rw (e, modules_ctx_new)
                  (rw (write-set s.loaded i (live ctx) (omega (arith, h.size)), ◌>>=◌)
                    (rw (queue_init-Queued supplies s.threads ctx inith (s.base + i) q, ◌>>=◌)
                      refl)),
              record {
                size = length-set s.loaded i (live ctx) ∙ h.size;
                some_slot = h.some_slot;
                uses = suc h.uses;
                counted = rw h.counted (add_one h.uses);
                enough = omega (arith, h.enough, busy-set s.loaded i ctx free);
                pool = q.in_order;
              },
              refl,
              inr (record {
                i = i;
                n = n;
                was_unused = free;
                is_live = slot_of-set_self s.loaded i (live ctx) (omega (arith, h.size));
                others = λ j ne. slot_of-set_ne s.loaded i j (live ctx) ne;
                one_more = refl;
                same_closed = refl;
                queued = q.here;
              }),
            )
        | inr e ↦ (
          dlclose s handle,
          rw (e, modules_ctx_new) refl,
          h,
          refl,
          inl (record {
            because = inl e;
            closed_again = refl;
            same_slots = λ j. refl;
            same_use = refl;
            same_threads = refl;
          }),
        )
      ]

  -- What became of the module: nothing but an unopened file, a handle closed again, or a slot.
  abbrev pub Loading : Linker L H → Supplies → Bytes → Bytes → Loader L H → Loader L H → Type 0
  Loading linker supplies mod_dir mod_file s s' =
      ((linker.dlopen (mod_dir ++ mod_file) ≡ none) × (s' ≡ s))
      ⊎ ((handle : L) × (linker.dlopen (mod_dir ++ mod_file) ≡ some handle)
          × (Refused linker supplies handle s s'
              ⊎ ((inith : H) × (linker.dlsym handle (codes "module_init") ≡ some inith)
                  × Placed supplies handle inith mod_file s s')))

  -- from one array to another with the same modules, and whoever holds the mutex
  carry :
      (linker : Linker L H) (supplies : Supplies) (handle : L) (inith : H) (mod_file : Bytes)
      (s s₁ s₂ : Loader L H) (held : Bool)
      → SameModules s s₁
      → Refused linker supplies handle s₁ s₂ ⊎ Placed supplies handle inith mod_file s₁ s₂
      → Refused linker supplies handle s (record s₂ { locked = held })
        ⊎ Placed supplies handle inith mod_file s (record s₂ { locked = held })
  carry linker supplies handle inith mod_file s s₁ s₂ held g (inl r) = inl (record {
    because = r.because;
    closed_again = r.closed_again ∙ ap (λ l. handle ∷ l) g.same_closed;
    same_slots = λ i. r.same_slots i ∙ g.same_slots i;
    same_use = r.same_use ∙ g.same_use;
    same_threads = r.same_threads ∙ g.same_threads;
  })
  carry linker supplies handle inith mod_file s s₁ s₂ held g (inr p) = inr (record {
    i = p.i;
    n = p.n;
    was_unused = sym (g.same_slots p.i) ∙ p.was_unused;
    is_live = p.is_live;
    others = λ j ne. p.others j ne ∙ g.same_slots j;
    one_more = p.one_more ∙ ap (λ u. u +ℤ pos 1) g.same_use;
    same_closed = p.same_closed ∙ g.same_closed;
    queued = p.queued;
  })

  closed_again_Refused :
      (linker : Linker L H) (supplies : Supplies) (s : Loader L H) (handle : L) (held : Bool)
      → Reason linker supplies handle
      → Refused linker supplies handle s (record s { closed = handle ∷ s.closed; locked = held })
  closed_again_Refused linker supplies s handle held reason = record {
    because = reason;
    closed_again = refl;
    same_slots = λ j. refl;
    same_use = refl;
    same_threads = refl;
  }

  add_module-Placed :
      (linker : Linker L H) (supplies : Supplies) (s : Loader L H) (handle : L) (inith : H)
      (mod_file : Bytes)
      → IsLoader s
      → supplies.threads.realloc_ok ≡ true
      → (s' : Loader L H) × (add_module supplies s handle inith mod_file ≡ ok (returns s'))
        × Stays s s'
        × (Refused linker supplies handle s s' ⊎ Placed supplies handle inith mod_file s s')
  unfolding add_module unlock_loaded dlclose
  add_module-Placed linker supplies s handle inith mod_file h room =
      elim (grow_loaded-Grown supplies.realloc_base s h) [
        | inl (e, none_left) ↦ (
          unlock_loaded (dlclose s handle),
          rw (e, add_module),
          record { is_loader = h; free = refl; same_cmds = refl },
          inl (closed_again_Refused linker supplies s handle false (inr (inl none_left))),
        )
        | inr (s₁, e, g) ↦
            let (i, found, lt, free) =
              first_unused_lem s₁.loaded s₁.loaded_len (sym g.is_loader.size) g.a_free_slot in
            let (s₂, put, h₂, same, placed) =
              place_ctx-Placed linker supplies s₁ i handle inith mod_file g.is_loader room lt
                free in
            (
              unlock_loaded s₂,
              rw (e, add_module)
                  (rw (found, ◌>>=◌) (rw (not_last i s₁.loaded_len lt) (rw (put, ◌>>=◌) refl))),
              record { is_loader = h₂; free = refl; same_cmds = same ∙ g.same.same_cmds },
              carry linker supplies handle inith mod_file s s₁ s₂ false g.same placed,
            )
      ]
    where
      not_last : (i len : ℕ) → i < len → (i == len) ≡ false
      not_last i len lt = ground arith

  pub lock_loaded_free :
      (s : Loader L H) → s.locked ≡ false → lock_loaded s ≡ ok (record s { locked = true })
  unfolding lock_loaded
  lock_loaded_free s free = simp free

  -- With a name that fits `PATH_MAX`, an array in order and its mutex free, and room for the thread pool
  -- to grow, `modules_loadmod` returns, whatever the linker and the other allocations answer: it never
  -- reaches `__code_error`. A file that cannot be opened changes nothing; a module whose
  -- `module_init` is missing, or that finds no memory for its context or the array, is closed again; any other
  -- stands in a slot that was free, with its initialisation queued where memory is given for that, and without one
  -- where it is not. All modules loaded before keep their slots, the array is in order
  -- and the mutex free.
  pub modules_loadmod-Loading :
      (linker : Linker L H) (supplies : Supplies) (mod_dir mod_file : Bytes) (s : Loader L H)
      → IsLoader s
      → s.locked ≡ false
      → supplies.threads.realloc_ok ≡ true
      → length mod_file + length mod_dir + 1 ≤ path_max
      → (s' : Loader L H) × (modules_loadmod linker supplies mod_dir s mod_file ≡ ok (returns s'))
        × Stays s s'
        × Loading linker supplies mod_dir mod_file s s'
  unfolding modules_loadmod dlclose
  modules_loadmod-Loading linker supplies mod_dir mod_file s h free room short =
      let fits : ltb path_max (length mod_file + length mod_dir + 1) ≡ false = ground arith in
      elim (Option-cases (linker.dlopen (mod_dir ++ mod_file))) [
        | inl e ↦ (
          s,
          rw (fits, modules_loadmod) (rw e refl),
          record { is_loader = h; free = free; same_cmds = refl },
          inl (e, refl),
        )
        | inr (handle, e) ↦ elim (Option-cases (linker.dlsym handle (codes "module_init"))) [
          | inl n ↦ (
            dlclose s handle,
            rw (fits, modules_loadmod) (rw e (rw n refl)),
            record { is_loader = h; free = free; same_cmds = refl },
            inr (
              handle,
              e,
              inl (closed_again_Refused linker supplies s handle s.locked (inr (inr n))),
            ),
          )
          | inr (inith, m) ↦
              let locked : Loader L H = record s { locked = true } in
              let (s', added, stays, became) =
                add_module-Placed linker supplies locked handle inith mod_file h room in
              let unlocked : SameModules s locked = record {
                same_slots = λ i. refl;
                same_use = refl;
                same_threads = refl;
                same_closed = refl;
                same_cmds = refl;
              } in
              (
                s',
                rw (fits, modules_loadmod)
                    (rw e (rw m (rw (lock_loaded_free s free, ◌>>=◌) added))),
                record {
                  is_loader = stays.is_loader;
                  free = stays.free;
                  same_cmds = stays.same_cmds;
                },
                inr (
                  handle,
                  e,
                  elim (carry linker supplies handle inith mod_file s locked s' s'.locked unlocked
                      became) [ inl r ↦ inl r | inr p ↦ inr (inith, m, p) ],
                ),
              )
        ]
      ]
