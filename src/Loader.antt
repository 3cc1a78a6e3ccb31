-- ===== src/Loader.antt =====
-- src/modules.c: the list of loaded modules, loading a shared object and unloading it, and what the
-- threads of src/threadpool.c do to the list when they end.
-- `L` is the type of the handles of `dlopen` and `H` that of handlers. The dynamic linker is an argument.
pub mod Scan
pub mod Slots
pub mod Outcome
pub mod Load
pub mod Unload
pub mod Names
pub mod Rescan
pub mod Start
pub mod Shutdown
pub mod Hazards
use minervabot.Prelude.{
  ℕ, zero, suc, ◌+◌, ◌-◌, ◌*◌, Bool, true, false, not, Option, none, some, List, [], ◌∷◌, ◌++◌, ltb,
  leb, ◌==◌, if◌then◌else◌, replicate, length, ℤ, pos, negsuc, ◌+ℤ◌, ltb_ℤ, is_zero,
}
use minervabot.Run.{Run, ok, fault, deadlock, ◌>>=◌}
use minervabot.CString.{Bytes, codes, write}
use minervabot.Commands.{CommandTree}
use minervabot.Threadpool.{
  Job, cmd, init, deinit, Threadpool, Resources, threadpool_queue_init, threadpool_queue_deinit,
  threadpool_wrapper_init, execution_done,
}

-- What a `struct core_ctx` holds besides the functions, which are the same for all modules.
pub record CoreCtx (L : Type 0) : Type 0 where
  pub dlsym : L
  pub fn : Bytes

-- `loaded[i]`: null, a context, or a pointer to a context that has been freed
pub data LoadedSlot (L : Type 0) : Type 0 where
  unused : LoadedSlot L
  live : CoreCtx L → LoadedSlot L
  freed : LoadedSlot L

-- `dlopen`, and `dlsym` with the `dlerror` that follows it; `none` is an error
pub record Linker (L H : Type 0) : Type 0 where
  pub dlopen : Bytes → Option L
  pub dlsym : L → Bytes → Option H

-- What the allocations of a call return: where `realloc` puts the array, and whether `calloc` and
-- the calls in the thread pool succeed.
pub record Supplies : Type 0 where
  pub realloc_base : Option ℕ
  pub calloc_ok : Bool
  pub threads : Resources

-- the globals; `base` is where `loaded` points to, `locked` is `modules_array_mutex`, and `closed` has the
-- handles given to `dlclose`, the last one first
pub record Loader (L H : Type 0) : Type 0 where
  pub base : ℕ
  pub loaded : List (LoadedSlot L)
  pub loaded_len : ℕ
  pub loaded_use : ℤ
  pub locked : Bool
  pub cmds : CommandTree H
  pub threads : Threadpool H (CoreCtx L)
  pub closed : List L

-- a function that may call `exit(1)`
pub data Exits (S : Type 0) : Type 0 where
  returns : S → Exits S
  exits : Exits S

-- `PATH_MAX`
abbrev pub path_max : ℕ
path_max = 4096

module _ {L : Type 0} where
  unfoldable pub modules_ctx_new : Bool → L → Bytes → Option (CoreCtx L)
  modules_ctx_new true dlsym fn = some (record { dlsym = dlsym; fn = fn })
  modules_ctx_new false dlsym fn = none

  -- `for (i = 0; i < loaded_len; i++) if (!loaded[i]) break;`, with the number of slots still to be read
  unfoldable pub first_unused : List (LoadedSlot L) → ℕ → ℕ → Run ℕ
  first_unused loaded zero i = ok i
  first_unused [] (suc k) i = fault
  first_unused (unused ∷ loaded) (suc k) i = ok i
  first_unused (live ctx ∷ loaded) (suc k) i = first_unused loaded k (i + 1)
  first_unused (freed ∷ loaded) (suc k) i = first_unused loaded k (i + 1)

module _ {L H : Type 0} where
  unfoldable pub dlclose : Loader L H → L → Loader L H
  dlclose s handle = record s { closed = handle ∷ s.closed }

  unfoldable pub lock_loaded : Loader L H → Run (Loader L H)
  lock_loaded s = if s.locked then deadlock else ok (record s { locked = true })

  -- `pthread_mutex_unlock(&modules_array_mutex)`
  unfoldable pub unlock_loaded : Loader L H → Loader L H
  unlock_loaded s = record s { locked = false }

  -- `if (loaded_use + 1 >= loaded_len)`: twice the size, the new half of it null
  unfoldable pub grow_loaded : Option ℕ → Loader L H → Option (Loader L H)
  grow_loaded realloc s =
      if ltb_ℤ (s.loaded_use +ℤ pos 1) (pos s.loaded_len) then some s else elim realloc [
        | none ↦ none
        | some base ↦ some (record s {
          base = base;
          loaded = s.loaded ++ replicate s.loaded_len unused;
          loaded_len = s.loaded_len * 2;
        })
      ]

  -- the context goes into slot `i`, and its initialisation is queued
  unfoldable pub place_ctx : Supplies → Loader L H → ℕ → L → H → Bytes → Run (Loader L H)
  unfolding dlclose
  place_ctx supplies s i handle inith mod_file =
      elim (modules_ctx_new supplies.calloc_ok handle mod_file) [
        | none ↦ ok (dlclose s handle)
        | some ctx ↦ do
          loaded ← write s.loaded i (live ctx)
          (threads, started) ←
              threadpool_queue_init supplies.threads s.threads ctx inith (s.base + i)
          ok (record s { loaded = loaded; threads = threads; loaded_use = s.loaded_use +ℤ pos 1 })
      ]

  -- what `modules_loadmod` does while it holds the mutex; `__code_error` exits
  unfoldable pub add_module : Supplies → Loader L H → L → H → Bytes → Run (Exits (Loader L H))
  unfolding dlclose unlock_loaded
  add_module supplies s handle inith mod_file = elim (grow_loaded supplies.realloc_base s) [
    | none ↦ ok (returns (unlock_loaded (dlclose s handle)))
    | some s' ↦ do
      i ← first_unused s'.loaded s'.loaded_len 0
      elim (i == s'.loaded_len) [
        | true ↦ ok exits
        | false ↦ do
          s'' ← place_ctx supplies s' i handle inith mod_file
          ok (returns (unlock_loaded s''))
      ]
  ]

  -- Where the name is too long, the warning does not keep the copy from running over `local_file`.
  unfoldable pub modules_loadmod :
      Linker L H → Supplies → Bytes → Loader L H → Bytes → Run (Exits (Loader L H))
  unfolding dlclose
  modules_loadmod linker supplies mod_dir s mod_file =
      if ltb path_max (length mod_file + length mod_dir + 1)
      then fault
      else elim (linker.dlopen (mod_dir ++ mod_file)) [
        | none ↦ ok (returns s)
        | some handle ↦ elim (linker.dlsym handle (codes "module_init")) [
          | none ↦ ok (returns (dlclose s handle))
          | some inith ↦ do s' ← lock_loaded s; add_module supplies s' handle inith mod_file
        ]
      ]

  -- `modules_unloadmod(ctx, loaded + i, wait)`; the context is freed at once where there is no clean-up
  unfoldable pub modules_unloadmod :
      Linker L H → Resources → Loader L H → CoreCtx L → ℕ → Bool → Run (Loader L H)
  unfolding dlclose
  modules_unloadmod linker r s ctx i wait = elim (linker.dlsym ctx.dlsym (codes "module_cleanup")) [
    | none ↦ do
      loaded ← write s.loaded i freed
      ok (dlclose (record s { loaded = loaded }) ctx.dlsym)
    | some cleanuph ↦ do
      (threads, started) ← threadpool_queue_deinit r s.threads cleanuph ctx (s.base + i) wait
      ok (record s { threads = threads; loaded_use = s.loaded_use +ℤ negsuc 0 })
  ]

  -- `*(ctx_pos) = NULL` for a pointer into the array, or to where the array was
  unfoldable pub clear_slot : Loader L H → ℕ → Run (Loader L H)
  clear_slot s ctx_pos =
      if leb s.base ctx_pos
      then (do loaded ← write s.loaded (ctx_pos - s.base) unused; ok (record s { loaded = loaded }))
      else fault

  -- `pool[arg->n].args = NULL` at the end of a thread
  unfoldable pub end_thread : Loader L H → ℕ → Run (Loader L H)
  end_thread s n = do threads ← execution_done s.threads n; ok (record s { threads = threads })

  -- The end of `threadpool_wrapper_init` in the thread of slot `n`, after the handler has returned
  -- `ret`, or crashed.
  unfoldable pub init_done : Loader L H → ℕ → CoreCtx L → ℕ → Option ℤ → Run (Loader L H)
  unfolding dlclose
  init_done s n ctx ctx_pos ret = elim (threadpool_wrapper_init ctx ret) [
    | some _ ↦ end_thread s n
    | none ↦ do s' ← clear_slot s ctx_pos; end_thread (dlclose s' ctx.dlsym) n
  ]

  -- the end of `threadpool_wrapper_deinit`, whatever the handler did
  unfoldable pub deinit_done : Loader L H → ℕ → CoreCtx L → ℕ → Run (Loader L H)
  unfolding dlclose
  deinit_done s n ctx ctx_pos = do s' ← clear_slot s ctx_pos; end_thread (dlclose s' ctx.dlsym) n
