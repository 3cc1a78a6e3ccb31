-- ===== src/Loader/Scan.antt =====
-- src/modules.c: the modules directory, all modules at once, and the watch on the directory.
use minervabot.Prelude.{
  ℕ, zero, suc, ◌+◌, Bool, true, false, Option, none, some, List, [], ◌∷◌, ◌==◌, if◌then◌else◌,
  replicate, pos, ltb_ℤ,
}
use minervabot.Run.{Run, ok, fault, ◌>>=◌}
use minervabot.CString.{Bytes, codes, equal, read, starts_with}
use minervabot.Commands.{CommandTree, modules_cmds_clean}
use minervabot.Threadpool.{
  Threadpool, Resources, threadpool_waitall, threadpool_init, threadpool_deinit,
}
use minervabot.Loader.{
  CoreCtx, LoadedSlot, unused, live, freed, Linker, Supplies, Loader, Exits, returns, exits,
  lock_loaded, unlock_loaded, modules_loadmod, modules_unloadmod,
}

-- `strrchr(name, '.')`: what stands behind the last full stop
unfoldable pub behind_last_dot : Bytes → Option Bytes
behind_last_dot [] = none
behind_last_dot (c ∷ name) = elim (behind_last_dot name) [
  | some rest ↦ some rest
  | none ↦ if c == b'.' then some name else none
]

-- the files of the directory that `modules_rescanall` loads
unfoldable pub is_module_file : Bytes → Bool
is_module_file [] = false
is_module_file (c ∷ name) = if c == b'.' then false else elim (behind_last_dot (c ∷ name)) [
  | none ↦ false
  | some rest ↦ starts_with rest (codes "so")
]

-- what an inotify event says: the name of the file, and whether it has been deleted
pub record WatchEvent : Type 0 where
  pub deleted : Bool
  pub name : Bytes

module _ {L : Type 0} where
  -- the loop of `modules_watchdir` over the array, with the number of slots still to be read
  unfoldable pub find_module : Bytes → List (LoadedSlot L) → ℕ → ℕ → Run (Option (ℕ × CoreCtx L))
  find_module name loaded zero i = ok none
  find_module name [] (suc k) i = fault
  find_module name (unused ∷ loaded) (suc k) i = find_module name loaded k (i + 1)
  find_module name (freed ∷ loaded) (suc k) i = fault
  find_module name (live ctx ∷ loaded) (suc k) i =
      let rest = find_module name loaded k (i + 1) in
      if equal ctx.fn name then ok (some (i, ctx)) else rest

module _ {L H : Type 0} where
  unfoldable pub unload_slot :
      Linker L H → Resources → Loader L H → ℕ → LoadedSlot L → Run (Loader L H)
  unload_slot linker r s i unused = ok s
  unload_slot linker r s i (live ctx) = modules_unloadmod linker r s ctx i false
  unload_slot linker r s i freed = fault

  -- the loop of `modules_unloadall`, with the number of slots still to be read
  unfoldable pub unload_from : Linker L H → (ℕ → Resources) → ℕ → ℕ → Loader L H → Run (Loader L H)
  unfolding unload_slot
  unload_from linker r zero i s = ok s
  unload_from linker r (suc k) i s = do
    slot ← read s.loaded i
    s' ← unload_slot linker (r i) s i slot
    unload_from linker r k (i + 1) s'

  -- `r i` is what the thread pool is given for slot `i`
  unfoldable pub modules_unloadall : Linker L H → (ℕ → Resources) → Loader L H → Run (Loader L H)
  unfolding unlock_loaded
  modules_unloadall linker r s = do
    s₁ ← lock_loaded s
    threads ← threadpool_waitall s₁.threads
    s₂ ← unload_from linker r s₁.loaded_len 0 (record s₁ { threads = threads })
    ok (unlock_loaded (record s₂ { cmds = modules_cmds_clean s₂.cmds }))

  -- the loop over the files of the directory, with what each of them is given
  unfoldable pub load_files :
      Linker L H → Bytes → List (Bytes × Supplies) → Loader L H → Run (Exits (Loader L H))
  load_files linker mod_dir [] s = ok (returns s)
  load_files linker mod_dir ((name, supplies) ∷ files) s = elim (is_module_file name) [
    | false ↦ load_files linker mod_dir files s
    | true ↦ do
      loaded ← modules_loadmod linker supplies mod_dir s name
      elim loaded [ exits ↦ ok exits | returns s' ↦ load_files linker mod_dir files s' ]
  ]

  unlock_after : Exits (Loader L H) → Exits (Loader L H)
  unfolding unlock_loaded
  unlock_after exits = exits
  unlock_after (returns s) = returns (unlock_loaded s)

  -- `none` is a directory that cannot be opened. The mutex is given back though it is not held here: it
  -- is then free, whoever holds it.
  unfoldable pub modules_rescanall :
      Linker L H
      → (ℕ → Resources)
      → Bytes
      → Option (List (Bytes × Supplies))
      → Loader L H
      → Run (Exits (Loader L H))
  unfolding unlock_after
  modules_rescanall linker r mod_dir folder s = do
    s' ← if ltb_ℤ (pos 0) s.loaded_use then modules_unloadall linker r s else ok s
    elim folder [
      | none ↦ ok exits
      | some files ↦ do result ← load_files linker mod_dir files s'; ok (unlock_after result)
    ]

  unfoldable pub unload_found :
      Linker L H → Resources → Loader L H → Option (ℕ × CoreCtx L) → Run (Loader L H)
  unload_found linker r s none = ok s
  unload_found linker r s (some (i, ctx)) = modules_unloadmod linker r s ctx i true

  -- One event of `modules_watchdir`: a file was written to its end, or deleted. `r` is what the thread
  -- pool is given for the clean-up.
  unfoldable pub watch_event :
      Linker L H → Resources → Supplies → Bytes → Loader L H → WatchEvent → Run (Exits (Loader L H))
  unfolding unload_found unlock_loaded
  watch_event linker r supplies mod_dir s event = do
    s₁ ← lock_loaded s
    found ← find_module event.name s₁.loaded s₁.loaded_len 0
    s₂ ← unload_found linker r s₁ found
    elim event.deleted [
      | true ↦ ok (returns (unlock_loaded s₂))
      | false ↦ modules_loadmod linker supplies mod_dir (unlock_loaded s₂) event.name
    ]

  -- The program leaves by `modules_deinit` once the watch has been cancelled.
  unfoldable pub modules_deinit : Linker L H → (ℕ → Resources) → Loader L H → Run (Loader L H)
  modules_deinit linker r s = do
    s' ← modules_unloadall linker r s
    threads ← threadpool_deinit s'.threads
    ok (record s' { threads = threads })

-- What `modules_init` sets up, besides the loader: the directory and the prefix of commands.
pub record Settings : Type 0 where
  pub mod_dir : Bytes
  pub cmdprefix : Bytes

abbrev pub or_default : Option Bytes → Bytes → Bytes
or_default none text = text
or_default (some value) text = value

-- `mod_dir[mod_dir_len-1]` is read only for a warning
unfoldable pub last_byte : Bytes → Run ℕ
last_byte [] = fault
last_byte (c ∷ []) = ok c
last_byte (c ∷ d ∷ text) = last_byte (d ∷ text)

module _ {L H : Type 0} where
  -- `pool` is null where its allocation fails, and `modules_init` goes on
  unfoldable pub first_pool : Option (Threadpool H (CoreCtx L)) → Threadpool H (CoreCtx L)
  first_pool (some threads) = threads
  first_pool none = record { pool = []; pool_len = 2; pool_flags = false }

  -- `malloc` gives the array; the second result `none` is the return value -1
  unfoldable pub modules_init :
      Option Bytes
      → Option Bytes
      → Option ℕ
      → Bool
      → CommandTree H
      → Run (Option (Settings × Loader L H))
  unfolding first_pool last_byte
  modules_init dir cmdprefix malloc pool_ok cmds = do
    slash ← last_byte (or_default dir (codes "modules/"))
    elim malloc [
      | none ↦ ok none
      | some base ↦ ok (
          some (
            record {
              mod_dir = or_default dir (codes "modules/");
              cmdprefix = or_default cmdprefix (codes ",");
            },
            record {
              base = base;
              loaded = replicate 6 unused;
              loaded_len = 6;
              loaded_use = pos 0;
              locked = false;
              cmds = cmds;
              threads = first_pool (threadpool_init pool_ok);
              closed = [];
            },
          ))
    ]
