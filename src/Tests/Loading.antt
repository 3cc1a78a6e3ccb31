-- ===== src/Tests/Loading.antt =====
-- The theorems on the modules of src/modules.c at concrete states.
use minervabot.Prelude.{
  ℕ, ◌+◌, ◌≡◌, ◌≢◌, refl, ◌↔◌, true, false, Option, none, some, List, [], ◌∷◌, arith, get_elem?, ℤ,
  pos, ◌+ℤ◌, sub_nat, ltb_ℤ, inr,
}
use minervabot.Run.{ok, fault}
use minervabot.CString.{Bytes, codes, read, write}
use minervabot.Commands.{null}
use minervabot.Threadpool.{
  threadpool_waitall, threadpool_deinit, threadpool_queue_deinit, threadpool_queue_findspace,
  first_free, join_all, join_started, fill_slot, set_args, deinit, threadpool_wrapper_init,
}
use minervabot.Loader.{
  CoreCtx, unused, live, Linker, Supplies, Loader, returns, grow_loaded, modules_loadmod,
  modules_unloadmod, deinit_done, init_done, lock_loaded, unlock_loaded,
}
use minervabot.Loader.Slots.{IsLoader}
use minervabot.Loader.Outcome.{Stays}
use minervabot.Loader.Load.{Loading, modules_loadmod-Loading}
use minervabot.Loader.Unload.{Unloaded, modules_unloadmod-deinit_done}
use minervabot.Loader.Scan.{
  unload_slot, unload_from, modules_unloadall, modules_deinit, Settings, is_module_file,
  modules_init, modules_rescanall, watch_event,
}
use minervabot.Loader.Names.{IsModuleName, is_module_file_iff}
use minervabot.Loader.Rescan.{AllThere, modules_in}
use minervabot.Loader.Start.{modules_init-modules_rescanall}
use minervabot.Loader.Hazards.{watch_event-loaded, grow_loaded-moved}

-- every file opens, as handle 3; each symbol is handler 9
abbrev linker : Linker ℕ ℕ
linker = record { dlopen = λ name. some 3; dlsym = λ handle symbol. some 9 }

abbrev plenty : Supplies
plenty = record {
  realloc_base = some 500;
  calloc_ok = true;
  threads = record { realloc_ok = true; malloc_ok = true; create_ok = true };
}

abbrev fun_ctx : CoreCtx ℕ
fun_ctx = record { dlsym = 3; fn = codes "bot_fun.so" }

-- bot_fun is loaded, in an array at 100
abbrev with_fun : Loader ℕ ℕ
with_fun = record {
  base = 100;
  loaded = unused ∷ live fun_ctx ∷ unused ∷ [];
  loaded_len = 3;
  loaded_use = pos 1;
  locked = false;
  cmds = null;
  threads = record { pool = none ∷ none ∷ []; pool_len = 2; pool_flags = false };
  closed = [];
}

with_fun-IsLoader : IsLoader with_fun
with_fun-IsLoader = record {
  size = refl;
  some_slot = omega arith;
  uses = 1;
  counted = refl;
  enough = omega arith;
  pool = record { size = refl; some_slot = omega arith; clear = refl };
}

modules_loadmod-Loading_example :
    (s' : Loader ℕ ℕ) × (modules_loadmod linker plenty
        (codes "modules/")
        with_fun
        (codes "bot_misc.so")
      ≡ ok (returns s'))
    × Stays with_fun s'
    × Loading linker plenty (codes "modules/") (codes "bot_misc.so") with_fun s'
modules_loadmod-Loading_example =
    modules_loadmod-Loading linker plenty (codes "modules/") (codes "bot_misc.so") with_fun
      with_fun-IsLoader refl refl (omega arith)

modules_unloadmod-deinit_done_example :
    (s' s'' : Loader ℕ ℕ) × (n : ℕ) × (modules_unloadmod linker plenty.threads with_fun fun_ctx 1
        false
      ≡ ok s')
    × (get_elem? s'.threads.pool n ≡ some (some (deinit 9 fun_ctx (100 + 1))))
    × (deinit_done s' n fun_ctx (100 + 1) ≡ ok s'')
    × (get_elem? s''.threads.pool n ≡ some none)
    × Unloaded fun_ctx 1 with_fun s''
modules_unloadmod-deinit_done_example =
    modules_unloadmod-deinit_done linker with_fun fun_ctx 1 with_fun-IsLoader refl refl

-- the program cannot be ended while bot_fun is loaded: its clean-up runs in a detached thread, which is joined
modules_deinit-with_fun : modules_deinit linker (λ i. plenty.threads) with_fun ≡ fault
unfolding modules_deinit modules_unloadall unload_from unload_slot modules_unloadmod lock_loaded
    unlock_loaded threadpool_waitall threadpool_deinit threadpool_queue_deinit
    threadpool_queue_findspace first_free join_all join_started fill_slot set_args read write
modules_deinit-with_fun = refl

-- two modules and two other files
abbrev directory : List (Bytes × Supplies)
directory =
    (codes "bot_fun.so", plenty)
    ∷ (codes ".git", plenty)
    ∷ (codes "README", plenty)
    ∷ (codes "bot_math.so.1", plenty)
    ∷ (codes "bot_misc.so", plenty)
    ∷ []

given : {A : Type 0} {a : A} → some a ≢ none
given e = cc e

modules_init-modules_rescanall_example :
    (settings : Settings) × (s s' : Loader ℕ ℕ) × (modules_init none none (some 100) true null
      ≡ ok (some (settings, s)))
    × (settings.mod_dir ≡ codes "modules/")
    × (settings.cmdprefix ≡ codes ",")
    × (modules_rescanall linker (λ i. plenty.threads) settings.mod_dir (some directory) s
        ≡ ok (returns s'))
    × IsLoader s'
    × (s'.locked ≡ false)
    × AllThere (λ name. 3) directory s'.loaded
    × (s'.loaded_use ≡ pos (modules_in directory))
modules_init-modules_rescanall_example =
    modules_init-modules_rescanall linker (λ i. plenty.threads) none none 100 null (λ name. 3)
      directory (λ e. cc e) (λ name. (refl, given))
      (
        omega arith,
        refl,
        given,
        refl,
        (
          omega arith,
          refl,
          given,
          refl,
          (
            omega arith,
            refl,
            given,
            refl,
            (omega arith, refl, given, refl, (omega arith, refl, given, refl, tt)),
          ),
        ),
      )

is_module_file_iff_example :
    (is_module_file (codes "bot_fun.so") ≡ true) ↔ IsModuleName (codes "bot_fun.so")
is_module_file_iff_example = is_module_file_iff (codes "bot_fun.so")

watch_event-loaded_example :
    watch_event linker plenty.threads plenty
      (codes "modules/")
      with_fun
      (record { deleted = false; name = codes "bot_fun.so" })
    ≡ fault
watch_event-loaded_example =
    watch_event-loaded linker plenty (codes "modules/") with_fun
      (record { deleted = false; name = codes "bot_fun.so" }) 1 with_fun-IsLoader refl tt refl refl
      (λ handle. (9, refl))

-- two modules in three slots: the next one makes the array grow
abbrev nearly_full : Loader ℕ ℕ
nearly_full = record {
  base = 100;
  loaded = live fun_ctx ∷ live (record { dlsym = 4; fn = codes "bot_misc.so" }) ∷ unused ∷ [];
  loaded_len = 3;
  loaded_use = pos 2;
  locked = false;
  cmds = null;
  threads = record { pool = none ∷ none ∷ []; pool_len = 2; pool_flags = false };
  closed = [];
}

three_of_three : ltb_ℤ (pos 2 +ℤ pos 1) (pos 3) ≡ false
unfolding ◌+ℤ◌ sub_nat
three_of_three = refl

grow_loaded-moved_example :
    (s' : Loader ℕ ℕ) × (grow_loaded (some 500) nearly_full ≡ some s')
    × (deinit_done s' 0 fun_ctx (100 + 0) ≡ fault)
    × ((ret : Option ℤ)
        → threadpool_wrapper_init fun_ctx ret ≡ none
        → init_done s' 0 fun_ctx (100 + 0) ret ≡ fault)
grow_loaded-moved_example =
    grow_loaded-moved nearly_full 500 0 0 fun_ctx three_of_three refl (omega arith)
      (inr (omega arith))
