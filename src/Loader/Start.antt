-- ===== src/Loader/Start.antt =====
-- The start of the program: `modules_init`, and then `modules_rescanall` of src/main.c.
use minervabot.Prelude.{
  ℕ, ◌≡◌, ◌≢◌, refl, true, false, Option, none, some, List, [], ◌∷◌, arith, pos,
}
use minervabot.Run.{ok, ◌>>=◌}
use minervabot.CString.{Bytes, codes}
use minervabot.Commands.{CommandTree}
use minervabot.Threadpool.{Resources, threadpool_init}
use minervabot.Threadpool.Slots.{IsPool}
use minervabot.Loader.{unused, Linker, Supplies, Loader, returns}
use minervabot.Loader.Slots.{IsLoader}
use minervabot.Loader.Scan.{
  Settings, or_default, last_byte, first_pool, modules_init, modules_rescanall,
}
use minervabot.Loader.Rescan.{OpensAll, Supplied, AllThere, modules_in, modules_rescanall-AllThere}

last_byte_nonempty : (c : ℕ) (text : Bytes) → (d : ℕ) × (last_byte (c ∷ text) ≡ ok d)
unfolding last_byte
last_byte_nonempty c [] = (c, refl)
last_byte_nonempty c (d ∷ text) = last_byte_nonempty d text

-- the directory that `BOT_MODULES_DIR` names, or else modules/
last_byte-or_default :
    (dir : Option Bytes)
    → dir ≢ some []
    → (d : ℕ) × (last_byte (or_default dir (codes "modules/")) ≡ ok d)
last_byte-or_default none ne = last_byte_nonempty 109 _
last_byte-or_default (some []) ne = absurd (ne refl)
last_byte-or_default (some (c ∷ text)) ne = last_byte_nonempty c text

module _ {L H : Type 0} where
  first_pool-IsPool : IsPool (first_pool {L = L} {H = H} (threadpool_init true))
  unfolding first_pool threadpool_init
  first_pool-IsPool = record { size = refl; some_slot = omega arith; clear = refl }

  -- Where `BOT_MODULES_DIR` is not empty, memory is given, and the linker opens every file and finds
  -- `module_init`, the program starts with `modules_init` and `modules_rescanall`, which both return: every
  -- file of the directory that is taken for a module has its module in a slot, as many are counted as there
  -- are such files, the array is in order and its mutex free.
  pub modules_init-modules_rescanall :
      (linker : Linker L H) (r : ℕ → Resources) (dir cmdprefix : Option Bytes) (base : ℕ)
      (cmds : CommandTree H) (handle_of : Bytes → L) (files : List (Bytes × Supplies))
      → dir ≢ some []
      → OpensAll linker (or_default dir (codes "modules/")) handle_of
      → Supplied (or_default dir (codes "modules/")) files
      → (settings : Settings) × (s s' : Loader L H) × (modules_init dir cmdprefix
            (some base)
            true
            cmds
          ≡ ok (some (settings, s)))
        × (settings.mod_dir ≡ or_default dir (codes "modules/"))
        × (settings.cmdprefix ≡ or_default cmdprefix (codes ","))
        × (modules_rescanall linker r settings.mod_dir (some files) s ≡ ok (returns s'))
        × IsLoader s'
        × (s'.locked ≡ false)
        × AllThere handle_of files s'.loaded
        × (s'.loaded_use ≡ pos (modules_in files))
  unfolding modules_init
  modules_init-modules_rescanall linker r dir cmdprefix base cmds handle_of files ne opens
        supplied =
      let (d, slash) = last_byte-or_default dir ne in
      let s : Loader L H = record {
        base = base;
        loaded = unused ∷ unused ∷ unused ∷ unused ∷ unused ∷ unused ∷ [];
        loaded_len = 6;
        loaded_use = pos 0;
        locked = false;
        cmds = cmds;
        threads = first_pool (threadpool_init true);
        closed = [];
      } in
      let in_order : IsLoader s = record {
        size = refl;
        some_slot = omega arith;
        uses = 0;
        counted = refl;
        enough = omega arith;
        pool = first_pool-IsPool;
      } in
      let (s', run, is_loader, free, there, counted) =
        modules_rescanall-AllThere linker r (or_default dir (codes "modules/")) handle_of files s
          opens supplied in_order refl refl in
      (
        record {
          mod_dir = or_default dir (codes "modules/");
          cmdprefix = or_default cmdprefix (codes ",");
        },
        s,
        s',
        rw (slash, ◌>>=◌) refl,
        refl,
        refl,
        run,
        is_loader,
        free,
        there,
        counted,
      )
