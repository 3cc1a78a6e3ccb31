-- ===== src/Loader/Rescan.antt =====
-- `modules_rescanall`: which files it loads, and that their modules are then there.
use minervabot.Prelude.{
  ℕ, suc, ◌+◌, ◌≤◌, ◌≡◌, ◌≢◌, refl, sym, ap, subst, ◌∙◌, true, false, none, some, List, [], ◌∷◌,
  ◌++◌, arith, length, ℤ, pos, ◌+ℤ◌, sub_nat, ltb_ℤ, inl, inr, ◌⊎◌, Bool-cases, if◌then◌else◌,
}
use minervabot.Run.{ok, ◌>>=◌}
use minervabot.CString.{Bytes, codes}
use minervabot.Threadpool.{Resources}
use minervabot.Loader.{
  CoreCtx, LoadedSlot, unused, live, Linker, Supplies, Loader, returns, path_max, unlock_loaded,
}
use minervabot.Loader.Slots.{slot_of, IsLoader}
use minervabot.Loader.Outcome.{Refused, Placed}
use minervabot.Loader.Load.{Loading, modules_loadmod-Loading}
use minervabot.Loader.Scan.{is_module_file, load_files, modules_rescanall}

none_more : (u : ℤ) (n : ℕ) → u ≡ pos n → u ≡ u +ℤ pos 0
unfolding ◌+ℤ◌ sub_nat
none_more u n e = rw e (ground arith)

from_zero : (k : ℕ) → pos 0 +ℤ pos k ≡ pos k
unfolding ◌+ℤ◌ sub_nat
from_zero k = ground arith

some_more : (u : ℤ) (n k : ℕ) → u ≡ pos n → (u +ℤ pos 1) +ℤ pos k ≡ u +ℤ pos (suc k)
unfolding ◌+ℤ◌ sub_nat
some_more u n k e = rw e (ground arith)

-- names that fit `PATH_MAX`, and memory
abbrev pub Supplied : Bytes → List (Bytes × Supplies) → Type 0
Supplied mod_dir [] = Unit
Supplied mod_dir ((name, supplies) ∷ files) =
    (length name + length mod_dir + 1 ≤ path_max)
    × (supplies.calloc_ok ≡ true)
    × (supplies.realloc_base ≢ none)
    × (supplies.threads.realloc_ok ≡ true)
    × Supplied mod_dir files

abbrev pub modules_in : List (Bytes × Supplies) → ℕ
modules_in [] = 0
modules_in ((name, supplies) ∷ files) =
    if is_module_file name then suc (modules_in files) else modules_in files

module _ {L : Type 0} where
  abbrev pub IsThere : List (LoadedSlot L) → CoreCtx L → Type 0
  IsThere loaded ctx = (i : ℕ) × (slot_of loaded i ≡ live ctx)

  -- every module file of the list has its module
  abbrev pub AllThere : (Bytes → L) → List (Bytes × Supplies) → List (LoadedSlot L) → Type 0
  AllThere handle_of [] loaded = Unit
  AllThere handle_of ((name, supplies) ∷ files) loaded =
      (is_module_file name ≡ true → IsThere loaded (record { dlsym = handle_of name; fn = name }))
      × AllThere handle_of files loaded

module _ {L H : Type 0} where
  -- A linker that opens every file and finds `module_init` in it.
  abbrev pub OpensAll : Linker L H → Bytes → (Bytes → L) → Type 0
  OpensAll linker mod_dir handle_of =
      (name : Bytes)
      → (linker.dlopen (mod_dir ++ name) ≡ some (handle_of name))
        × (linker.dlsym (handle_of name) (codes "module_init") ≢ none)

  -- With memory, a module that opens is placed.
  must-Placed :
      (linker : Linker L H) (supplies : Supplies) (mod_dir name : Bytes) (s s' : Loader L H)
      (handle : L)
      → linker.dlopen (mod_dir ++ name) ≡ some handle
      → linker.dlsym handle (codes "module_init") ≢ none
      → supplies.calloc_ok ≡ true
      → supplies.realloc_base ≢ none
      → Loading linker supplies mod_dir name s s'
      → (inith : H) × Placed supplies handle inith name s s'
  must-Placed linker supplies mod_dir name s s' handle opened found memory room (inl (n, same)) =
      absurd (cc (n, opened))
  must-Placed linker supplies mod_dir name s s' handle opened found memory room
        (inr (handle', e, became)) =
      go (cc (e, opened)) became
    where
      go :
          handle' ≡ handle
          → Refused linker supplies handle' s s'
            ⊎ ((inith : H) × (linker.dlsym handle' (codes "module_init") ≡ some inith)
                × Placed supplies handle' inith name s s')
          → (inith : H) × Placed supplies handle inith name s s'
      go same (inl r) = elim r.because [
        | inl e ↦ absurd (cc (e, memory))
        | inr (inl e) ↦ absurd (room e)
        | inr (inr e) ↦
            absurd (found (ap (λ h. linker.dlsym h (codes "module_init")) (sym same) ∙ e))
      ]
      go same (inr (inith, e, p)) = (inith, subst (λ h. Placed supplies h inith name s s') same p)

  Placed-IsThere :
      (supplies : Supplies) (handle : L) (inith : H) (name : Bytes) (s s' : Loader L H)
      (ctx : CoreCtx L)
      → Placed supplies handle inith name s s'
      → IsThere s.loaded ctx
      → IsThere s'.loaded ctx
  Placed-IsThere supplies handle inith name s s' ctx p (j, at) =
      (j, p.others j (λ e. live-unused (sym at ∙ ap (slot_of s.loaded) e ∙ p.was_unused)) ∙ at)
    where
      live-unused : live ctx ≢ unused
      live-unused e = cc e

  -- a state that the loop over the files reaches
  pub record AfterFiles (handle_of : Bytes → L) (files : List (Bytes × Supplies))
      (s s' : Loader L H) : Type 0 where
    pub is_loader : IsLoader s'
    pub free : s'.locked ≡ false
    pub same_cmds : s'.cmds ≡ s.cmds
    pub there : AllThere handle_of files s'.loaded
    pub kept : (ctx : CoreCtx L) → IsThere s.loaded ctx → IsThere s'.loaded ctx
    pub counted : s'.loaded_use ≡ s.loaded_use +ℤ pos (modules_in files)

  load_files-AfterFiles :
      (linker : Linker L H) (mod_dir : Bytes) (handle_of : Bytes → L)
      (files : List (Bytes × Supplies)) (s : Loader L H)
      → OpensAll linker mod_dir handle_of
      → Supplied mod_dir files
      → IsLoader s
      → s.locked ≡ false
      → (s' : Loader L H) × (load_files linker mod_dir files s ≡ ok (returns s'))
        × AfterFiles handle_of files s s'
  unfolding load_files
  load_files-AfterFiles linker mod_dir handle_of [] s opens supplied h free = (
    s,
    refl,
    record {
      is_loader = h;
      free = free;
      same_cmds = refl;
      there = tt;
      kept = λ ctx t. t;
      counted = none_more s.loaded_use h.uses h.counted;
    },
  )
  load_files-AfterFiles linker mod_dir handle_of ((name, supplies) ∷ files) s opens
        (short, memory, room, pool, supplied) h free =
      elim (Bool-cases (is_module_file name)) [
        | inl e ↦
            let (s₁, run₁, stays, became) =
              modules_loadmod-Loading linker supplies mod_dir name s h free pool short in
            let (inith, p) =
              must-Placed linker supplies mod_dir name s s₁ (handle_of name) (opens name).0
                (opens name).1 memory room became in
            let (s₂, run₂, a) =
              load_files-AfterFiles linker mod_dir handle_of files s₁ opens supplied stays.is_loader
                stays.free in
            (
              s₂,
              rw (e, load_files) (rw (run₁, ◌>>=◌) run₂),
              record {
                is_loader = a.is_loader;
                free = a.free;
                same_cmds = a.same_cmds ∙ stays.same_cmds;
                there = (λ _. a.kept _ (p.i, p.is_live), a.there);
                kept = λ ctx t.
                    a.kept ctx (Placed-IsThere supplies (handle_of name) inith name s s₁ ctx p t);
                counted =
                    a.counted
                    ∙ ap (λ u. u +ℤ pos (modules_in files)) p.one_more
                    ∙ some_more s.loaded_use h.uses (modules_in files) h.counted
                    ∙ rw e refl;
              },
            )
        | inr e ↦
            let (s₂, run₂, a) =
              load_files-AfterFiles linker mod_dir handle_of files s opens supplied h free in
            (
              s₂,
              rw (e, load_files) run₂,
              record {
                is_loader = a.is_loader;
                free = a.free;
                same_cmds = a.same_cmds;
                there = (λ yes. absurd (cc (e, yes)), a.there);
                kept = a.kept;
                counted = a.counted ∙ rw e refl;
              },
            )
      ]

  -- At the start of the program, with no module loaded, an array in order, names that fit, memory, and a
  -- linker that opens every file and finds `module_init`: `modules_rescanall` returns, and then every
  -- file that it takes for a module has its module in a slot, as many are counted as there are such files,
  -- the array is in order and the mutex free.
  pub modules_rescanall-AllThere :
      (linker : Linker L H) (r : ℕ → Resources) (mod_dir : Bytes) (handle_of : Bytes → L)
      (files : List (Bytes × Supplies)) (s : Loader L H)
      → OpensAll linker mod_dir handle_of
      → Supplied mod_dir files
      → IsLoader s
      → s.locked ≡ false
      → s.loaded_use ≡ pos 0
      → (s' : Loader L H) × (modules_rescanall linker r mod_dir (some files) s ≡ ok (returns s'))
        × IsLoader s'
        × (s'.locked ≡ false)
        × AllThere handle_of files s'.loaded
        × (s'.loaded_use ≡ pos (modules_in files))
  unfolding modules_rescanall unlock_loaded
  modules_rescanall-AllThere linker r mod_dir handle_of files s opens supplied h free none_yet =
      let (s', run, a) =
        load_files-AfterFiles linker mod_dir handle_of files s opens supplied h free in
      let unneeded : ltb_ℤ (pos 0) s.loaded_use ≡ false = rw none_yet refl in
      (
        unlock_loaded s',
        rw (unneeded, ◌>>=◌) (rw (run, ◌>>=◌) refl),
        a.is_loader,
        refl,
        a.there,
        a.counted ∙ rw none_yet (from_zero (modules_in files)),
      )
