-- ===== src/Loader/Outcome.antt =====
-- What `modules_loadmod` comes to, by what it leaves in the array and in the pool.
use minervabot.Prelude.{
  ℕ, ◌+◌, ◌≡◌, ◌≢◌, false, none, some, ◌∷◌, get_elem?, if◌then◌else◌, pos, ◌+ℤ◌, ◌⊎◌,
}
use minervabot.CString.{Bytes, codes}
use minervabot.Threadpool.{init}
use minervabot.Loader.{unused, live, Linker, Supplies, Loader}
use minervabot.Loader.Slots.{slot_of, IsLoader}

module _ {L H : Type 0} where
  -- no memory, or no `module_init`
  abbrev pub Reason : Linker L H → Supplies → L → Type 0
  Reason linker supplies handle =
      (supplies.calloc_ok ≡ false)
      ⊎ ((supplies.realloc_base ≡ none) ⊎ (linker.dlsym handle (codes "module_init") ≡ none))

  -- the module's handle has been closed again, and nothing else has changed
  pub record Refused (linker : Linker L H) (supplies : Supplies) (handle : L) (s s' : Loader L H)
      : Type 0 where
    pub because : Reason linker supplies handle
    pub closed_again : s'.closed ≡ handle ∷ s.closed
    pub same_slots : (i : ℕ) → slot_of s'.loaded i ≡ slot_of s.loaded i
    pub same_use : s'.loaded_use ≡ s.loaded_use
    pub same_threads : s'.threads ≡ s.threads

  -- the module stands in slot `i`, and slot `n` of the pool has its initialisation
  pub record Placed (supplies : Supplies) (handle : L) (inith : H) (mod_file : Bytes)
      (s s' : Loader L H) : Type 0 where
    pub i : ℕ
    pub n : ℕ
    pub was_unused : slot_of s.loaded i ≡ unused
    pub is_live : slot_of s'.loaded i ≡ live (record { dlsym = handle; fn = mod_file })
    pub others : (j : ℕ) → j ≢ i → slot_of s'.loaded j ≡ slot_of s.loaded j
    pub one_more : s'.loaded_use ≡ s.loaded_use +ℤ pos 1
    pub same_closed : s'.closed ≡ s.closed
    pub queued :
        get_elem? s'.threads.pool n
        ≡ some (
            if supplies.threads.malloc_ok
            then some (init inith (record { dlsym = handle; fn = mod_file }) (s'.base + i))
            else none)

  -- what remains true besides
  pub record Stays (s s' : Loader L H) : Type 0 where
    pub is_loader : IsLoader s'
    pub free : s'.locked ≡ false
    pub same_cmds : s'.cmds ≡ s.cmds
