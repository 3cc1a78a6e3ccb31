-- ===== src/Loader/Slots.antt =====
-- The array of loaded modules: its free slots, and what a write and a `realloc` do to it.
use minervabot.Prelude.{
  ℕ, zero, suc, ◌+◌, ◌*◌, ◌≤◌, ◌<◌, ◌≡◌, ◌≢◌, refl, sym, ap, ◌∙◌, true, Option, none, some, List,
  [], ◌∷◌, ◌++◌, arith, ltb, length, length-append, length-replicate, replicate, set, get_or, ℤ,
  pos, ltb_ℤ, ◌+ℤ◌, sub_nat, inl, inr, ◌⊎◌, Bool-cases, Option-cases, ltb→lt,
}
use minervabot.Run.{ok}
use minervabot.Loader.{CoreCtx, LoadedSlot, unused, live, freed, Loader, first_unused, grow_loaded}
use minervabot.Threadpool.{Threadpool}
use minervabot.Threadpool.Slots.{IsPool}

module _ {L : Type 0} where
  -- the slots that are not null
  abbrev pub busy : List (LoadedSlot L) → ℕ
  busy [] = 0
  busy (unused ∷ loaded) = busy loaded
  busy (live ctx ∷ loaded) = suc (busy loaded)
  busy (freed ∷ loaded) = suc (busy loaded)

busy-replicate : (L : Type 0) (n : ℕ) → busy (replicate {A = LoadedSlot L} n unused) ≡ 0
busy-replicate L zero = refl
busy-replicate L (suc n) = busy-replicate L n

suc_use : (n len : ℕ) → ltb_ℤ (pos n +ℤ pos 1) (pos len) ≡ ltb (suc n) len
unfolding ◌+ℤ◌ sub_nat
suc_use n len = ground arith

module _ {L : Type 0} where
  -- slot `i`; behind the array there is none
  abbrev pub slot_of : List (LoadedSlot L) → ℕ → LoadedSlot L
  slot_of loaded i = get_or loaded i unused

  first_unused-slot_of :
      (loaded : List (LoadedSlot L)) (n k : ℕ)
      → k ≡ length loaded
      → busy loaded < k
      → (i : ℕ) × (first_unused loaded k n ≡ ok (n + i)) × (i < k) × (slot_of loaded i ≡ unused)
  unfolding first_unused
  first_unused-slot_of [] n k e lt = absurd (omega arith)
  first_unused-slot_of (x ∷ loaded) n zero e lt = absurd (omega arith)
  first_unused-slot_of (unused ∷ loaded) n (suc k) e lt =
      (0, ap ok (omega arith), omega arith, refl)
  first_unused-slot_of (live ctx ∷ loaded) n (suc k) e lt =
      let (i, run, below, at) = first_unused-slot_of loaded (n + 1) k (omega arith) (omega arith) in
      (suc i, run ∙ ap ok (omega arith), omega arith, at)
  first_unused-slot_of (freed ∷ loaded) n (suc k) e lt =
      let (i, run, below, at) = first_unused-slot_of loaded (n + 1) k (omega arith) (omega arith) in
      (suc i, run ∙ ap ok (omega arith), omega arith, at)

  pub first_unused_lem :
      (loaded : List (LoadedSlot L)) (k : ℕ)
      → k ≡ length loaded
      → busy loaded < k
      → (i : ℕ) × (first_unused loaded k 0 ≡ ok i) × (i < k) × (slot_of loaded i ≡ unused)
  first_unused_lem loaded k e lt =
      let (i, run, below, at) = first_unused-slot_of loaded 0 k e lt in
      (i, run ∙ ap ok (omega arith), below, at)

  pub busy-set :
      (loaded : List (LoadedSlot L)) (i : ℕ) (ctx : CoreCtx L)
      → slot_of loaded i ≡ unused
      → busy (set loaded i (live ctx)) ≤ suc (busy loaded)
  busy-set [] i ctx e = omega arith
  busy-set (unused ∷ loaded) zero ctx e = omega arith
  busy-set (live c ∷ loaded) zero ctx e = omega arith
  busy-set (freed ∷ loaded) zero ctx e = omega arith
  busy-set (unused ∷ loaded) (suc i) ctx e = busy-set loaded i ctx e
  busy-set (live c ∷ loaded) (suc i) ctx e = omega (arith, busy-set loaded i ctx e)
  busy-set (freed ∷ loaded) (suc i) ctx e = omega (arith, busy-set loaded i ctx e)

  pub busy-clear : (loaded : List (LoadedSlot L)) (i : ℕ) → busy (set loaded i unused) ≤ busy loaded
  busy-clear [] i = omega arith
  busy-clear (unused ∷ loaded) zero = omega arith
  busy-clear (live c ∷ loaded) zero = omega arith
  busy-clear (freed ∷ loaded) zero = omega arith
  busy-clear (unused ∷ loaded) (suc i) = busy-clear loaded i
  busy-clear (live c ∷ loaded) (suc i) = omega (arith, busy-clear loaded i)
  busy-clear (freed ∷ loaded) (suc i) = omega (arith, busy-clear loaded i)

  pub slot_of-set_self :
      (loaded : List (LoadedSlot L)) (i : ℕ) (x : LoadedSlot L)
      → i < length loaded
      → slot_of (set loaded i x) i ≡ x
  slot_of-set_self [] i x lt = absurd (omega arith)
  slot_of-set_self (y ∷ loaded) zero x lt = refl
  slot_of-set_self (y ∷ loaded) (suc i) x lt = slot_of-set_self loaded i x (omega arith)

  pub slot_of-set_ne :
      (loaded : List (LoadedSlot L)) (i j : ℕ) (x : LoadedSlot L)
      → j ≢ i
      → slot_of (set loaded i x) j ≡ slot_of loaded j
  slot_of-set_ne [] i j x ne = refl
  slot_of-set_ne (y ∷ loaded) zero zero x ne = absurd (ne refl)
  slot_of-set_ne (y ∷ loaded) zero (suc j) x ne = refl
  slot_of-set_ne (y ∷ loaded) (suc i) zero x ne = refl
  slot_of-set_ne (y ∷ loaded) (suc i) (suc j) x ne =
      slot_of-set_ne loaded i j x (λ e. ne (ap suc e))

  slot_of-replicate : (n i : ℕ) → slot_of (replicate n unused) i ≡ unused
  slot_of-replicate zero i = refl
  slot_of-replicate (suc n) zero = refl
  slot_of-replicate (suc n) (suc i) = slot_of-replicate n i

  pub slot_of-grown :
      (loaded : List (LoadedSlot L)) (n i : ℕ)
      → slot_of (loaded ++ replicate n unused) i ≡ slot_of loaded i
  slot_of-grown [] n i = slot_of-replicate n i
  slot_of-grown (x ∷ loaded) n zero = refl
  slot_of-grown (x ∷ loaded) n (suc i) = slot_of-grown loaded n i

  pub busy-le : (loaded : List (LoadedSlot L)) → busy loaded ≤ length loaded
  busy-le [] = omega arith
  busy-le (unused ∷ loaded) = omega (arith, busy-le loaded)
  busy-le (live c ∷ loaded) = omega (arith, busy-le loaded)
  busy-le (freed ∷ loaded) = omega (arith, busy-le loaded)

  pub busy-grown :
      (loaded : List (LoadedSlot L)) (n : ℕ) → busy (loaded ++ replicate n unused) ≡ busy loaded
  busy-grown [] n = busy-replicate L n
  busy-grown (unused ∷ loaded) n = busy-grown loaded n
  busy-grown (live c ∷ loaded) n = ap suc (busy-grown loaded n)
  busy-grown (freed ∷ loaded) n = ap suc (busy-grown loaded n)

module _ {L H : Type 0} where
  -- The array is as long as it says, no more slots are taken than it counts, and the pool is in order.
  pub record IsArray (loaded : List (LoadedSlot L)) (loaded_len : ℕ) (loaded_use : ℤ)
      (threads : Threadpool H (CoreCtx L)) : Type 0 where
    pub size : length loaded ≡ loaded_len
    pub some_slot : 0 < loaded_len
    pub uses : ℕ
    pub counted : loaded_use ≡ pos uses
    pub enough : busy loaded ≤ uses
    pub pool : IsPool threads

  abbrev pub IsLoader : Loader L H → Type 0
  IsLoader s = IsArray s.loaded s.loaded_len s.loaded_use s.threads

  -- the same modules, in an array that may be longer
  pub record SameModules (s s' : Loader L H) : Type 0 where
    pub same_slots : (i : ℕ) → slot_of s'.loaded i ≡ slot_of s.loaded i
    pub same_use : s'.loaded_use ≡ s.loaded_use
    pub same_threads : s'.threads ≡ s.threads
    pub same_closed : s'.closed ≡ s.closed
    pub same_cmds : s'.cmds ≡ s.cmds

  -- The array after `if (loaded_use + 1 >= loaded_len)`: the same modules, and a free slot.
  pub record Grown (s s' : Loader L H) : Type 0 where
    pub is_loader : IsLoader s'
    pub a_free_slot : busy s'.loaded < s'.loaded_len
    pub same : SameModules s s'

  roomy : (s : Loader L H) → IsLoader s → busy s.loaded < s.loaded_len → Grown s s
  roomy s h lt = record {
    is_loader = h;
    a_free_slot = lt;
    same = record {
      same_slots = λ i. refl;
      same_use = refl;
      same_threads = refl;
      same_closed = refl;
      same_cmds = refl;
    };
  }

  abbrev moved : Loader L H → ℕ → Loader L H
  moved s base = record s {
    base = base;
    loaded = s.loaded ++ replicate s.loaded_len unused;
    loaded_len = s.loaded_len * 2;
  }

  moved-Grown : (s : Loader L H) (base : ℕ) → IsLoader s → Grown s (moved s base)
  moved-Grown s base h = record {
    is_loader = record {
      size =
          length-append s.loaded (replicate s.loaded_len unused)
          ∙ omega (arith, h.size, length-replicate {A = LoadedSlot L} s.loaded_len unused);
      some_slot = omega (arith, h.some_slot);
      uses = h.uses;
      counted = h.counted;
      enough = omega (arith, h.enough, busy-grown s.loaded s.loaded_len);
      pool = h.pool;
    };
    a_free_slot =
        omega (arith, busy-grown s.loaded s.loaded_len, busy-le s.loaded, h.size, h.some_slot);
    same = record {
      same_slots = slot_of-grown s.loaded s.loaded_len;
      same_use = refl;
      same_threads = refl;
      same_closed = refl;
      same_cmds = refl;
    };
  }

  pub grow_loaded-Grown :
      (realloc : Option ℕ) (s : Loader L H)
      → IsLoader s
      → ((grow_loaded realloc s ≡ none) × (realloc ≡ none))
        ⊎ ((s' : Loader L H) × (grow_loaded realloc s ≡ some s') × Grown s s')
  unfolding grow_loaded
  grow_loaded-Grown realloc s h =
      let test = suc_use h.uses s.loaded_len in
      elim (Bool-cases (ltb_ℤ (s.loaded_use +ℤ pos 1) (pos s.loaded_len))) [
        | inl lt ↦
            let lt' : ltb (suc h.uses) s.loaded_len ≡ true = sym test ∙ rw h.counted at lt in
            inr (s, simp lt, roomy s h (omega (arith, h.enough, ltb→lt _ _ lt')))
        | inr ge ↦ elim (Option-cases realloc) [
          | inl e ↦ inl (rw e (simp ge), e)
          | inr (base, e) ↦ inr (moved s base, rw e (simp ge), moved-Grown s base h)
        ]
      ]
