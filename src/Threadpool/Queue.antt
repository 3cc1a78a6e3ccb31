-- ===== src/Threadpool/Queue.antt =====
-- Queueing a job of any kind: with room for the pool to grow, the pool stays in order.
use minervabot.Prelude.{
  ℕ, suc, zero, ◌<◌, ◌≡◌, refl, ◌∙◌, true, Option, none, some, List, [], ◌∷◌, arith, if◌then◌else◌,
  length, get_elem?,
}
use minervabot.Run.{ok, fault, ◌>>=◌}
use minervabot.Threadpool.{
  deinit, threadpool_queue_deinit, join_started, Job, Threadpool, Resources,
  threadpool_queue_findspace, fill_slot, execution_done,
}
use minervabot.Threadpool.Slots.{
  IsPool, Kept, findspace-IsPool, set_args-IsPool, execution_done-clear,
}

-- the slot whose thread is started, if the job in slot `n` gets memory and a thread
abbrev pub started_in : Resources → ℕ → Option ℕ
started_in r n = if r.malloc_ok then (if r.create_ok then some n else none) else none

module _ {H C : Type 0} where
  pub record Queued (r : Resources) (s s' : Threadpool H C) (job : Job H C) (n : ℕ) : Type 0 where
    pub in_order : IsPool s'
    pub slot_was_free :
        (s₁ : Threadpool H C) × (threadpool_queue_findspace r.realloc_ok s ≡ ok (some n, s₁))
        × (fill_slot r (some n) s₁ job ≡ ok (s', started_in r n))
    pub inside : n < length s'.pool
    pub here : get_elem? s'.pool n ≡ some (if r.malloc_ok then some job else none)
    pub kept : Kept s s' n

  pub fill_slot-Queued :
      (r : Resources) (s : Threadpool H C) (job : Job H C)
      → r.realloc_ok ≡ true
      → IsPool s
      → (n : ℕ) × (s' : Threadpool H C) × Queued r s s' job n
  unfolding fill_slot
  fill_slot-Queued r s job room h =
      let (n, s₁, found, h₁, (lt, at), kept₁, _) = findspace-IsPool s h in
      let (s₂, put, h₂, here, kept₂, _) =
        set_args-IsPool s₁ n (if r.malloc_ok then some job else none) h₁ lt in
      (
        n,
        s₂,
        record {
          in_order = h₂;
          slot_was_free = (s₁, rw room found, rw (put, ◌>>=◌) refl);
          inside = get_elem?-inside s₂.pool n here;
          here = here;
          kept = λ i job' ne e. kept₂ i job' ne (kept₁ i job' ne e);
        },
      )
    where
      get_elem?-inside :
          (p : List (Option (Job H C))) (i : ℕ) {x : Option (Job H C)}
          → get_elem? p i ≡ some x
          → i < length p
      get_elem?-inside [] i e = absurd (cc e)
      get_elem?-inside (y ∷ p) zero e = omega arith
      get_elem?-inside (y ∷ p) (suc i) e = let r = get_elem?-inside p i e in omega arith

  -- a thread that ends frees its slot and no other
  pub execution_done-IsPool :
      (s : Threadpool H C) (n : ℕ)
      → IsPool s
      → n < length s.pool
      → (s' : Threadpool H C) × (execution_done s n ≡ ok s')
        × IsPool s'
        × (get_elem? s'.pool n ≡ some none)
        × Kept s s' n
  execution_done-IsPool s n h lt =
      let (s', freed, h', empty, kept, _) = set_args-IsPool s n none h lt in
      (s', execution_done-clear s n h.clear ∙ freed, h', empty, kept)

  -- A clean-up whose thread is started and that is waited for: its thread is detached.
  pub threadpool_queue_deinit_wait :
      (s : Threadpool H C) (handler : H) (ctx : C) (ctx_pos : ℕ)
      → IsPool s
      → threadpool_queue_deinit
          (record { realloc_ok = true; malloc_ok = true; create_ok = true })
          s
          handler
          ctx
          ctx_pos
          true
        ≡ fault
  unfolding threadpool_queue_deinit join_started
  threadpool_queue_deinit_wait s handler ctx ctx_pos h =
      let (n, s', q) =
        fill_slot-Queued (record { realloc_ok = true; malloc_ok = true; create_ok = true }) s
          (deinit handler ctx ctx_pos) refl h in
      let (s₁, found, filled) = q.slot_was_free in rw (found, ◌>>=◌) (rw (filled, ◌>>=◌) refl)
