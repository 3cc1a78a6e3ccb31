-- ===== src/Permissions/Update.antt =====
-- `permissions_set`: what a new level does to the levels of all hosts, and when it is lost.
use minervabot.Prelude.{
  ℕ, ◌+◌, ◌<◌, ◌≡◌, refl, sym, ap, ◌∙◌, subst, true, false, none, [], ◌∷◌, ◌++◌, arith, length,
  ◌==◌, ==_iff, Bool-cases, inl, inr, ℤ, is_zero,
}
use mathlib.Core.Path.{fun_ext}
use minervabot.Run.{ok, ◌>>=◌}
use minervabot.CString.{Bytes}
use minervabot.Crc8.Reference.{AreBytes}
use minervabot.Hashmap.Assoc.{
  Pairs, lookup, erase, or_zero, Once, lookup-erase, Once-erase, Once-append, AtEnd,
}
use minervabot.Hashmap.Refine.{
  Models, view, replace, HasRoom, hashmap_get-view, hashmap_put-Models, hashmap_remove-Models,
}
use minervabot.Hashmap.{Hashmap, hash}
use minervabot.Permissions.{Memory, Permissions, drop_old, permissions_set}

abbrev pub enough : Memory
enough = record { realloc_ok = true; strdup_ok = true }

-- no host has the level 0 on record
abbrev pub NonZero : Pairs → Type 0
NonZero [] = Unit
NonZero ((k, v) ∷ es) = (is_zero v ≡ false) × NonZero es

pub NonZero-append :
    (es : Pairs) (k : Bytes) (v : ℤ) → NonZero es → is_zero v ≡ false → NonZero (es ++ (k, v) ∷ [])
NonZero-append [] k v h z = (z, tt)
NonZero-append (e ∷ es) k v (a, h) z = (a, NonZero-append es k v h z)

pub NonZero-erase : (k : Bytes) (es : Pairs) → NonZero es → NonZero (erase k es)
unfolding erase
NonZero-erase k [] h = tt
NonZero-erase k ((j, v) ∷ es) (a, h) = ground (arith, NonZero-erase k es h)

lookup-NonZero :
    (k : Bytes) (es : Pairs)
    → NonZero es
    → is_zero (or_zero (lookup k es)) ≡ true
    → lookup k es ≡ none
unfolding lookup
lookup-NonZero k [] h z = refl
lookup-NonZero k ((j, v) ∷ es) (a, h) z = ground (arith, lookup-NonZero k es h)

erase_absent : (k : Bytes) (es : Pairs) → lookup k es ≡ none → erase k es ≡ es
unfolding lookup erase
erase_absent k [] h = refl
erase_absent k ((j, v) ∷ es) h = ground (arith, erase_absent k es)

length-erase_le : (k : Bytes) (es : Pairs) → length (erase k es) < length es + 1
unfolding erase
length-erase_le k [] = omega arith
length-erase_le k ((j, v) ∷ es) = ground (arith, length-erase_le k es)

-- The levels on record: each host once in its bucket, none with the level 0.
pub record IsRecord (m : Hashmap) (pairs : ℕ → Pairs) : Type 0 where
  pub models : Models m pairs
  pub once : (i : ℕ) → Once (pairs i)
  pub non_zero : (i : ℕ) → NonZero (pairs i)

-- the old pair goes, whether the test sees it or it is not there
drop_old-erase :
    {m : Hashmap} {pairs : ℕ → Pairs} (host : Bytes)
    → IsRecord m pairs
    → AreBytes host
    → HasRoom m host
    → AtEnd host (pairs (hash host))
    → (m' : Hashmap) × (drop_old m host ≡ ok m')
      × Models m' (replace pairs (hash host) (erase host (pairs (hash host))))
unfolding drop_old
drop_old-erase {m} {pairs} host t bytes room at_end =
    elim (Bool-cases (is_zero (or_zero (view pairs host)))) [
      | inl z ↦ (
        m,
        rw (hashmap_get-view t.models host bytes) (rw (z, ◌>>=◌)),
        subst (Models m) (fun_ext (unchanged z)) t.models,
      )
      | inr z ↦
          let (m', run, t') = hashmap_remove-Models t.models host bytes room at_end in
          (m', rw (hashmap_get-view t.models host bytes) (rw (z, ◌>>=◌) (rw run)), t')
    ]
  where
    unchanged :
        is_zero (or_zero (view pairs host)) ≡ true
        → (i : ℕ) → pairs i ≡ replace pairs (hash host) (erase host (pairs (hash host))) i
    unchanged z i =
        let gone = erase_absent host _ (lookup-NonZero host _ (t.non_zero (hash host)) z) in
        elim (Bool-cases (i == hash host)) [
          | inl e ↦ rw e (ap pairs ((==_iff i _).0 e) ∙ sym gone)
          | inr e ↦ rw e
        ]

pub replace_self : (pairs : ℕ → Pairs) (h : ℕ) (es : Pairs) → replace pairs h es h ≡ es
replace_self pairs h es = ground arith

pub replace_twice :
    (pairs : ℕ → Pairs) (h : ℕ) (a b : Pairs) → replace (replace pairs h a) h b ≡ replace pairs h b
replace_twice pairs h a b = fun_ext λ i. elim (Bool-cases (i == h)) [ inl e ↦ rw e | inr e ↦ rw e ]

module _ (pairs : ℕ → Pairs) (h : ℕ) (es : Pairs) where
  replace-Once : ((i : ℕ) → Once (pairs i)) → Once es → (i : ℕ) → Once (replace pairs h es i)
  replace-Once old new i = elim (Bool-cases (i == h)) [ inl e ↦ rw e new | inr e ↦ rw e (old i) ]

  replace-NonZero :
      ((i : ℕ) → NonZero (pairs i)) → NonZero es → (i : ℕ) → NonZero (replace pairs h es i)
  replace-NonZero old new i = elim (Bool-cases (i == h)) [ inl e ↦ rw e new | inr e ↦ rw e (old i) ]

-- the pairs of the bucket of `host` behind a call of `permissions_set`
abbrev pub updated : (ℕ → Pairs) → Bytes → ℤ → ℕ → Pairs
updated pairs host level =
    replace pairs (hash host) (erase host (pairs (hash host)) ++ (host, level) ∷ [])

-- With the mutex free, memory given, a slot to spare in the bucket, fewer than 32767 pairs there, and the host
-- the last of them or not on record, `permissions_set` of a level other than 0 puts the level on record and frees the mutex.
pub permissions_set-IsRecord :
    (s : Permissions) {pairs : ℕ → Pairs} (host : Bytes) (level : ℤ)
    → s.locked ≡ false
    → IsRecord s.perm_map pairs
    → AreBytes host
    → HasRoom s.perm_map host
    → AtEnd host (pairs (hash host))
    → length (pairs (hash host)) < 32767
    → is_zero level ≡ false
    → (s' : Permissions) × (permissions_set enough s host level ≡ ok s')
      × IsRecord s'.perm_map (updated pairs host level)
      × (s'.locked ≡ false)
      × (s'.pbuf ≡ s.pbuf)
unfolding permissions_set
permissions_set-IsRecord s {pairs} host level free t bytes room at_end small nz =
    let (m, dropped, tm) = drop_old-erase host t bytes room at_end in
    let rest = erase host (pairs (hash host)) in
    let at_home = replace_self pairs (hash host) rest in
    let fewer : length (replace pairs (hash host) rest (hash host)) < 32768 =
      rw at_home (omega (arith, length-erase_le host (pairs (hash host)))) in
    let (m', run, tm') = hashmap_put-Models tm host bytes level fewer in
    let whole : replace (replace pairs (hash host) rest) (hash host)
          (replace pairs (hash host) rest (hash host) ++ (host, level) ∷ [])
        ≡ updated pairs host level =
      replace_twice pairs (hash host) rest _
      ∙ ap (λ es. replace pairs (hash host) (es ++ (host, level) ∷ [])) at_home in
    let once = Once-erase host _ (t.once (hash host)) in
    (
      record { perm_map = m'; locked = false; pbuf = s.pbuf },
      simp free (rw dropped (rw run)),
      record {
        models = subst (Models m') whole tm';
        once =
            replace-Once pairs _ _ t.once
              (Once-append rest host level once (lookup-erase host _ (t.once (hash host))));
        non_zero =
            replace-NonZero pairs _ _ t.non_zero
              (NonZero-append rest host level (NonZero-erase host _ (t.non_zero (hash host))) nz);
      },
      refl,
      refl,
    )
