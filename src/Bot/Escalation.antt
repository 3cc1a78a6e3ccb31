-- ===== src/Bot/Escalation.antt =====
-- What `setp` and `getp` of src/modules/bot_perms.c may change, and for whom.
use minervabot.Prelude.{
  ℕ, ◌+◌, ◌≤◌, ◌<◌, ◌≡◌, refl, sym, ap, ◌∙◌, Bool, true, false, not, ◌&&◌, Option, none, some, List,
  [], ◌∷◌, ◌++◌, arith, ◌==◌, length, Bool-cases, inl, inr, ◌⊎◌, ℤ, pos, negsuc, ltb_ℤ, is_zero,
  ltb,
}
use minervabot.Run.{Run, ok, fault, deadlock, ◌>>=◌, >>=-eq-ok}
use minervabot.CString.{Bytes, codes, copy, terminated}
use minervabot.Irc.Sender.{Lacks, split_at-found}
use minervabot.Hashmap.{hash}
use minervabot.Hashmap.Assoc.{Pairs, AtEnd}
use minervabot.Hashmap.Refine.{HasRoom}
use minervabot.Permissions.{
  Memory, Permissions, lock, permissions_set, permissions_get, search_masks,
}
use minervabot.Permissions.Search.{IsText}
use minervabot.Permissions.Update.{enough, IsRecord}
use minervabot.Permissions.Contract.{permissions_get-set}
use minervabot.Bot.{Caller, CoreCall, msgva, first, to_nick}
use minervabot.Bot.Perms.{
  atoi, decimal, may_set, set_level, set_case, own_level, get_case, handle_perms,
}
use minervabot.Bot.Decimal.{AllDigits, IsInt, atoi-decimal, decimal_digits-AllDigits}

-- Nothing changes on record, or the caller was entitled to the change.
abbrev pub Entitled : Memory → Permissions → Caller → Permissions → Type 0
Entitled mem s who s' =
    (s'.perm_map ≡ s.perm_map)
    ⊎ ((host : Bytes) × (level : ℤ) × (ltb_ℤ who.permission_level (pos 40000) ≡ false)
        × (ltb_ℤ level who.permission_level ≡ true)
        × (permissions_set mem s host level ≡ ok s'))

value_of {ℓ} : {A : Type ℓ} → A → Run A → A
value_of d (ok a) = a
value_of d fault = d
value_of d deadlock = d

ok-injective {ℓ} : {A : Type ℓ} {a b : A} → ok a ≡ ok b → a ≡ b
unfolding value_of
ok-injective {a} e = ap (value_of a) e

lock-perm_map : (s s' : Permissions) → lock s ≡ ok s' → s'.perm_map ≡ s.perm_map
lock-perm_map s s' run = elim (Bool-cases s.locked) [
  | inl h ↦ absurd (held (rw h at run))
  | inr h ↦ sym (ap (λ (p : Permissions). p.perm_map) (ok-injective (free s h ∙ run)))
]
  where
    held : deadlock ≡ ok s' → ⊥
    held e = cc

    free : (s : Permissions) → s.locked ≡ false → ok (record s { locked = true }) ≡ lock s
    free s h = simp h

permissions_get-perm_map :
    (s s' : Permissions) (host : Bytes) (v : ℤ)
    → permissions_get s host ≡ ok (v, s')
    → s'.perm_map ≡ s.perm_map
unfolding permissions_get
permissions_get-perm_map s s' host v run =
    let (locked, l, rest) = >>=-eq-ok (lock s) _ run in
    elim (Bool-cases (ltb 128 (length host))) [
      | inl long ↦
          ap (λ (p : ℤ × Permissions). p.1.perm_map) (sym (ok-injective (rw long at rest)))
          ∙ lock-perm_map s locked l
      | inr short ↦
          let (pbuf, c, rest') =
            >>=-eq-ok (copy locked.pbuf (terminated host)) _ (rw short at rest) in
          let ((perm, pbuf'), found, done) =
            >>=-eq-ok (search_masks locked.perm_map (length host + 1) pbuf) _ rest' in
          ap (λ (p : ℤ × Permissions). p.1.perm_map) (sym (ok-injective done))
          ∙ lock-perm_map s locked l
    ]

may_set-both :
    (who : Caller) (level : ℤ)
    → may_set who level ≡ true
    → (ltb_ℤ who.permission_level (pos 40000) ≡ false) × (ltb_ℤ level who.permission_level ≡ true)
unfolding may_set
may_set-both who level h =
    both (ltb_ℤ who.permission_level (pos 40000)) (ltb_ℤ level who.permission_level) h
  where
    both : (a b : Bool) → (not a && b) ≡ true → (a ≡ false) × (b ≡ true)
    both true b h = absurd (cc h)
    both false b h = (refl, h)

set_level-Entitled :
    (mem : Memory) (s : Permissions) (who : Caller) (where_ host : Bytes) (level : ℤ)
    (s' : Permissions) (calls : List CoreCall)
    → set_level mem s who where_ host level ≡ ok (s', calls)
    → Entitled mem s who s'
unfolding set_level
set_level-Entitled mem s who where_ host level s' calls run =
    elim (Bool-cases (may_set who level)) [
      | inl h ↦
          let (t, set_run, done) = >>=-eq-ok (permissions_set mem s host level) _ (rw h at run) in
          let (high, below) = may_set-both who level h in
          inr (
            host,
            level,
            high,
            below,
            set_run ∙ ap (λ (p : Permissions × List CoreCall). ok p.0) (ok-injective done),
          )
      | inr h ↦ inl (
          ap (λ (p : Permissions × List CoreCall). p.0.perm_map) (sym (ok-injective (rw h at run))))
    ]

set_case-Entitled :
    (mem : Memory) (s : Permissions) (who : Caller) (where_ : Bytes) (o : Option (Bytes × Bytes))
    (s' : Permissions) (calls : List CoreCall)
    → set_case mem s who where_ o ≡ ok (s', calls)
    → Entitled mem s who s'
unfolding set_case
set_case-Entitled mem s who where_ none s' calls run =
    inl (ap (λ (p : Permissions × List CoreCall). p.0.perm_map) (sym (ok-injective run)))
set_case-Entitled mem s who where_ (some (level_text, host)) s' calls run =
    let (level, parsed, rest) = >>=-eq-ok (atoi level_text) _ run in
    set_level-Entitled mem s who where_ host level s' calls rest

get_case-perm_map :
    (s : Permissions) (who : Caller) (where_ args : Bytes) (s' : Permissions)
    (calls : List CoreCall)
    → get_case s who where_ args ≡ ok (s', calls)
    → s'.perm_map ≡ s.perm_map
unfolding get_case own_level
get_case-perm_map s who where_ [] s' calls run =
    ap (λ (p : Permissions × List CoreCall). p.0.perm_map) (sym (ok-injective run))
get_case-perm_map s who where_ (c ∷ args) s' calls run =
    elim (Bool-cases (ltb_ℤ who.permission_level (pos 25000))) [
      | inl h ↦
          ap (λ (p : Permissions × List CoreCall). p.0.perm_map) (sym (ok-injective (rw h at run)))
      | inr h ↦
          let ((level, t), got, done) = >>=-eq-ok (permissions_get s (c ∷ args)) _ (rw h at run) in
          ap (λ (p : Permissions × List CoreCall). p.0.perm_map) (sym (ok-injective done))
          ∙ permissions_get-perm_map s t (c ∷ args) level got
    ]

-- Whatever `setp` and `getp` are given, a run that returns leaves the levels on record as they were,
-- or the caller has at least the level of an operator and has set one host to a level below their own.
pub handle_perms-Entitled :
    (mem : Memory) (s : Permissions) (cmdname : Bytes) (who : Caller) (where_ args : Bytes)
    (s' : Permissions) (calls : List CoreCall)
    → handle_perms mem s cmdname who where_ args ≡ ok (s', calls)
    → Entitled mem s who s'
unfolding handle_perms
handle_perms-Entitled mem s cmdname who where_ args s' calls run =
    elim (Bool-cases (first cmdname == b's')) [
      | inl h ↦ set_case-Entitled mem s who where_ _ s' calls (rw h at run)
      | inr h ↦ elim (Bool-cases (first cmdname == b'g')) [
        | inl g ↦ inl (get_case-perm_map s who where_ args s' calls (rw (h, g) at run))
        | inr g ↦ inl (
            ap (λ (p : Permissions × List CoreCall). p.0.perm_map)
              (sym (ok-injective (rw (h, g) at run))))
      ]
    ]

AllDigits-Lacks : (s : Bytes) → AllDigits s → Lacks b' ' s
AllDigits-Lacks [] h = tt
AllDigits-Lacks (c ∷ s) (l, u, h) = (not_space c l, AllDigits-Lacks s h)
  where
    not_space : (c : ℕ) → 48 ≤ c → (c == b' ') ≡ false
    not_space c l = ground arith

decimal-Lacks : (v : ℤ) → IsInt v → Lacks b' ' (decimal v)
unfolding decimal
decimal-Lacks (pos n) h = AllDigits-Lacks _ (decimal_digits-AllDigits n (omega arith))
decimal-Lacks (negsuc n) h =
    (refl, AllDigits-Lacks _ (decimal_digits-AllDigits (n + 1) (omega arith)))

may_set_both :
    (who : Caller) (level : ℤ)
    → ltb_ℤ who.permission_level (pos 40000) ≡ false
    → ltb_ℤ level who.permission_level ≡ true
    → may_set who level ≡ true
unfolding may_set
may_set_both who level high below = rw (high, below)

-- what `setp` answers to a caller who may set the level
abbrev pub granted_answer : Caller → Bytes → Bytes → ℤ → CoreCall
granted_answer who where_ host level = msgva where_ (
    who.sender.nick
    ++ (codes ": "
        ++ (codes "Set permission level for "
            ++ (host ++ (codes " to " ++ (decimal level ++ codes "!"))))))

pub handle_perms-permissions_get :
    (s : Permissions) {pairs : ℕ → Pairs} (more : Bytes) (who : Caller) (where_ host : Bytes)
    (level : ℤ)
    → ltb_ℤ who.permission_level (pos 40000) ≡ false
    → ltb_ℤ level who.permission_level ≡ true
    → IsInt level
    → s.locked ≡ false
    → length s.pbuf ≡ 128
    → IsRecord s.perm_map pairs
    → IsText host
    → length host ≤ 126
    → HasRoom s.perm_map host
    → AtEnd host (pairs (hash host))
    → length (pairs (hash host)) < 32767
    → is_zero level ≡ false
    → (s' s'' : Permissions) × (handle_perms enough s
          (b's' ∷ more)
          who
          where_
          (decimal level ++ b' ' ∷ host)
        ≡ ok (s', granted_answer who where_ host level ∷ []))
      × (permissions_get s' host ≡ ok (level, s''))
unfolding handle_perms first set_case set_level to_nick
handle_perms-permissions_get s {pairs} more who where_ host level high below fits free size t text
      short room at_end small nz =
    let (s', s'', run, got, _) =
      permissions_get-set s host level free size t text short room at_end small nz in
    (
      s',
      s'',
      rw (split_at-found b' ' (decimal level) host (decimal-Lacks level fits))
          (granted s s' who where_ host level fits high below run),
      got,
    )
  where
    granted :
        (s s' : Permissions) (who : Caller) (where_ host : Bytes) (level : ℤ)
        → IsInt level
        → ltb_ℤ who.permission_level (pos 40000) ≡ false
        → ltb_ℤ level who.permission_level ≡ true
        → permissions_set enough s host level ≡ ok s'
        → set_case enough s who where_ (some (decimal level, host))
          ≡ ok (s', granted_answer who where_ host level ∷ [])
    granted s s' who where_ host level fits high below run =
        rw (atoi-decimal level fits, ◌>>=◌)
          (rw (may_set_both who level high below) (rw (run, ◌>>=◌) refl))
