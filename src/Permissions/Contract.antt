-- ===== src/Permissions/Contract.antt =====
-- What the bot's commands may count on: levels that were set are read back.
use minervabot.Prelude.{
  ℕ, ◌<◌, ◌≤◌, ◌≡◌, refl, sym, ap, ◌∙◌, false, Option, none, some, [], ◌∷◌, ◌++◌, length,
  if◌then◌else◌, Bool-cases, inl, inr, ℤ, is_zero,
}
use minervabot.Run.{ok}
use minervabot.CString.{Bytes, equal}
use minervabot.CString.Laws.{equal_iff, equal_refl}
use minervabot.Hashmap.Assoc.{Pairs, lookup, erase, first_of_two, Once, lookup-erase, AtEnd}
use minervabot.Hashmap.Refine.{view, replace, HasRoom, view_added, view_erased_ne}
use minervabot.Hashmap.{hash}
use minervabot.Permissions.Search.{IsText, IsText-AreBytes, permissions_get-best_match}
use minervabot.Permissions.Update.{
  enough, IsRecord, updated, replace_self, replace_twice, permissions_set-IsRecord,
}
use minervabot.Permissions.{Permissions, permissions_set, permissions_get}

updated-replace :
    (pairs : ℕ → Pairs) (host : Bytes) (level : ℤ)
    → replace (replace pairs (hash host) (erase host (pairs (hash host)))) (hash host) (
        replace pairs (hash host) (erase host (pairs (hash host))) (hash host)
        ++ (host, level) ∷ [])
      ≡ updated pairs host level
updated-replace pairs host level =
    replace_twice pairs (hash host) _ _
    ∙ ap (λ es. replace pairs (hash host) (es ++ (host, level) ∷ []))
        (replace_self pairs (hash host) _)

-- behind `permissions_set`, a host has the level that was set last, and else the level it had
pub view-updated :
    (pairs : ℕ → Pairs) (host q : Bytes) (level : ℤ)
    → Once (pairs (hash host))
    → view (updated pairs host level) q ≡ (if equal q host then some level else view pairs q)
view-updated pairs host q level once =
    let added =
      ap (λ (p : ℕ → Pairs). view p q) (sym (updated-replace pairs host level))
      ∙ view_added (replace pairs (hash host) (erase host (pairs (hash host)))) host q level in
    elim (Bool-cases (equal q host)) [
      | inl e ↦
          let same : q ≡ host = (equal_iff q host).0 e in
          let gone : view (replace pairs (hash host) (erase host (pairs (hash host)))) q ≡ none =
            rw same
              (ap (lookup host) (replace_self pairs (hash host) _) ∙ lookup-erase host _ once) in
          added ∙ rw (e, gone)
      | inr e ↦ added ∙ rw (e, view_erased_ne pairs host q e) (right_none (view pairs q))
    ]
  where
    right_none : (o : Option ℤ) → first_of_two o none ≡ o
    right_none none = refl
    right_none (some v) = refl

pub permissions_get-set :
    (s : Permissions) {pairs : ℕ → Pairs} (host : Bytes) (level : ℤ)
    → s.locked ≡ false
    → length s.pbuf ≡ 128
    → IsRecord s.perm_map pairs
    → IsText host
    → length host ≤ 126
    → HasRoom s.perm_map host
    → AtEnd host (pairs (hash host))
    → length (pairs (hash host)) < 32767
    → is_zero level ≡ false
    → (s' s'' : Permissions) × (permissions_set enough s host level ≡ ok s')
      × (permissions_get s' host ≡ ok (level, s''))
      × ((q : Bytes) (v : ℤ)
          → equal q host ≡ false
          → IsText q
          → length q ≤ 126
          → is_zero v ≡ false
          → view pairs q ≡ some v
          → (s''' : Permissions) × (permissions_get s' q ≡ ok (v, s''')))
permissions_get-set s {pairs} host level free size t text short room at_end small nz =
    let (s', run, t', free', same) =
      permissions_set-IsRecord s host level free t (IsText-AreBytes host text) room at_end small
        nz in
    let once = t.once (hash host) in
    let size' = ap length same ∙ size in
    let (s'', got, _, _, _) = permissions_get-best_match s' host t'.models free' size' text short in
    let new : view (updated pairs host level) host ≡ some level =
      view-updated pairs host host level once ∙ rw (equal_refl host) in
    (
      s',
      s'',
      run,
      got ∙ ap (λ v. ok (v, s'')) (rw (new, nz)),
      λ q v ne q_text q_short v_nz had.
          let kept : view (updated pairs host level) q ≡ some v =
            view-updated pairs host q level once ∙ rw ne had in
          let (r, got_q, _, _, _) =
            permissions_get-best_match s' q t'.models free' size' q_text q_short in
          (r, got_q ∙ ap (λ w. ok (w, r)) (rw (kept, v_nz))),
    )
