-- ===== src/Tests/Levels.antt =====
-- The theorems on src/permissions.c, src/modules/bot_perms.c and the thread of a command, at concrete
-- levels.
use minervabot.Prelude.{
  ℕ, ◌<◌, ◌≡◌, refl, ap, subst, false, none, some, [], ◌∷◌, ◌++◌, arith, length, replicate, ℤ, pos,
  is_zero, Bool-cases, inl, inr, ◌==◌,
}
use minervabot.Run.{ok, fault, deadlock}
use minervabot.CString.{Bytes, codes, equal}
use minervabot.Irc.Sender.{Lacks}
use minervabot.Hashmap.{hash, hashmap_get}
use minervabot.Hashmap.Assoc.{Pairs, lookup, Once, AtEnd, or_zero}
use minervabot.Hashmap.Refine.{Models, view}
use minervabot.Permissions.{Memory, Permissions, permissions_set, permissions_get}
use minervabot.Permissions.Search.{IsText, best_match, permissions_get-best_match}
use minervabot.Permissions.Update.{enough, NonZero, IsRecord, updated, permissions_set-IsRecord}
use minervabot.Permissions.Hazards.{
  permissions_get-held, permissions_set-zero, permissions_set-overlap,
}
use minervabot.Bot.{Caller}
use minervabot.Bot.Perms.{decimal, handle_perms}
use minervabot.Bot.Escalation.{
  Entitled, granted_answer, handle_perms-Entitled, handle_perms-permissions_get,
}
use minervabot.Threadpool.{calls, crashed, threadpool_wrapper_cmd}
use minervabot.Threadpool.Command.{threadpool_wrapper_cmd-best_match}
use minervabot.Threadpool.Faults.{threadpool_wrapper_cmd_no_host}
use minervabot.Tests.{
  map_of, pairs_of, map_of-Models, map_of-HasRoom, pairs_of_self, host, host-AreBytes,
}

-- one host on record, with the level 7
abbrev on_record : Pairs
on_record = (host, pos 7) ∷ []

abbrev levels : Permissions
levels = record { perm_map = map_of host on_record 3; locked = false; pbuf = replicate 128 0 }

levels-Models : Models levels.perm_map (pairs_of host on_record)
levels-Models = map_of-Models host on_record 3 host-AreBytes

host-IsText : IsText host
host-IsText = ground arith

only_host-Once : (i : ℕ) → Once (pairs_of host on_record i)
unfolding lookup
only_host-Once i = elim (Bool-cases (i == hash host)) [ inl e ↦ rw e (refl, tt) | inr e ↦ rw e tt ]

only_host-NonZero : (i : ℕ) → NonZero (pairs_of host on_record i)
unfolding is_zero
only_host-NonZero i = elim (Bool-cases (i == hash host)) [
  | inl e ↦ rw e (refl, tt)
  | inr e ↦ rw e tt
]

levels-IsRecord : IsRecord levels.perm_map (pairs_of host on_record)
levels-IsRecord = record {
  models = levels-Models;
  once = only_host-Once;
  non_zero = only_host-NonZero;
}

on_record-AtEnd : AtEnd host (pairs_of host on_record (hash host))
on_record-AtEnd = rw (pairs_of_self host on_record) tt

few_on_record : length (pairs_of host on_record (hash host)) < 32767
few_on_record = rw (pairs_of_self host on_record) (omega arith)

nine-NonZero : is_zero (pos 9) ≡ false
unfolding is_zero
nine-NonZero = refl

nick-Lacks : Lacks b'!' (codes "nick")
nick-Lacks = ground arith

ident-Lacks : Lacks b'@' (codes "ident")
ident-Lacks = ground arith

permissions_get-best_match_example :
    (s' : Permissions) × (permissions_get levels host
      ≡ ok (best_match (view (pairs_of host on_record)) host, s'))
    × (s'.perm_map ≡ levels.perm_map)
    × (s'.locked ≡ false)
    × (length s'.pbuf ≡ 128)
permissions_get-best_match_example =
    permissions_get-best_match levels host levels-Models refl refl host-IsText (omega arith)

permissions_set-IsRecord_example :
    (s' : Permissions) × (permissions_set enough levels host (pos 9) ≡ ok s')
    × IsRecord s'.perm_map (updated (pairs_of host on_record) host (pos 9))
    × (s'.locked ≡ false)
    × (s'.pbuf ≡ levels.pbuf)
permissions_set-IsRecord_example =
    permissions_set-IsRecord levels host (pos 9) refl levels-IsRecord host-AreBytes
      (map_of-HasRoom host on_record 3 host-AreBytes (omega arith)) on_record-AtEnd few_on_record
      nine-NonZero

-- 129 and 128 characters
abbrev long_host : Bytes
long_host = replicate 129 b'a'

abbrev full_host : Bytes
full_host = replicate 128 b'a'

permissions_get-held_example :
    (s' : Permissions) × (permissions_get levels long_host ≡ ok (pos 0, s'))
    × ((q : Bytes) → permissions_get s' q ≡ deadlock)
    × ((mem : Memory) (q : Bytes) (level : ℤ) → permissions_set mem s' q level ≡ deadlock)
permissions_get-held_example = permissions_get-held levels long_host refl (omega arith)

-- the host with the level 0 on record
abbrev zero_record : Pairs
zero_record = (host, pos 0) ∷ []

abbrev zero_levels : Permissions
zero_levels = record {
  perm_map = map_of host zero_record 3;
  locked = false;
  pbuf = replicate 128 0;
}

zero_view : view (pairs_of host zero_record) host ≡ some (pos 0)
unfolding lookup equal
zero_view = ap (lookup host) (pairs_of_self host zero_record)

permissions_set-zero_example :
    (s' : Permissions) × (permissions_set enough zero_levels host (pos 9) ≡ ok s')
    × (s'.locked ≡ false)
    × (hashmap_get s'.perm_map host ≡ ok (pos 0))
    × (pairs' : ℕ → Pairs) × Models s'.perm_map pairs'
    × (view pairs' host ≡ some (pos 0))
permissions_set-zero_example =
    permissions_set-zero zero_levels host (pos 9) refl
      (map_of-Models host zero_record 3 host-AreBytes) host-AreBytes
      (rw (pairs_of_self host zero_record) (omega arith)) zero_view

-- the host with another one behind it in its bucket
abbrev two_hosts : Pairs
two_hosts = (host, pos 7) ∷ (codes "b", pos 8) ∷ []

abbrev two_levels : Permissions
two_levels = record { perm_map = map_of host two_hosts 2; locked = false; pbuf = replicate 128 0 }

two_levels-IsRecord : IsRecord two_levels.perm_map (pairs_of host two_hosts)
unfolding lookup equal is_zero
two_levels-IsRecord = record {
  models = map_of-Models host two_hosts 2 host-AreBytes;
  once =
      λ i. elim (Bool-cases (i == hash host)) [ inl e ↦ rw e (refl, (refl, tt)) | inr e ↦ rw e tt ];
  non_zero =
      λ i. elim (Bool-cases (i == hash host)) [ inl e ↦ rw e (refl, (refl, tt)) | inr e ↦ rw e tt ];
}

two_hosts-known : is_zero (or_zero (view (pairs_of host two_hosts) host)) ≡ false
unfolding lookup equal is_zero
two_hosts-known = rw (pairs_of_self host two_hosts) refl

first_host-AtEnd : AtEnd host two_hosts → ⊥
unfolding equal
first_host-AtEnd a = cc a.0

permissions_set-overlap_example : permissions_set enough two_levels host (pos 9) ≡ fault
permissions_set-overlap_example =
    permissions_set-overlap enough two_levels host (pos 9) refl two_levels-IsRecord host-AreBytes
      (map_of-HasRoom host two_hosts 2 host-AreBytes (omega arith)) two_hosts-known
      (λ a. first_host-AtEnd (subst (AtEnd host) (pairs_of_self host two_hosts) a))

-- an operator, and what the command makes of its run
abbrev operator_caller : Caller
operator_caller = record {
  sender = record { nick = codes "op"; ident = none; host = none };
  permission_level = pos 45000;
}

-- the run of that example, and the levels it leaves
granted :
    (s' s'' : Permissions) × (handle_perms enough levels
        (codes "setp")
        operator_caller
        (codes "#c")
        (decimal (pos 9) ++ b' ' ∷ host)
      ≡ ok (s', granted_answer operator_caller (codes "#c") host (pos 9) ∷ []))
    × (permissions_get s' host ≡ ok (pos 9, s''))
granted =
    handle_perms-permissions_get levels (codes "etp") operator_caller (codes "#c") host (pos 9) refl
      refl (omega arith) refl refl levels-IsRecord host-IsText (omega arith)
      (map_of-HasRoom host on_record 3 host-AreBytes (omega arith)) on_record-AtEnd few_on_record
      nine-NonZero

handle_perms-Entitled_example : Entitled enough levels operator_caller granted.0
handle_perms-Entitled_example =
    handle_perms-Entitled enough levels (codes "setp") operator_caller (codes "#c")
      (decimal (pos 9) ++ b' ' ∷ host) granted.0
      (granted_answer operator_caller (codes "#c") host (pos 9) ∷ []) granted.2

threadpool_wrapper_cmd-best_match_example :
    (s' : Permissions) × (threadpool_wrapper_cmd levels
        (codes "nick" ++ b'!' ∷ (codes "ident" ++ b'@' ∷ host))
      ≡ ok (
        calls (record {
          sender = record { nick = codes "nick"; ident = some (codes "ident"); host = some host };
          permission_level = best_match (view (pairs_of host on_record)) host;
        }),
        s',
      ))
    × (s'.locked ≡ false)
threadpool_wrapper_cmd-best_match_example =
    threadpool_wrapper_cmd-best_match levels (codes "nick") (codes "ident") host levels-Models refl
      refl nick-Lacks ident-Lacks host-IsText (omega arith)

threadpool_wrapper_cmd_no_host_example :
    (s' : Permissions) × (threadpool_wrapper_cmd levels (codes "nick") ≡ ok (crashed, s'))
    × (threadpool_wrapper_cmd levels (codes "nick" ++ b'!' ∷ codes "ident") ≡ ok (crashed, s'))
    × ((q : Bytes) → permissions_get s' q ≡ deadlock)
    × ((mem : Memory) (q : Bytes) (level : ℤ) → permissions_set mem s' q level ≡ deadlock)
threadpool_wrapper_cmd_no_host_example =
    threadpool_wrapper_cmd_no_host levels (codes "nick") (codes "ident") refl nick-Lacks ident-Lacks
