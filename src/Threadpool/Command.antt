-- ===== src/Threadpool/Command.antt =====
-- The thread of a command: the caller that the handler is given.
use minervabot.Prelude.{ℕ, ◌≤◌, ◌≡◌, refl, false, some, ◌∷◌, ◌++◌, length}
use minervabot.Run.{ok, ◌>>=◌}
use minervabot.CString.{Bytes}
use minervabot.Hashmap.Assoc.{Pairs}
use minervabot.Hashmap.Refine.{Models, view}
use minervabot.Permissions.{Permissions}
use minervabot.Permissions.Search.{IsText, best_match, permissions_get-best_match}
use minervabot.Irc.Sender.{Lacks, irc_parsesender_parts}
use minervabot.Threadpool.{calls, look_up, threadpool_wrapper_cmd}

-- For a sender `nick!ident@host` with a host of at most 126 bytes, the thread of a command gives the
-- handler the three parts and the level of the host, or else of its longest mask on record, and frees
-- the mutex.
pub threadpool_wrapper_cmd-best_match :
    (s : Permissions) {pairs : ℕ → Pairs} (nick ident host : Bytes)
    → Models s.perm_map pairs
    → s.locked ≡ false
    → length s.pbuf ≡ 128
    → Lacks b'!' nick
    → Lacks b'@' ident
    → IsText host
    → length host ≤ 126
    → (s' : Permissions) × (threadpool_wrapper_cmd s (nick ++ b'!' ∷ (ident ++ b'@' ∷ host))
        ≡ ok (
          calls (record {
            sender = record { nick = nick; ident = some ident; host = some host };
            permission_level = best_match (view pairs) host;
          }),
          s',
        ))
      × (s'.locked ≡ false)
unfolding threadpool_wrapper_cmd look_up
threadpool_wrapper_cmd-best_match s {pairs} nick ident host t free size n i text short =
    let (whole, _, _) = irc_parsesender_parts nick ident host n i in
    let (s', got, _, free', _) = permissions_get-best_match s host t free size text short in
    (s', rw whole (rw (got, ◌>>=◌) refl), free')
