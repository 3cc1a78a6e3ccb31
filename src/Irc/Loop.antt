-- ===== src/Irc/Loop.antt =====
-- src/irc.c, `irc_loop`: lines are put together in `buf` from what `net_recv` returns.
use minervabot.Prelude.{
  ℕ, zero, suc, ◌+◌, ◌-◌, Bool, true, false, ◌&&◌, ◌||◌, Option, none, some, List, [], ◌∷◌, ◌++◌,
  ◌==◌, if◌then◌else◌, take, replicate,
}
use minervabot.Run.{Run, ok, fault, ◌>>=◌}
use minervabot.CString.{Bytes, codes, write}
use minervabot.Irc.Line.{Action, send, handle_line}

-- the variables of the loop: `next` is `o + 1`, where the next character goes
pub record Frame : Type 0 where
  pub buf : Bytes
  pub next : ℕ

-- `int o = -1`; what `buf[513]` holds at first is of no account
unfoldable pub start : Frame
start = record { buf = replicate 513 0; next = 0 }

-- `buf[o == 512 ? o + 1 : o - 1] = '\0'`
unfoldable pub terminate : Bytes → ℕ → Run Bytes
terminate buf zero = fault
terminate buf (suc o) = if suc o == 512 then write buf 513 0 else write buf o 0

unfoldable pub ends_line : Option ℕ → ℕ → ℕ → Bool
ends_line none c o = o == 512
ends_line (some previous) c o = c == b'\n' && previous == b'\r' || o == 512

-- a line ends at index `o`
unfoldable pub complete : Bytes → ℕ → Run (Frame × List Action)
unfolding terminate
complete buf o = do
  line ← terminate buf o
  ok (record { buf = line; next = 0 }, handle_line (take (o - 1) line) ∷ [])

-- One round of the `for` loop on the character `c`; `previous` is `rbuf[i - 1]`, if `i > 0`.
unfoldable pub receive : Frame → Option ℕ → ℕ → Run (Frame × List Action)
unfolding complete ends_line
receive s previous c = do
  buf ← write s.buf s.next c
  if ends_line previous c s.next
      then complete buf s.next
      else ok (record { buf = buf; next = s.next + 1 }, [])

-- the `for` loop over one chunk
unfoldable pub receive_all : Frame → Option ℕ → Bytes → Run (Frame × List Action)
receive_all s previous [] = ok (s, [])
receive_all s previous (c ∷ rest) = do
  (s', now) ← receive s previous c
  (s'', later) ← receive_all s' (some c) rest
  ok (s'', now ++ later)

-- what a call of `net_recv` returns, and whether `done` was set by a signal before it
pub data Event : Type 0 where
  terminated : Event
  received : Bytes → Event
  closed : Event
  failed : Event

-- The `while` loop on the events that the connection brings; it goes on where `net_recv` failed,
-- since -1 is not 0. The flag says that the loop has ended and has sent its farewell.
unfoldable pub irc_loop : Frame → List Event → Run (List Action × Bool)
irc_loop s [] = ok ([], false)
irc_loop s (terminated ∷ _) = ok (send (codes "QUIT :Gone fishing.\r\n") ∷ [], true)
irc_loop s (closed ∷ _) = ok (send (codes "QUIT :Gone fishing.\r\n") ∷ [], true)
irc_loop s (failed ∷ events) = irc_loop s events
irc_loop s (received chunk ∷ events) = do
  (s', now) ← receive_all s none chunk
  (later, ended) ← irc_loop s' events
  ok (now ++ later, ended)
