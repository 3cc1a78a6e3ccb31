-- ===== src/Irc/Login.antt =====
-- src/irc.c, `irc_login`: the replies of the server are searched for the digits of its codes.
use minervabot.Prelude.{
  ℕ, zero, suc, ◌+◌, ◌-◌, Bool, true, false, ◌&&◌, Option, none, some, List, [], ◌∷◌, ◌++◌, ltb,
  ◌==◌, if◌then◌else◌, length,
}
use minervabot.Run.{Run, ok, ◌>>=◌}
use minervabot.CString.{Bytes, codes, read, write, string}
use minervabot.Irc.{crlf, net_raw}
use minervabot.Irc.Loop.{Event, terminated, received, closed, failed, ends_line}

-- the variables of the loop; `nicklen` is the length of `nick`, and `sends` is what has been sent
pub record Login : Type 0 where
  pub buf : Bytes
  pub o : ℕ
  pub nick : Bytes
  pub login_success : Bool
  pub sends : List Bytes

unfoldable pub say : Login → Bytes → Login
say s text = record s { sends = s.sends ++ text ∷ [] }

-- the nick is in use, and may have one more `_`
unfoldable pub longer_nick : Login → Login
unfolding say
longer_nick s =
    say (record s { nick = s.nick ++ b'_' ∷ [] })
      (net_raw (codes "NICK " ++ ((s.nick ++ b'_' ∷ []) ++ crlf)))

unfoldable pub other_nick : Login → Login
unfolding say
other_nick s = say s (net_raw (codes "NICK bphsd\r\n"))

-- `buf[i]` is a 4; `rl` is the length of the chunk, not that of the line
unfoldable pub nick_error : ℕ → ℕ → Login → Run Login
unfolding longer_nick other_nick
nick_error rl i s = elim (ltb (i + 2) rl) [
  | false ↦ ok (other_nick s)
  | true ↦ do
    c ← read s.buf (i + 2)
    ok (if c == b'3' && ltb (length s.nick) 20 then longer_nick s else other_nick s)
]

unfoldable pub read_code : ℕ → ℕ → Login → Run Login
unfolding nick_error
read_code rl i s = do
  c ← read s.buf i
  elim (c == b'0') [
    | true ↦ ok (record s { login_success = true })
    | false ↦ elim (c == b'4') [ true ↦ nick_error rl i s | false ↦ ok s ]
  ]

-- a PING is sent back with an O in the place of its I
unfoldable pub pong : Login → Run Login
unfolding say
pong s = do
  buf ← write s.buf 1 b'O'
  text ← string buf
  ok (say (record s { buf = buf }) (net_raw (text ++ crlf)))

-- one round of the loop over a line
unfoldable pub handle_code : ℕ → ℕ → Login → Run Login
unfolding read_code pong
handle_code rl i s = do
  before ← read s.buf (i - 1)
  second ← read s.buf 1
  elim (before == b' ') [
    | true ↦ read_code rl i s
    | false ↦ elim (second == b'I') [ false ↦ ok s | true ↦ do s' ← pong s; read_code rl i s' ]
  ]

-- `for (i = 1; i < o; i++)`, with the number of rounds left
unfoldable pub handle_codes : ℕ → ℕ → ℕ → Login → Run Login
handle_codes rl zero i s = ok s
handle_codes rl (suc k) i s = do s' ← handle_code rl i s; handle_codes rl k (i + 1) s'

-- one round of the loop over the chunk; `previous` is `rbuf[j - 1]`, if `j > 0`
unfoldable pub login_receive : ℕ → Login → Option ℕ → ℕ → Run Login
login_receive rl s previous c = do
  buf ← write s.buf s.o c
  elim (ends_line previous c s.o) [
    | false ↦ ok (record s { buf = buf; o = s.o + 1 })
    | true ↦ do
      line ← write buf s.o 0
      s' ← handle_codes rl (s.o - 1) 1 (record s { buf = line })
      ok (record s' { o = 0 })
  ]

unfoldable pub login_receive_all : ℕ → Login → Option ℕ → Bytes → Run Login
login_receive_all rl s previous [] = ok s
login_receive_all rl s previous (c ∷ rest) = do
  s' ← login_receive rl s previous c
  login_receive_all rl s' (some c) rest

-- `while ((rl = net_recv()) > 2)`: anything shorter ends the loop, and so does a success
unfoldable pub login_loop : Login → List Event → Run Login
login_loop s [] = ok s
login_loop s (terminated ∷ events) = login_loop s events
login_loop s (closed ∷ events) = ok s
login_loop s (failed ∷ events) = ok s
login_loop s (received chunk ∷ events) = elim (ltb 2 (length chunk)) [
  | false ↦ ok s
  | true ↦ do
    s' ← login_receive_all (length chunk) s none chunk
    elim s'.login_success [ true ↦ ok s' | false ↦ login_loop s' events ]
]

unfoldable pub pass_line : Option Bytes → List Bytes
pass_line none = []
pass_line (some password) = net_raw (codes "PASS " ++ (password ++ crlf)) ∷ []

-- `buf` is what the array holds at first; `none` is the want of memory for the nick
unfoldable pub irc_login :
    Bool → Bytes → Bytes → Bytes → Bytes → Option Bytes → List Event → Run (Option Login)
unfolding pass_line
irc_login malloc_ok buf user realname nick_t password events = elim malloc_ok [
  | false ↦ ok none
  | true ↦ do
    s ←
        login_loop
          (record {
            buf = buf;
            o = 0;
            nick = nick_t;
            login_success = false;
            sends =
                pass_line password
                ++ (net_raw (codes "USER " ++ (user ++ (codes " 0 0 :" ++ (realname ++ crlf))))
                    ∷ net_raw (codes "NICK " ++ (nick_t ++ crlf))
                    ∷ []);
          })
          events
    ok (some s)
]
