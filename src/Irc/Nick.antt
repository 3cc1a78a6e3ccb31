-- ===== src/Irc/Nick.antt =====
-- `irc_login` stays inside its buffers, whatever the server says, and its nick inside its memory.
use minervabot.Prelude.{
  ℕ, zero, suc, ◌+◌, ◌-◌, ◌≤◌, ◌<◌, ◌≡◌, refl, sym, ◌∙◌, true, false, Option, none, some, List, [],
  ◌∷◌, ◌++◌, arith, ltb, length, length-set, set, inl, inr, ◌⊎◌, Bool-cases,
}
use mathlib.Core.List.{append-nil}
use minervabot.Run.{ok, ◌>>=◌}
use minervabot.CString.{Bytes, codes}
use minervabot.CString.Laws.{write-set}
use minervabot.Irc.{crlf, net_raw}
use minervabot.Irc.Loop.{Event, terminated, received, closed, failed, ends_line}
use minervabot.Irc.Login.{Login, login_receive, login_receive_all, login_loop, pass_line, irc_login}
use minervabot.Irc.Codes.{Keeps, handle_codes-Later, read-set_self}

not_full : (previous : Option ℕ) (c o : ℕ) → ends_line previous c o ≡ false → o ≤ 512 → o + 1 ≤ 512
unfolding ends_line
not_full none c o e le = ground arith
not_full (some d) c o e le = ground arith

-- `net_recv` reads 512 bytes at most
abbrev pub AtMost512 : List Event → Type 0
AtMost512 [] = Unit
AtMost512 (received chunk ∷ events) = (length chunk ≤ 512) × AtMost512 events
AtMost512 (terminated ∷ events) = AtMost512 events
AtMost512 (closed ∷ events) = AtMost512 events
AtMost512 (failed ∷ events) = AtMost512 events

module _ (nick_t : Bytes) (first : List Bytes) where
  -- between two characters: there is room for one more
  login_receive-Keeps :
      (rl : ℕ) (s : Login) (previous : Option ℕ) (c : ℕ)
      → rl ≤ 512
      → s.o ≤ 512
      → Keeps nick_t first s
      → (s' : Login) × (login_receive rl s previous c ≡ ok s')
        × Keeps nick_t first s'
        × (s'.o ≤ 512)
  unfolding login_receive
  login_receive-Keeps rl s previous c le room h =
      let lt : s.o < length s.buf = omega (arith, h.size, room) in
      let put = write-set s.buf s.o c lt in
      let lt' : s.o < length (set s.buf s.o c) = omega (arith, lt, length-set s.buf s.o c) in
      elim (Bool-cases (ends_line previous c s.o)) [
        | inr e ↦ (
          record s { buf = set s.buf s.o c; o = s.o + 1 },
          rw (put, ◌>>=◌) (rw e refl),
          record {
            size = length-set s.buf s.o c ∙ h.size;
            extra = h.extra;
            grown = h.grown;
            short = h.short;
            later = h.later;
            said = h.said;
          },
          not_full previous c s.o e room,
        )
        | inl e ↦
            let line = set (set s.buf s.o c) s.o 0 in
            let (s', run, l) =
              handle_codes-Later nick_t first rl s.o (s.o - 1) 1 (record s { buf = line }) le
                (two_or_none s.o) (omega (arith, room))
                (record {
                  size = length-set (set s.buf s.o c) s.o 0 ∙ length-set s.buf s.o c ∙ h.size;
                  extra = h.extra;
                  grown = h.grown;
                  short = h.short;
                  later = h.later;
                  said = h.said;
                })
                (read-set_self (set s.buf s.o c) s.o 0 lt') in
            (
              record s' { o = 0 },
              rw (put, ◌>>=◌)
                  (rw e (rw (write-set (set s.buf s.o c) s.o 0 lt', ◌>>=◌) (rw (run, ◌>>=◌) refl))),
              record {
                size = l.keeps.size;
                extra = l.keeps.extra;
                grown = l.keeps.grown;
                short = l.keeps.short;
                later = l.keeps.later;
                said = l.keeps.said;
              },
              omega arith,
            )
      ]
    where
      two_or_none : (o : ℕ) → (o - 1 ≡ 0) ⊎ (2 ≤ o)
      two_or_none zero = inl refl
      two_or_none (suc zero) = inl refl
      two_or_none (suc (suc o)) = inr (omega arith)

  login_receive_all-Keeps :
      (rl : ℕ) (chunk : Bytes) (s : Login) (previous : Option ℕ)
      → rl ≤ 512
      → s.o ≤ 512
      → Keeps nick_t first s
      → (s' : Login) × (login_receive_all rl s previous chunk ≡ ok s')
        × Keeps nick_t first s'
        × (s'.o ≤ 512)
  unfolding login_receive_all
  login_receive_all-Keeps rl [] s previous le room h = (s, refl, h, room)
  login_receive_all-Keeps rl (c ∷ chunk) s previous le room h =
      let (s₁, run₁, h₁, room₁) = login_receive-Keeps rl s previous c le room h in
      let (s₂, run₂, h₂, room₂) = login_receive_all-Keeps rl chunk s₁ (some c) le room₁ h₁ in
      (s₂, rw (run₁, ◌>>=◌) run₂, h₂, room₂)

  login_loop-Keeps :
      (events : List Event) (s : Login)
      → AtMost512 events
      → s.o ≤ 512
      → Keeps nick_t first s
      → (s' : Login) × (login_loop s events ≡ ok s') × Keeps nick_t first s'
  unfolding login_loop
  login_loop-Keeps [] s small room h = (s, refl, h)
  login_loop-Keeps (terminated ∷ events) s small room h = login_loop-Keeps events s small room h
  login_loop-Keeps (closed ∷ events) s small room h = (s, refl, h)
  login_loop-Keeps (failed ∷ events) s small room h = (s, refl, h)
  login_loop-Keeps (received chunk ∷ events) s (le, small) room h =
      elim (Bool-cases (ltb 2 (length chunk))) [
        | inr e ↦ (s, rw (e, login_loop) refl, h)
        | inl e ↦
            let (s₁, run₁, h₁, room₁) =
              login_receive_all-Keeps (length chunk) chunk s none le room h in
            elim (Bool-cases s₁.login_success) [
              | inl done ↦ (s₁, rw (e, login_loop) (rw (run₁, ◌>>=◌) (rw done refl)), h₁)
              | inr again ↦
                  let (s₂, run₂, h₂) = login_loop-Keeps events s₁ small room₁ h₁ in
                  (s₂, rw (e, login_loop) (rw (run₁, ◌>>=◌) (rw again run₂)), h₂)
            ]
      ]

-- what is sent before the first reply
abbrev pub introduction : Bytes → Bytes → Bytes → Option Bytes → List Bytes
introduction user realname nick_t password =
    pass_line password
    ++ (net_raw (codes "USER " ++ (user ++ (codes " 0 0 :" ++ (realname ++ crlf))))
        ∷ net_raw (codes "NICK " ++ (nick_t ++ crlf))
        ∷ [])

-- Where memory is given and chunks have at most 512 bytes, `irc_login` returns and stays inside its buffers,
-- whatever the server sends and its buffer of 513 bytes holds at first. It has sent its password, user and
-- nick before all else, and the nick at the end is the one given, with some `_` behind it, and if any, of at
-- most 20 characters: there is memory for it.
pub irc_login-Keeps :
    (buf user realname nick_t : Bytes) (password : Option Bytes) (events : List Event)
    → length buf ≡ 513
    → AtMost512 events
    → (s : Login) × (irc_login true buf user realname nick_t password events ≡ ok (some s))
      × Keeps nick_t (introduction user realname nick_t password) s
unfolding irc_login
irc_login-Keeps buf user realname nick_t password events size small =
    let first = introduction user realname nick_t password in
    let s : Login = record {
      buf = buf;
      o = 0;
      nick = nick_t;
      login_success = false;
      sends = first;
    } in
    let (s', run, h) = login_loop-Keeps nick_t first events s small (omega arith) (record {
      size = size;
      extra = 0;
      grown = sym (append-nil nick_t);
      short = inl refl;
      later = [];
      said = sym (append-nil first);
    }) in
    (s', rw (run, ◌>>=◌) refl, h)
