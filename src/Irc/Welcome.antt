-- ===== src/Irc/Welcome.antt =====
-- `irc_login` on the welcome of a server.
use minervabot.Prelude.{
  ℕ, zero, suc, ◌+◌, ◌-◌, ◌≤◌, ◌<◌, ◌≡◌, ◌≢◌, refl, sym, ap, ◌∙◌, true, false, Option, none, some,
  List, [], ◌∷◌, ◌++◌, arith, ltb, lt→ltb, ◌==◌, length, length-append, length-set, set, inl,
}
use mathlib.Core.List.{append-nil, append_assoc}
use minervabot.Run.{ok, ◌>>=◌}
use minervabot.CString.{Bytes, read, write}
use minervabot.CString.Laws.{write-set, write-append, read-append}
use minervabot.Irc.Loop.{Event, received, ends_line}
use minervabot.Irc.Login.{Login, login_receive, login_receive_all, login_loop, irc_login}
use minervabot.Irc.Codes.{Keeps, handle_codes-success, read-set_self}
use minervabot.Irc.Nick.{introduction}

read-set_ne : (buf : Bytes) (p q c : ℕ) → q ≢ p → read (set buf p c) q ≡ read buf q
unfolding read
read-set_ne [] p q c ne = refl
read-set_ne (x ∷ buf) zero zero c ne = absurd (ne refl)
read-set_ne (x ∷ buf) zero (suc q) c ne = refl
read-set_ne (x ∷ buf) (suc p) zero c ne = refl
read-set_ne (x ∷ buf) (suc p) (suc q) c ne = read-set_ne buf p q c (λ e. ne (ap suc e))

-- no line feed
abbrev pub NoFeed : Bytes → Type 0
NoFeed [] = Unit
NoFeed (c ∷ text) = ((c == b'\n') ≡ false) × NoFeed text

inside_line :
    (previous : Option ℕ) (c o : ℕ)
    → (c == b'\n') ≡ false
    → o < 512
    → ends_line previous c o ≡ false
unfolding ends_line
inside_line none c o feed lt = ground arith
inside_line (some d) c o feed lt = ground arith

module _ (nick_t : Bytes) (first : List Bytes) where
  -- `text` has been received since the last line
  record Holding (text : Bytes) (s : Login) : Type 0 where
    past : Bytes
    buffer : s.buf ≡ text ++ past
    place : s.o ≡ length text
    keeps : Keeps nick_t first s

  receive-Holding :
      (rl c : ℕ) (text : Bytes) (s : Login) (previous : Option ℕ)
      → (c == b'\n') ≡ false
      → length text < 512
      → Holding text s
      → (s' : Login) × (login_receive rl s previous c ≡ ok s') × Holding (text ++ c ∷ []) s'
  unfolding login_receive
  receive-Holding rl c text s previous feed lt h = go h.past h.buffer
    where
      go :
          (past : Bytes)
          → s.buf ≡ text ++ past
          → (s' : Login) × (login_receive rl s previous c ≡ ok s') × Holding (text ++ c ∷ []) s'
      go [] e = absurd (omega (arith, ap length e, length-append text [], h.keeps.size, lt))
      go (y ∷ past) e = (
        record s { buf = text ++ c ∷ past; o = s.o + 1 },
        rw
            (
              ap (λ b. write b s.o c) e
                  ∙ ap (λ n. write (text ++ y ∷ past) n c) h.place
                  ∙ write-append text past y c,
              ◌>>=◌,
            )
            (rw (inside_line previous c s.o feed (omega (arith, h.place, lt))) refl),
        record {
          past = past;
          buffer = sym (append_assoc text (c ∷ []) past);
          place = omega (arith, h.place, length-append text (c ∷ []));
          keeps = record {
            size = omega (
              arith,
              h.keeps.size,
              ap length e,
              length-append text (y ∷ past),
              length-append text (c ∷ past),
            );
            extra = h.keeps.extra;
            grown = h.keeps.grown;
            short = h.keeps.short;
            later = h.keeps.later;
            said = h.keeps.said;
          };
        },
      )

  receive_all-Holding :
      (rl : ℕ) (more text rest : Bytes) (s : Login) (previous : Option ℕ)
      → NoFeed more
      → length text + length more ≤ 512
      → Holding text s
      → (s' : Login) × (previous' : Option ℕ) × (login_receive_all rl s previous (more ++ rest)
          ≡ login_receive_all rl s' previous' rest)
        × Holding (text ++ more) s'
  unfolding login_receive_all
  receive_all-Holding rl [] text rest s previous clean le h = (
    s,
    previous,
    refl,
    record {
      past = h.past;
      buffer = h.buffer ∙ ap (λ l. l ++ h.past) (sym (append-nil text));
      place = h.place ∙ ap length (sym (append-nil text));
      keeps = h.keeps;
    },
  )
  receive_all-Holding rl (c ∷ more) text rest s previous (feed, clean) le h =
      let (s₁, run₁, h₁) = receive-Holding rl c text s previous feed (omega arith) h in
      let (s₂, previous₂, run₂, h₂) =
        receive_all-Holding rl more (text ++ c ∷ []) rest s₁ (some c) clean
          (omega (arith, length-append text (c ∷ []))) h₁ in
      (
        s₂,
        previous₂,
        rw (run₁, ◌>>=◌) run₂,
        record {
          past = h₂.past;
          buffer = h₂.buffer ∙ ap (λ l. l ++ h₂.past) (append_assoc text (c ∷ []) more);
          place = h₂.place ∙ ap length (append_assoc text (c ∷ []) more);
          keeps = h₂.keeps;
        },
      )

  at_space : (a b rest : Bytes) (c : ℕ) → read ((a ++ b' ' ∷ c ∷ b) ++ rest) (length a) ≡ ok b' '
  at_space a b rest c =
      ap (λ l. read l (length a)) (append_assoc a (b' ' ∷ c ∷ b) rest)
      ∙ read-append a ((c ∷ b) ++ rest) b' '

  behind_space :
      (a b rest : Bytes) (c : ℕ) → read ((a ++ b' ' ∷ c ∷ b) ++ rest) (length a + 1) ≡ ok c
  behind_space a b rest c =
      ap (λ l. read l (length a + 1))
        (append_assoc a (b' ' ∷ c ∷ b) rest ∙ sym (append_assoc a (b' ' ∷ []) (c ∷ (b ++ rest))))
      ∙ ap (read ((a ++ b' ' ∷ []) ++ c ∷ (b ++ rest))) (sym (length-append a (b' ' ∷ [])))
      ∙ read-append (a ++ b' ' ∷ []) (b ++ rest) c

  -- the line feed behind a line with a 0 behind a space
  line_feed-success :
      (rl : ℕ) (a b : Bytes) (s : Login)
      → rl ≤ 512
      → 2 ≤ length a
      → length (a ++ b' ' ∷ b'0' ∷ b) ≤ 510
      → Holding ((a ++ b' ' ∷ b'0' ∷ b) ++ b'\r' ∷ []) s
      → (s' : Login) × (login_receive rl s (some b'\r') b'\n' ≡ ok s') × (s'.login_success ≡ true)
  unfolding login_receive ends_line
  line_feed-success rl a b s le two short h =
      let line = (a ++ b' ' ∷ b'0' ∷ b) ++ b'\r' ∷ [] in
      let long : length line ≡ suc (length a + suc (suc (length b))) =
        length-append (a ++ b' ' ∷ b'0' ∷ b) (b'\r' ∷ [])
        ∙ omega (arith, length-append a (b' ' ∷ b'0' ∷ b)) in
      let small : length a + suc (suc (length b)) ≤ 510 =
        omega (arith, short, length-append a (b' ' ∷ b'0' ∷ b)) in
      let lt : s.o < length s.buf = omega (arith, h.keeps.size, h.place, long, small) in
      let filled = set s.buf s.o b'\n' in
      let lt' : s.o < length filled = omega (arith, lt, length-set s.buf s.o b'\n') in
      let whole = set filled s.o 0 in
      let other : (q : ℕ) → q < s.o → read whole q ≡ read s.buf q = λ q below.
        read-set_ne filled s.o q 0 (λ e. absurd (omega arith))
        ∙ read-set_ne s.buf s.o q b'\n' (λ e. absurd (omega arith)) in
      let shape : s.buf ≡ (a ++ b' ' ∷ b'0' ∷ b) ++ (b'\r' ∷ [] ++ h.past) =
        h.buffer ∙ append_assoc (a ++ b' ' ∷ b'0' ∷ b) (b'\r' ∷ []) h.past in
      let (s', run, good) =
        handle_codes-success nick_t first rl s.o (s.o - 1) 1 (length a + 1)
          (record s { buf = whole }) le (omega (arith, h.place, long))
          (omega (arith, h.place, long, small)) (omega arith) (omega (arith, h.place, long))
          (omega arith)
          (record {
            size = length-set filled s.o 0 ∙ length-set s.buf s.o b'\n' ∙ h.keeps.size;
            extra = h.keeps.extra;
            grown = h.keeps.grown;
            short = h.keeps.short;
            later = h.keeps.later;
            said = h.keeps.said;
          })
          (read-set_self filled s.o 0 lt')
          (ap (read whole) (omega arith)
            ∙ other (length a) (omega (arith, h.place, long))
            ∙ ap (λ l. read l (length a)) shape
            ∙ at_space a b _ b'0')
          (other (length a + 1) (omega (arith, h.place, long))
            ∙ ap (λ l. read l (length a + 1)) shape
            ∙ behind_space a b _ b'0') in
      (
        record s' { o = 0 },
        rw (write-set s.buf s.o b'\n' lt, ◌>>=◌)
            (rw (write-set filled s.o 0 lt', ◌>>=◌) (rw (run, ◌>>=◌) refl)),
        good,
      )

-- Where memory is given, a first chunk that is one line with no line feed inside it, at most 510 bytes long and with a
-- 0 right behind a space, that space not among its first two bytes, such as the welcome `:server 001 …`, ends
-- `irc_login` with success.
pub irc_login-welcome :
    (buf user realname nick_t a b : Bytes) (password : Option Bytes) (events : List Event)
    → length buf ≡ 513
    → 2 ≤ length a
    → NoFeed (a ++ b' ' ∷ b'0' ∷ b)
    → length (a ++ b' ' ∷ b'0' ∷ b) ≤ 510
    → (s : Login) × (irc_login true buf user realname nick_t password
          (received ((a ++ b' ' ∷ b'0' ∷ b) ++ b'\r' ∷ b'\n' ∷ []) ∷ events)
        ≡ ok (some s))
      × (s.login_success ≡ true)
unfolding irc_login login_loop login_receive_all
irc_login-welcome buf user realname nick_t a b password events size two clean short =
    let first = introduction user realname nick_t password in
    let line = a ++ b' ' ∷ b'0' ∷ b in
    let chunk = line ++ b'\r' ∷ b'\n' ∷ [] in
    let s : Login = record {
      buf = buf;
      o = 0;
      nick = nick_t;
      login_success = false;
      sends = first;
    } in
    let begun : Holding nick_t first [] s = record {
      past = buf;
      buffer = refl;
      place = refl;
      keeps = record {
        size = size;
        extra = 0;
        grown = sym (append-nil nick_t);
        short = inl refl;
        later = [];
        said = sym (append-nil first);
      };
    } in
    let long : ltb 2 (length chunk) ≡ true = lt→ltb 2 _ (
      omega
        (arith, two, length-append line (b'\r' ∷ b'\n' ∷ []), length-append a (b' ' ∷ b'0' ∷ b))) in
    let (s₁, previous, run₁, h₁) =
      receive_all-Holding nick_t first (length chunk) line [] (b'\r' ∷ b'\n' ∷ []) s none clean
        (omega (arith, short)) begun in
    let (s₂, run₂, h₂) =
      receive-Holding nick_t first (length chunk) b'\r' line s₁ previous refl (omega (arith, short))
        h₁ in
    let (s₃, run₃, good) =
      line_feed-success nick_t first (length chunk) a b s₂
        (omega (arith, short, length-append line (b'\r' ∷ b'\n' ∷ []))) two short h₂ in
    let all : login_receive_all (length chunk) s none chunk ≡ ok s₃ =
      run₁ ∙ rw (run₂, ◌>>=◌) (rw (run₃, ◌>>=◌) refl) in
    (s₃, rw (long, login_loop) (rw (all, ◌>>=◌) (rw good refl)), good)
