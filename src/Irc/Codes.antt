-- ===== src/Irc/Codes.antt =====
-- The loop of `irc_login` over the codes in a line: it stays inside the buffer, and finds a success.
use minervabot.Prelude.{
  ℕ, zero, suc, ◌+◌, ◌-◌, ◌≤◌, ◌<◌, ◌≡◌, refl, sym, ap, ◌∙◌, Bool, true, false, ◌&&◌, List, [], ◌∷◌,
  ◌++◌, arith, ltb, ltb→lt, ◌==◌, ==_iff, length, length-append, length-set, set, replicate, inl,
  inr, ◌⊎◌, Bool-cases,
}
use mathlib.Core.List.{append_assoc}
use minervabot.Run.{Run, ok, ◌>>=◌}
use minervabot.CString.{Bytes, read, string}
use minervabot.CString.Laws.{write-set}
use minervabot.Irc.{crlf, net_raw}
use minervabot.Irc.Login.{
  Login, say, longer_nick, other_nick, nick_error, read_code, pong, handle_code, handle_codes,
}

pub read-inside : (buf : Bytes) (i : ℕ) → i < length buf → (c : ℕ) × (read buf i ≡ ok c)
unfolding read
read-inside [] i lt = absurd (omega arith)
read-inside (x ∷ buf) zero lt = (x, refl)
read-inside (x ∷ buf) (suc i) lt = read-inside buf i (omega arith)

pub read-set_self : (buf : Bytes) (i c : ℕ) → i < length buf → read (set buf i c) i ≡ ok c
unfolding read
read-set_self [] i c lt = absurd (omega arith)
read-set_self (x ∷ buf) zero c lt = refl
read-set_self (x ∷ buf) (suc i) c lt = read-set_self buf i c (omega arith)

-- what stands behind the second byte of a buffer does not depend on that byte
read-set_second : (buf : Bytes) (p c : ℕ) → 2 ≤ p → read (set buf 1 c) p ≡ read buf p
unfolding read
read-set_second [] p c le = refl
read-set_second (x ∷ buf) zero c le = refl
read-set_second (x ∷ []) (suc p) c le = refl
read-set_second (x ∷ y ∷ buf) (suc zero) c le = absurd (omega arith)
read-set_second (x ∷ y ∷ buf) (suc (suc p)) c le = refl

string-null : (buf : Bytes) (p : ℕ) → read buf p ≡ ok 0 → (text : Bytes) × (string buf ≡ ok text)
unfolding read string
string-null [] p e = absurd (cc e)
string-null (x ∷ buf) zero e = (let z : x ≡ 0 = cc e in ([], rw z refl))
string-null (x ∷ buf) (suc p) e =
    let (text, rest) = string-null buf p e in
    elim (Bool-cases (x == 0)) [ inl n ↦ ([], rw n refl) | inr n ↦ (x ∷ text, rw (n, rest) refl) ]

both : (a b : Bool) → (a && b) ≡ true → b ≡ true
both true true e = refl
both true false e = cc e
both false b e = absurd (cc e)

next_le : (i j : ℕ) → i ≤ j → (i == j) ≡ false → i + 1 ≤ j
next_le i j le ne = ground arith

same_end : (s s' : Login) → ok s ≡ ok s' → s'.login_success ≡ true → s.login_success ≡ true
same_end s s' e good = let same : s ≡ s' = cc e in ap (λ (t : Login). t.login_success) same ∙ good

replicate-snoc : (k c : ℕ) → replicate k c ++ c ∷ [] ≡ replicate (suc k) c
replicate-snoc zero c = refl
replicate-snoc (suc k) c = ap (λ l. c ∷ l) (replicate-snoc k c)

-- What holds between any two steps: the buffer has its size, the nick is the one given with some `_` behind
-- it, and `first` has been sent first.
pub record Keeps (nick_t : Bytes) (first : List Bytes) (s : Login) : Type 0 where
  pub size : length s.buf ≡ 513
  pub extra : ℕ
  pub grown : s.nick ≡ nick_t ++ replicate extra b'_'
  pub short : (extra ≡ 0) ⊎ (length s.nick ≤ 20)
  pub later : List Bytes
  pub said : s.sends ≡ first ++ later

module _ (nick_t : Bytes) (first : List Bytes) where
  say-Keeps : (s : Login) (text : Bytes) → Keeps nick_t first s → Keeps nick_t first (say s text)
  unfolding say
  say-Keeps s text h = record {
    size = h.size;
    extra = h.extra;
    grown = h.grown;
    short = h.short;
    later = h.later ++ text ∷ [];
    said = ap (λ l. l ++ text ∷ []) h.said ∙ append_assoc first h.later (text ∷ []);
  }

  longer_nick-Keeps :
      (s : Login) → length s.nick < 20 → Keeps nick_t first s → Keeps nick_t first (longer_nick s)
  unfolding longer_nick
  longer_nick-Keeps s lt h =
      say-Keeps (record s { nick = s.nick ++ b'_' ∷ [] }) _
        (record {
          size = h.size;
          extra = suc h.extra;
          grown =
              ap (λ l. l ++ b'_' ∷ []) h.grown
              ∙ append_assoc nick_t (replicate h.extra b'_') (b'_' ∷ [])
              ∙ ap (λ l. nick_t ++ l) (replicate-snoc h.extra b'_');
          short = inr (omega (arith, lt, length-append s.nick (b'_' ∷ [])));
          later = h.later;
          said = h.said;
        })

  -- a step that leaves the buffer as it is
  abbrev pub Steps : Login → Run Login → Type 0
  Steps s result =
      (s' : Login) × (result ≡ ok s')
      × Keeps nick_t first s'
      × (s'.buf ≡ s.buf)
      × (s.login_success ≡ true → s'.login_success ≡ true)

  nick_error-Keeps :
      (rl i : ℕ) (s : Login) → rl ≤ 512 → Keeps nick_t first s → Steps s (nick_error rl i s)
  unfolding nick_error
  nick_error-Keeps rl i s le h = elim (Bool-cases (ltb (i + 2) rl)) [
    | inr e ↦ (
      other_nick s,
      rw (e, nick_error) refl,
      unfold other_nick in say-Keeps s _ h,
      unfold other_nick say in refl,
      unfold other_nick say in λ e. e,
    )
    | inl e ↦
        let (c, got) = read-inside s.buf (i + 2) (omega (arith, h.size, ltb→lt _ _ e)) in
        elim (Bool-cases (c == b'3' && ltb (length s.nick) 20)) [
          | inl taken ↦ (
            longer_nick s,
            rw (e, nick_error) (rw (got, ◌>>=◌) (rw taken refl)),
            longer_nick-Keeps s (ltb→lt _ _ (both (c == b'3') (ltb (length s.nick) 20) taken)) h,
            unfold longer_nick say in refl,
            unfold longer_nick say in λ e. e,
          )
          | inr not_taken ↦ (
            other_nick s,
            rw (e, nick_error) (rw (got, ◌>>=◌) (rw not_taken refl)),
            unfold other_nick in say-Keeps s _ h,
            unfold other_nick say in refl,
            unfold other_nick say in λ e. e,
          )
        ]
  ]

  read_code-Keeps :
      (rl i : ℕ) (s : Login)
      → rl ≤ 512
      → i < 513
      → Keeps nick_t first s
      → Steps s (read_code rl i s)
  unfolding read_code
  read_code-Keeps rl i s le lt h =
      let (c, got) = read-inside s.buf i (omega (arith, h.size, lt)) in
      elim (Bool-cases (c == b'0')) [
        | inl good ↦ (
          record s { login_success = true },
          rw (got, ◌>>=◌) (rw good refl),
          record {
            size = h.size;
            extra = h.extra;
            grown = h.grown;
            short = h.short;
            later = h.later;
            said = h.said;
          },
          refl,
          λ e. refl,
        )
        | inr other ↦ elim (Bool-cases (c == b'4')) [
          | inr neither ↦ (s, rw (got, ◌>>=◌) (rw (other, neither) refl), h, refl, λ e. e)
          | inl four ↦
              let (s', run, h', same, still) = nick_error-Keeps rl i s le h in
              (s', rw (got, ◌>>=◌) (rw (other, four) run), h', same, still)
        ]
      ]

  -- a step that changes the second byte of the buffer at most, and takes no success back
  pub record Later (s s' : Login) : Type 0 where
    pub keeps : Keeps nick_t first s'
    pub behind : (q : ℕ) → 2 ≤ q → read s'.buf q ≡ read s.buf q
    pub still : s.login_success ≡ true → s'.login_success ≡ true

  abbrev pub Ends : Login → Run Login → Type 0
  Ends s result = (s' : Login) × (result ≡ ok s') × Later s s'

  pong-Later :
      (p : ℕ) (s : Login) → 2 ≤ p → Keeps nick_t first s → read s.buf p ≡ ok 0 → Ends s (pong s)
  unfolding pong
  pong-Later p s le h null =
      let buf = set s.buf 1 b'O' in
      let (text, whole) = string-null buf p (read-set_second s.buf p b'O' le ∙ null) in
      (
        say (record s { buf = buf }) (net_raw (text ++ crlf)),
        rw (write-set s.buf 1 b'O' (omega (arith, h.size)), ◌>>=◌) (rw (whole, ◌>>=◌) refl),
        record {
          keeps =
              say-Keeps (record s { buf = buf }) _
                (record {
                  size = length-set s.buf 1 b'O' ∙ h.size;
                  extra = h.extra;
                  grown = h.grown;
                  short = h.short;
                  later = h.later;
                  said = h.said;
                });
          behind = λ q two. unfold say in read-set_second s.buf q b'O' two;
          still = unfold say in λ e. e;
        },
      )

  read_code-Later :
      (rl i : ℕ) (s : Login) → rl ≤ 512 → i < 513 → Keeps nick_t first s → Ends s (read_code rl i s)
  read_code-Later rl i s le lt h =
      let (s', run, h', same, still) = read_code-Keeps rl i s le lt h in
      (s', run, record { keeps = h'; behind = λ q two. ap (λ b. read b q) same; still = still })

  handle_code-Later :
      (rl p i : ℕ) (s : Login)
      → rl ≤ 512
      → 2 ≤ p
      → i < 513
      → Keeps nick_t first s
      → read s.buf p ≡ ok 0
      → Ends s (handle_code rl i s)
  unfolding handle_code
  handle_code-Later rl p i s le two lt h null =
      let (before, got) = read-inside s.buf (i - 1) (omega (arith, h.size, lt)) in
      let (second, got₂) = read-inside s.buf 1 (omega (arith, h.size)) in
      elim (Bool-cases (before == b' ')) [
        | inl space ↦
            let (s', run, l) = read_code-Later rl i s le lt h in
            (s', rw (got, ◌>>=◌) (rw (got₂, ◌>>=◌) (rw space run)), l)
        | inr other ↦ elim (Bool-cases (second == b'I')) [
          | inr neither ↦ (
            s,
            rw (got, ◌>>=◌) (rw (got₂, ◌>>=◌) (rw (other, neither) refl)),
            record { keeps = h; behind = λ q two. refl; still = λ e. e },
          )
          | inl ping ↦
              let (s₁, run₁, l₁) = pong-Later p s two h null in
              let (s₂, run₂, l₂) = read_code-Later rl i s₁ le lt l₁.keeps in
              (
                s₂,
                rw (got, ◌>>=◌) (rw (got₂, ◌>>=◌) (rw (other, ping) (rw (run₁, ◌>>=◌) run₂))),
                record {
                  keeps = l₂.keeps;
                  behind = λ q two. l₂.behind q two ∙ l₁.behind q two;
                  still = λ e. l₂.still (l₁.still e);
                },
              )
        ]
      ]

  pub handle_codes-Later :
      (rl p k i : ℕ) (s : Login)
      → rl ≤ 512
      → (k ≡ 0) ⊎ (2 ≤ p)
      → i + k ≤ 513
      → Keeps nick_t first s
      → read s.buf p ≡ ok 0
      → Ends s (handle_codes rl k i s)
  unfolding handle_codes
  handle_codes-Later rl p zero i s le two lt h null =
      (s, refl, record { keeps = h; behind = λ q two. refl; still = λ e. e })
  handle_codes-Later rl p (suc k) i s le (inl none_left) lt h null = absurd (omega arith)
  handle_codes-Later rl p (suc k) i s le (inr two) lt h null =
      let (s₁, run₁, l₁) = handle_code-Later rl p i s le two (omega arith) h null in
      let (s₂, run₂, l₂) =
        handle_codes-Later rl p k (i + 1) s₁ le (inr two) (omega arith) l₁.keeps
          (l₁.behind p two ∙ null) in
      (
        s₂,
        rw (run₁, ◌>>=◌) run₂,
        record {
          keeps = l₂.keeps;
          behind = λ q two. l₂.behind q two ∙ l₁.behind q two;
          still = λ e. l₂.still (l₁.still e);
        },
      )

  -- a 0 behind a space
  handle_code-success :
      (rl i : ℕ) (s : Login)
      → i < 513
      → Keeps nick_t first s
      → read s.buf (i - 1) ≡ ok b' '
      → read s.buf i ≡ ok b'0'
      → (s' : Login) × (handle_code rl i s ≡ ok s') × (s'.login_success ≡ true)
  unfolding handle_code read_code
  handle_code-success rl i s lt h space digit =
      let (second, got₂) = read-inside s.buf 1 (omega (arith, h.size)) in
      (
        record s { login_success = true },
        rw (space, ◌>>=◌) (rw (got₂, ◌>>=◌) (rw (digit, ◌>>=◌) refl)),
        refl,
      )

  -- The loop over a line with a 0 behind a space finds it.
  pub handle_codes-success :
      (rl p k i j : ℕ) (s : Login)
      → rl ≤ 512
      → 2 ≤ p
      → i + k ≤ 513
      → i ≤ j
      → j < i + k
      → 3 ≤ j
      → Keeps nick_t first s
      → read s.buf p ≡ ok 0
      → read s.buf (j - 1) ≡ ok b' '
      → read s.buf j ≡ ok b'0'
      → (s' : Login) × (handle_codes rl k i s ≡ ok s') × (s'.login_success ≡ true)
  unfolding handle_codes
  handle_codes-success rl p zero i j s le two lt from to three h null space digit =
      absurd (omega arith)
  handle_codes-success rl p (suc k) i j s le two lt from to three h null space digit =
      elim (Bool-cases (i == j)) [
        | inl here ↦
            let same : i ≡ j = (==_iff i j).0 here in
            let (s₁, run₁, l₁) = handle_code-Later rl p i s le two (omega arith) h null in
            let (s', run', good) =
              handle_code-success rl i s (omega arith) h (ap (λ n. read s.buf (n - 1)) same ∙ space)
                (ap (read s.buf) same ∙ digit) in
            let found : s₁.login_success ≡ true = same_end s₁ s' (sym run₁ ∙ run') good in
            let (s₂, run₂, l₂) =
              handle_codes-Later rl p k (i + 1) s₁ le (inr two) (omega arith) l₁.keeps
                (l₁.behind p two ∙ null) in
            (s₂, rw (run₁, ◌>>=◌) run₂, l₂.still found)
        | inr later ↦
            let (s₁, run₁, l₁) = handle_code-Later rl p i s le two (omega arith) h null in
            let (s₂, run₂, success) =
              handle_codes-success rl p k (i + 1) j s₁ le two (omega arith) (next_le i j from later)
                (omega arith) three l₁.keeps (l₁.behind p two ∙ null)
                (l₁.behind (j - 1) (omega arith) ∙ space) (l₁.behind j (omega arith) ∙ digit) in
            (s₂, rw (run₁, ◌>>=◌) run₂, success)
      ]
