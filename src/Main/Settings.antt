-- ===== src/Main/Settings.antt =====
-- src/main.c: the settings that `main` starts with.
use minervabot.Prelude.{
  ℕ, ◌≤◌, ◌≡◌, refl, Bool, if◌then◌else◌, true, false, Option, none, some, arith, ltb, subst, pos,
  negsuc, ℤ,
}
use minervabot.Run.{ok, >>=-eq-ok}
use minervabot.CString.{Bytes, codes}
use minervabot.Bot.Perms.{atoi}
use minervabot.Loader.Scan.{or_default}
use minervabot.Main.{Environment, Config, within, with_defaults, required, configure}

within-bounds : (level : ℤ) → (n : ℕ) × (within level ≡ pos n) × (n ≤ 3)
unfolding within
within-bounds (pos n) = in_case (ltb 3 n) refl
  where
    in_case :
        (above : Bool)
        → ltb 3 n ≡ above
        → (m : ℕ) × ((if above then pos 1 else pos n) ≡ pos m) × (m ≤ 3)
    in_case true e = (1, refl, omega arith)
    in_case false e = (n, refl, ground arith)
within-bounds (negsuc n) = (1, refl, omega arith)

-- what a start goes on with
abbrev pub Sound : Environment → Config → Type 0
Sound e c =
    (n : ℕ) × (c.verbosity ≡ pos n)
    × (n ≤ 3)
    × (e.bot_nick ≡ some c.nick)
    × (c.user ≡ or_default e.bot_user c.nick)
    × (c.name ≡ or_default e.bot_name c.nick)

with_defaults-Sound :
    (e : Environment) (c : Config) (nick host port : Bytes)
    → e.bot_nick ≡ some nick
    → with_defaults e nick host port ≡ ok c
    → Sound e c
unfolding with_defaults
with_defaults-Sound e c nick host port given run =
    let (ssl, _, run₁) = >>=-eq-ok (atoi (or_default e.bot_network_ssl (codes "0"))) _ run in
    let (level, _, run₂) = >>=-eq-ok (atoi (or_default e.bot_log_verbosity (codes "1"))) _ run₁ in
    let (n, shown, le) = within-bounds level in
    subst (Sound e) (same run₂) (n, shown, le, given, refl, refl)
  where
    same : {c c' : Config} → ok c ≡ ok c' → c ≡ c'
    same e = cc

required-Sound :
    (e : Environment) (c : Config) (nick host port : Option Bytes)
    → e.bot_nick ≡ nick
    → required e nick host port ≡ ok (some c)
    → Sound e c
unfolding required
required-Sound e c none host port given run = cc
required-Sound e c (some nick) none port given run = cc
required-Sound e c (some nick) (some host) none given run = cc
required-Sound e c (some nick) (some host) (some port) given run =
    let (c', run', last) = >>=-eq-ok (with_defaults e nick host port) _ run in
    subst (Sound e) (same last) (with_defaults-Sound e c' nick host port given run')
  where
    same : {c c' : Config} → ok (some c) ≡ ok (some c') → c ≡ c'
    same e = cc

-- Whatever the environment holds, a start that goes on has one of the four levels of verbosity and the nick of
-- `BOT_NICK`, which also stands for a user and a name that are not given.
configure-Sound : (e : Environment) (c : Config) → configure e ≡ ok (some c) → Sound e c
unfolding configure
configure-Sound e c run = required-Sound e c e.bot_nick _ _ refl run
