-- ===== src/Main.antt =====
-- src/main.c: the settings that the environment gives, and the loop that connects, logs in, joins the
-- channels and serves the connection, over and over.
pub mod Goodnight
pub mod Settings
use minervabot.Prelude.{
  ℕ, Bool, true, false, ◌||◌, Option, none, some, List, [], ◌∷◌, ◌++◌, ltb, ◌==◌, if◌then◌else◌,
  map, ℤ, pos, negsuc,
}
use minervabot.Run.{Run, ok, ◌>>=◌}
use minervabot.CString.{Bytes, codes}
use minervabot.Bot.Perms.{atoi}
use minervabot.Irc.{irc_join}
use minervabot.Irc.Line.{Action}
use minervabot.Irc.Loop.{Event, received, terminated, closed, failed, start, irc_loop}
use minervabot.Irc.Login.{Login, irc_login}
use minervabot.Permissions.{Permissions, permissions_cleanup}
use minervabot.Threadpool.{Resources}
use minervabot.Loader.{Linker, Loader}
use minervabot.Loader.Scan.{or_default, modules_deinit}

-- the variables that `main` reads by `getenv`, without those it hands on to modules.c
pub record Environment : Type 0 where
  pub bot_nick : Option Bytes
  pub bot_user : Option Bytes
  pub bot_name : Option Bytes
  pub bot_log_verbosity : Option Bytes
  pub bot_network_host : Option Bytes
  pub bot_network_port : Option Bytes
  pub bot_network_ssl : Option Bytes
  pub bot_network_password : Option Bytes

pub record Config : Type 0 where
  pub nick : Bytes
  pub user : Bytes
  pub name : Bytes
  pub host : Bytes
  pub port : Bytes
  pub use_ssl : Bool
  pub verbosity : ℤ
  pub netpw : Option Bytes

-- `if (use_ssl != 1) use_ssl = 0`
unfoldable pub only_one : ℤ → Bool
only_one (pos n) = n == 1
only_one (negsuc n) = false

-- `if (verbosity > 3 || verbosity < 0) verbosity = 1`
unfoldable pub within : ℤ → ℤ
within (pos n) = if ltb 3 n then pos 1 else pos n
within (negsuc n) = pos 1

unfoldable pub with_defaults : Environment → Bytes → Bytes → Bytes → Run Config
unfolding only_one within
with_defaults e nick host port = do
  ssl ← atoi (or_default e.bot_network_ssl (codes "0"))
  level ← atoi (or_default e.bot_log_verbosity (codes "1"))
  ok (record {
    nick = nick;
    user = or_default e.bot_user nick;
    name = or_default e.bot_name nick;
    host = host;
    port = port;
    use_ssl = only_one ssl;
    verbosity = within level;
    netpw = e.bot_network_password;
  })

unfoldable pub required :
    Environment → Option Bytes → Option Bytes → Option Bytes → Run (Option Config)
unfolding with_defaults
required e none host port = ok none
required e (some nick) none port = ok none
required e (some nick) (some host) none = ok none
required e (some nick) (some host) (some port) = do c ← with_defaults e nick host port; ok (some c)

-- `none` where the program gives up
unfoldable pub configure : Environment → Run (Option Config)
unfolding required
configure e = required e e.bot_nick e.bot_network_host e.bot_network_port

-- what one round of the loop meets: whether a signal has come before it, what `net_connect` and
-- `malloc` answer, the stack of `irc_login`, and what `net_recv` brings to the login, until that is
-- over, and behind it; `loader` and `levels` are the modules and the permissions as the threads have left
-- them when the round begins
pub record Attempt (L H : Type 0) : Type 0 where
  pub signal : Bool
  pub connects : Bool
  pub malloc_ok : Bool
  pub buf : Bytes
  pub login : List Event
  pub session : List Event
  pub loader : Loader L H
  pub levels : Permissions

-- what the program does
pub data Output : Type 0 where
  usleep : Output
  net_connect : Bytes → Bytes → Bool → Output
  line : Bytes → Output
  handled : Action → Output
  net_disconnect : Output
  deinit_modules : Output
  cleanup_permissions : Output

-- a signal has come in the meantime
unfoldable pub signalled : List Event → Bool
signalled [] = false
signalled (terminated ∷ events) = true
signalled (received _ ∷ events) = signalled events
signalled (closed ∷ events) = signalled events
signalled (failed ∷ events) = signalled events

-- the loop finds `done` set if the signal came during the login
unfoldable pub from_login : Bool → List Event → List Event
from_login false events = events
from_login true events = terminated ∷ events

-- `irc_loop` has returned, or it still waits
unfoldable pub after_loop : List Output → Bool → List Action → Bool → List Output × Option Bool
after_loop before done actions true =
    (before ++ (map handled actions ++ net_disconnect ∷ []), some done)
after_loop before done actions false = (before ++ map handled actions, none)

-- ten seconds before each round but the first
unfoldable pub pause : Bool → List Output
pause false = []
pause true = usleep ∷ []

module _ {L H : Type 0} where
  unfoldable pub logged_in :
      List Output → List Bytes → Attempt L H → Option Login → Run (List Output × Option Bool)
  unfolding after_loop
  logged_in before channels a none = ok (before ++ net_disconnect ∷ [], some (signalled a.login))
  logged_in before channels a (some s) = elim s.login_success [
    | false ↦ ok (before ++ (map line s.sends ++ net_disconnect ∷ []), some (signalled a.login))
    | true ↦ do
      (actions, ended) ← irc_loop start (from_login (signalled a.login) a.session)
      ok (
          after_loop
            (before ++ (map line s.sends ++ map (λ channel. line (irc_join channel)) channels))
            (signalled a.login || signalled a.session) actions ended)
  ]

  -- one round, with what `done` is behind it; `none` where it is not over
  unfoldable pub attempt : Config → List Bytes → Attempt L H → Run (List Output × Option Bool)
  unfolding logged_in
  attempt c channels a = elim a.connects [
    | false ↦ ok (net_connect c.host c.port c.use_ssl ∷ [], some false)
    | true ↦ do
      login ← irc_login a.malloc_ok a.buf c.user c.name c.nick c.netpw a.login
      logged_in (net_connect c.host c.port c.use_ssl ∷ []) channels a login
  ]

  -- `again` is `fst != 0`; the flag of the result says that `main` has returned 0. `r` is what the thread pool is
  -- given for the clean-up of each module.
  unfoldable pub main_loop :
      Linker L H
      → (ℕ → Resources)
      → Config
      → List Bytes
      → Bool
      → Bool
      → List (Attempt L H)
      → Run (List Output × Bool)
  unfolding attempt pause
  main_loop linker r c channels again done [] = ok ([], false)
  main_loop linker r c channels again done (a ∷ rest) = elim (a.signal || done) [
    | true ↦ do
      s ← modules_deinit linker r a.loader
      gone ← permissions_cleanup a.levels
      ok (deinit_modules ∷ cleanup_permissions ∷ [], true)
    | false ↦ do
      (now, over) ← attempt c channels a
      elim over [
        | none ↦ ok (pause again ++ now, false)
        | some done' ↦ do
          (later, ended) ← main_loop linker r c channels true done' rest
          ok (pause again ++ (now ++ later), ended)
      ]
  ]
