-- ===== src/Tests/Entry.antt =====
-- The theorems on `irc_login` of src/irc.c and on src/main.c at concrete replies of a server.
use minervabot.Prelude.{
  ℕ, ◌≡◌, refl, true, false, none, pos, some, List, [], ◌∷◌, ◌++◌, arith, replicate,
}
use minervabot.Run.{ok}
use minervabot.CString.{codes}
use minervabot.Irc.Loop.{Event, received, failed}
use minervabot.Irc.Login.{Login, irc_login}
use minervabot.Irc.Codes.{Keeps}
use minervabot.Irc.Nick.{introduction, irc_login-Keeps}
use minervabot.Irc.Welcome.{irc_login-welcome}
use minervabot.Irc.Stream.{Chunk, part, whole}
use minervabot.Permissions.{Permissions}
use minervabot.Commands.{null}
use minervabot.Threadpool.{Resources}
use minervabot.Loader.{unused, Linker, Loader}
use minervabot.Tests.{fresh_map}
use minervabot.Main.{Config, Attempt}

-- the nick is in use, then a PING, then the connection fails
abbrev replies : List Event
replies =
    received (codes ":srv 433 * bot :in use\r\n") ∷ received (codes "PING :4\r\n") ∷ failed ∷ []

irc_login-Keeps_example :
    (s : Login) × (irc_login true
        (replicate 513 7)
        (codes "bot")
        (codes "Minerva")
        (codes "bot")
        (some (codes "pw"))
        replies
      ≡ ok (some s))
    × Keeps
        (codes "bot")
        (introduction (codes "bot") (codes "Minerva") (codes "bot") (some (codes "pw")))
        s
irc_login-Keeps_example =
    irc_login-Keeps (replicate 513 7) (codes "bot") (codes "Minerva") (codes "bot")
      (some (codes "pw")) replies refl (omega arith, (omega arith, tt))

irc_login-welcome_example :
    (s : Login) × (irc_login true
        (replicate 513 7)
        (codes "bot")
        (codes "Minerva")
        (codes "bot")
        none
        (received ((codes ":srv" ++ b' ' ∷ b'0' ∷ codes "01 bot :hi") ++ b'\r' ∷ b'\n' ∷ [])
          ∷ replies)
      ≡ ok (some s))
    × (s.login_success ≡ true)
irc_login-welcome_example =
    irc_login-welcome (replicate 513 7) (codes "bot") (codes "Minerva") (codes "bot") (codes ":srv")
      (codes "01 bot :hi") none replies refl (omega arith) (ground arith) (omega arith)

abbrev settings : Config
settings = record {
  nick = codes "bot";
  user = codes "bot";
  name = codes "Minerva";
  host = codes "irc.example.org";
  port = codes "6697";
  use_ssl = true;
  verbosity = pos 1;
  netpw = none;
}

-- no shared object is there
abbrev no_linker : Linker ℕ ℕ
no_linker = record { dlopen = λ file. none; dlsym = λ handle symbol. none }

abbrev enough_threads : ℕ → Resources
enough_threads i = record { realloc_ok = true; malloc_ok = true; create_ok = true }

abbrev no_modules : Loader ℕ ℕ
no_modules = record {
  base = 100;
  loaded = unused ∷ unused ∷ [];
  loaded_len = 2;
  loaded_use = pos 0;
  locked = false;
  cmds = null;
  threads = record { pool = none ∷ none ∷ []; pool_len = 2; pool_flags = false };
  closed = [];
}

abbrev no_levels : Permissions
no_levels = record { perm_map = fresh_map; locked = false; pbuf = replicate 128 0 }

abbrev refused_once : Attempt ℕ ℕ
refused_once = record {
  signal = false;
  connects = false;
  malloc_ok = true;
  buf = [];
  login = [];
  session = [];
  loader = no_modules;
  levels = no_levels;
}

abbrev two_refused : List (Attempt ℕ ℕ)
two_refused = refused_once ∷ refused_once ∷ []

abbrev session_chunks : List Chunk
session_chunks =
    part (codes "PI") ∷ whole (codes "NG x") [] (codes "PI") ∷ whole (codes "NG y") [] [] ∷ []

abbrev last_round : Attempt ℕ ℕ
last_round = record {
  signal = true;
  connects = true;
  malloc_ok = true;
  buf = [];
  login = [];
  session = [];
  loader = no_modules;
  levels = no_levels;
}
