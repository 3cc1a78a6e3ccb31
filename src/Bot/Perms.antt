-- ===== src/Bot/Perms.antt =====
-- src/modules/bot_perms.c: reading and setting the levels of hosts, with `atoi` and `%d`.
use minervabot.Prelude.{
  ℕ, zero, suc, ◌+◌, ◌-◌, ◌*◌, ◌/◌, ◌%◌, Bool, true, false, ◌&&◌, ◌||◌, Option, none, some, List,
  [], ◌∷◌, ◌++◌, ltb, leb, ◌==◌, if◌then◌else◌, ℤ, pos, negsuc, ltb_ℤ, not,
}
use minervabot.Run.{Run, ok, fault, ◌>>=◌}
use minervabot.CString.{Bytes, codes, split_at}
use minervabot.Permissions.{Memory, Permissions, permissions_set, permissions_get}
use minervabot.Bot.{Caller, CoreCall, first, to_nick}

-- The number that the digits at the front of a text make, behind `n`.
unfoldable pub digits : ℕ → Bytes → ℕ
digits n [] = n
digits n (c ∷ s) = elim (leb b'0' c && leb c b'9') [
  | true ↦ digits (n * 10 + (c - b'0')) s
  | false ↦ n
]

-- -n
unfoldable pub negative : ℕ → ℤ
negative zero = pos 0
negative (suc n) = negsuc n

-- A value that an `int` cannot hold is undefined behaviour of `atoi`.
unfoldable pub as_int : ℤ → Run ℤ
as_int (pos n) = if ltb n (2147483648) then ok (pos n) else fault
as_int (negsuc n) = if ltb n (2147483648) then ok (negsuc n) else fault

unfoldable pub signed : Bytes → ℤ
unfolding digits negative
signed [] = pos 0
signed (c ∷ s) =
    if c == b'-'
    then negative (digits 0 s)
    else if c == b'+'
    then pos (digits 0 s)
    else pos (digits 0 (c ∷ s))

-- `isspace` in the C locale
is_space : ℕ → Bool
is_space c = c == 32 || leb 9 c && leb c 13

unfoldable pub skip_spaces : Bytes → Bytes
unfolding is_space
skip_spaces [] = []
skip_spaces (c ∷ s) = elim (is_space c) [ true ↦ skip_spaces s | false ↦ c ∷ s ]

unfoldable pub atoi : Bytes → Run ℤ
unfolding as_int signed skip_spaces
atoi s = as_int (signed (skip_spaces s))

-- the decimal digits; an `int` has at most ten of them
unfoldable pub decimal_digits : ℕ → ℕ → Bytes
decimal_digits zero n = []
decimal_digits (suc fuel) n = elim (ltb n 10) [
  | true ↦ (b'0' + n) ∷ []
  | false ↦ decimal_digits fuel (n / 10) ++ (b'0' + n % 10) ∷ []
]

-- `%d`
unfoldable pub decimal : ℤ → Bytes
unfolding decimal_digits
decimal (pos n) = decimal_digits 10 n
decimal (negsuc n) = b'-' ∷ decimal_digits 10 (n + 1)

unfoldable pub may_set : Caller → ℤ → Bool
may_set who level = not (ltb_ℤ who.permission_level (pos 40000)) && ltb_ℤ level who.permission_level

unfoldable pub set_level :
    Memory → Permissions → Caller → Bytes → Bytes → ℤ → Run (Permissions × List CoreCall)
set_level mem s who where_ host level =
    if may_set who level
    then (do
      s' ← permissions_set mem s host level
      ok (
        s',
        to_nick who where_ (
              codes "Set permission level for "
              ++ (host ++ (codes " to " ++ (decimal level ++ codes "!"))))
            ∷ [],
      ))
    else ok (
      s,
      to_nick who where_ (
            codes "You lack sufficient permission to give "
            ++ (host ++ (codes " permission level " ++ (decimal level ++ codes "."))))
          ∷ [],
    )

-- the case of `s`, on the parts of `args` around its first space
unfoldable pub set_case :
    Memory
    → Permissions
    → Caller
    → Bytes
    → Option (Bytes × Bytes)
    → Run (Permissions × List CoreCall)
unfolding set_level
set_case mem s who where_ none = ok (s, to_nick who where_ (codes "Invalid usage of command!") ∷ [])
set_case mem s who where_ (some (level_text, host)) = do
  level ← atoi level_text
  set_level mem s who where_ host level

unfoldable pub own_level : Permissions → Caller → Bytes → Run (Permissions × List CoreCall)
own_level s who where_ = ok (
  s,
  to_nick who where_ (codes "you have permission level " ++ decimal who.permission_level) ∷ [],
)

-- the case of `g`
unfoldable pub get_case : Permissions → Caller → Bytes → Bytes → Run (Permissions × List CoreCall)
unfolding own_level
get_case s who where_ [] = own_level s who where_
get_case s who where_ (c ∷ args) =
    if ltb_ℤ who.permission_level (pos 25000) then own_level s who where_ else (do
      (level, s') ← permissions_get s (c ∷ args)
      ok (
        s',
        to_nick who where_ ((c ∷ args) ++ (codes " has permission level " ++ decimal level)) ∷ [],
      ))

unfoldable pub handle_perms :
    Memory → Permissions → Bytes → Caller → Bytes → Bytes → Run (Permissions × List CoreCall)
handle_perms mem s cmdname who where_ args =
    if first cmdname == b's'
    then set_case mem s who where_ (split_at b' ' args)
    else if first cmdname == b'g'
    then get_case s who where_ args
    else ok (s, [])
