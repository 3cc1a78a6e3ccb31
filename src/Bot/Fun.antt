-- ===== src/Bot/Fun.antt =====
-- src/modules/bot_fun.c: cookies, hugs and the text in full-width characters.
use minervabot.Prelude.{
  ℕ, ◌+◌, ◌*◌, ◌/◌, ◌%◌, Bool, true, false, ◌||◌, List, [], ◌∷◌, ◌++◌, ltb, ◌==◌, if◌then◌else◌,
  take, get_or,
}
use minervabot.Run.{Run, ok, ◌>>=◌}
use minervabot.CString.{Bytes, codes, write, string}
use minervabot.Bot.{Caller, CoreCall, msg, msgva}

unfoldable pub cookietypes : List Bytes
cookietypes =
    codes "chocolate chip"
    ∷ codes "oatmeal raisin"
    ∷ codes "oatmeal chocolate"
    ∷ codes "oreo"
    ∷ codes "white chocolate macadamia nut"
    ∷ codes "peanut butter"
    ∷ codes "sugar"
    ∷ codes "ginger"
    ∷ []

-- `if (*args == 0) args = who.nick`
unfoldable pub args_or_nick : Caller → Bytes → Bytes
args_or_nick who [] = who.sender.nick
args_or_nick who (c ∷ args) = c ∷ args

-- `random` is what `rand()` returns
unfoldable pub handle_cookie : ℕ → Bytes → Caller → Bytes → Bytes → List CoreCall
handle_cookie random cmdname who where_ args =
    msgva where_ (
      1
      ∷ (codes "ACTION gives "
          ++ (args_or_nick who args
              ++ (codes " a "
                  ++ (get_or cookietypes (random % 8) []
                      ++ (codes " cookie " ++ (240 ∷ 159 ∷ 141 ∷ 170 ∷ 1 ∷ [])))))))
    ∷ []

unfoldable pub handle_hug : Bytes → Caller → Bytes → Bytes → List CoreCall
handle_hug cmdname who where_ args =
    msgva where_ (1 ∷ (codes "ACTION hugs " ++ (args_or_nick who args ++ 1 ∷ []))) ∷ []

unfoldable pub handle_celebrate : Bytes → Caller → Bytes → Bytes → List CoreCall
handle_celebrate cmdname who where_ args = msgva where_ (240 ∷ 159 ∷ 142 ∷ 137 ∷ []) ∷ []

unfoldable pub handle_shrug : Bytes → Caller → Bytes → Bytes → List CoreCall
handle_shrug cmdname who where_ args =
    msgva where_ (194 ∷ 175 ∷ 92 ∷ 95 ∷ 40 ∷ 227 ∷ 131 ∷ 132 ∷ 41 ∷ 95 ∷ 47 ∷ 194 ∷ 175 ∷ []) ∷ []

unfoldable pub handle_potato : Bytes → Caller → Bytes → Bytes → List CoreCall
handle_potato cmdname who where_ args = msg where_ (240 ∷ 159 ∷ 165 ∷ 148 ∷ []) ∷ []

-- the `unsigned short` arithmetic on a character above the space
unfoldable pub wide : ℕ → ℕ
wide c = (48224 + (if ltb c 96 then c else (c + 192) % 65536)) % 65536

-- `buf[q*3] = a; buf[q*3+1] = b; buf[q*3+2] = c`
unfoldable pub put_three : Bytes → ℕ → ℕ → ℕ → ℕ → Run Bytes
put_three buf q a b c = do
  buf₁ ← write buf (q * 3) a
  buf₂ ← write buf₁ (q * 3 + 1) b
  write buf₂ (q * 3 + 2) c

-- A byte above 127 is a negative `char`, and a large `unsigned short`.
unfoldable pub skipped : ℕ → Bool
skipped c = ltb c 32 || ltb 127 c

unfoldable pub put_wide : Bytes → ℕ → ℕ → Run Bytes
put_wide buf q c =
    if c == 32
    then put_three buf q 227 128 128
    else put_three buf q 239 (wide c / 256 % 256) (wide c % 256)

-- the `for` loop over the characters of `args`, with `buf` and `q`
unfoldable pub fw_loop : Bytes → Bytes → ℕ → Run (Bytes × ℕ)
fw_loop [] buf q = ok (buf, q)
fw_loop (c ∷ args) buf q = elim (skipped c) [
  | true ↦ fw_loop args buf q
  | false ↦ do buf' ← put_wide buf q c; fw_loop args buf' (q + 1)
]

-- `buf[511]` is not initialised; at most 170 characters are read
unfoldable pub handle_fw : Bytes → Bytes → Caller → Bytes → Bytes → Run (List CoreCall)
handle_fw buf cmdname who where_ args = do
  (wide_buf, q) ← fw_loop (take 170 args) buf 0
  ended ← write wide_buf (q * 3) 0
  text ← string ended
  ok (msg where_ text ∷ [])
