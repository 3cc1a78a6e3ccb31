-- ===== src/Web/Geoip.antt =====
-- src/modules/bot_geoip.c, `handle_cmd`. `resolve` is `getaddrinfo` with `inet_ntop` behind it, `parse` is `jsmn_parse`,
-- whose tokens stand inside the text that it was given, and `web` what a request of an address brings.
use minervabot.Prelude.{
  ℕ, ◌+◌, ◌-◌, Bool, true, false, ◌||◌, Option, none, some, List, [], ◌∷◌, ◌++◌, ltb, ◌==◌,
  if◌then◌else◌, length, take, drop, ◌%◌,
}
use minervabot.Run.{Run, ok, fault, ◌>>=◌}
use minervabot.CString.{Bytes, codes, read, split_at, equal, until_null}
use minervabot.Bot.{CoreCall, msg, msgva, Caller}
use minervabot.Web.{Buffer, Transfer, send_http_request}

pub data Family : Type 0 where
  unspec : Family
  inet : Family
  inet6 : Family

unfoldable pub has_char : ℕ → Bytes → Bool
has_char c text = elim (split_at c text) [ none ↦ false | some _ ↦ true ]

-- the family that is asked for, and the host: the arguments end at their first space if there is a 6 or a 4 behind it
unfoldable pub select_family : Bytes → Family × Bytes
unfolding has_char
select_family args = elim (split_at b' ' args) [
  | none ↦ (unspec, args)
  | some (host, options) ↦
      if has_char b'6' options
      then (inet6, host)
      else if has_char b'4' options
      then (inet, host)
      else (unspec, args)
]

-- `jsmntok_t`
pub record Token : Type 0 where
  pub from : ℕ
  pub stop : ℕ
  pub is_object : Bool

pub data Parsed : Type 0 where
  invalid : Parsed
  tokens : List Token → Parsed

-- `strncat(url, text, …)` for a `url` of 512 bytes
unfoldable pub strncat : Bytes → Bytes → Run Bytes
strncat url text = if ltb (length url + length text) 512 then ok (url ++ text) else fault

-- `t.end - t.from` bytes from `chunk.memory + t.from` on
unfoldable pub bytes_of : Bytes → Token → Bytes
bytes_of memory t = take (t.stop - t.from) (drop t.from memory)

-- `!strncmp(word, key, …)`, for the number of bytes of the key
unfoldable pub same_word : Bytes → Bytes → Bool
same_word word key = equal (take (length key) word) (until_null key)

-- `-= 'a' - 'A'`
unfoldable pub capital : Bytes → Bytes
capital [] = []
capital (c ∷ key) = (c + 224) % 256 ∷ key

unfoldable pub titled : Bytes → Bytes
titled title = 2 ∷ (title ++ 15 ∷ codes ": ")

unfoldable pub heading : Bytes → Bytes
unfolding same_word capital titled
heading key =
    if same_word (codes "region") key || same_word (codes "country") key
    then []
    else if same_word (codes "city") key
    then titled (codes "Location")
    else if same_word (codes "loc") key
    then titled (codes "Coordinates")
    else if same_word (codes "org") key
    then titled (codes "ISP")
    else if same_word (codes "ip") key
    then titled (codes "IP")
    else titled (until_null (capital key))

unfoldable pub value_text : Bytes → Token → Bytes
unfolding bytes_of
value_text memory t = if t.stop == t.from then codes "[unknown]" else until_null (bytes_of memory t)

-- the regional indicators of two letters, in UTF-8
unfoldable pub flag_text : Bytes → Token → Run Bytes
flag_text memory t = do
  c ← read memory t.from
  d ← read memory (t.from + 1)
  ok (
      until_null
        (b' ' ∷ 240 ∷ 159 ∷ 135 ∷ (c + 101) % 256 ∷ 240 ∷ 159 ∷ 135 ∷ (d + 101) % 256 ∷ []))

unfoldable pub extras : Bytes → Token → Token → Run Bytes
unfolding flag_text same_word bytes_of
extras memory key value =
    if same_word (codes "country") (bytes_of memory key) then flag_text memory value else ok []

unfoldable pub separator : List Token → Bytes
separator [] = []
separator (_ ∷ _) = codes ", "

-- The loop over the tokens behind the first: a key without a value behind it reads a token that was never written.
unfoldable pub add_fields : Bytes → List Token → Bytes → Run Bytes
unfolding strncat heading value_text extras separator
add_fields memory [] url = ok url
add_fields memory (key ∷ []) url = fault
add_fields memory (key ∷ value ∷ rest) url = do
  url₁ ← strncat url (heading (bytes_of memory key))
  url₂ ← strncat url₁ (value_text memory value)
  more ← extras memory key value
  url₃ ← strncat url₂ more
  url₄ ← strncat url₃ (separator rest)
  add_fields memory rest url₄

unfoldable pub geoip_tokens : Bytes → Bytes → Parsed → Run (List CoreCall)
geoip_tokens where_ memory invalid = ok []
geoip_tokens where_ memory (tokens []) = ok []
geoip_tokens where_ memory (tokens (t ∷ rest)) = elim t.is_object [
  | false ↦ ok []
  | true ↦ do url ← add_fields memory rest []; ok (msg where_ url ∷ [])
]

unfoldable pub geoip_answer : (Bytes → Parsed) → Bytes → Option Buffer → Run (List CoreCall)
geoip_answer parse where_ none = ok (msg where_ (codes "Error fetching IP information.") ∷ [])
geoip_answer parse where_ (some chunk) =
    geoip_tokens where_ chunk.memory (parse (take chunk.size chunk.memory))

unfoldable pub geoip_url : Bytes → Bytes → Bytes
geoip_url ip api_key =
    take 511 (codes "http://ipinfo.io/" ++ (ip ++ (codes "/json?token=" ++ api_key)))

module _ (resolve : Family → Bytes → Option Bytes) (parse : Bytes → Parsed) (web : Bytes → Transfer)
    (start : Option ℕ) where
  unfoldable pub handle_geoip : Bytes → Caller → Bytes → Bytes → Run (List CoreCall)
  handle_geoip api_key who where_ args =
      elim (resolve (select_family args).0 (select_family args).1) [
        | none ↦ ok (msgva where_ (who.sender.nick ++ codes ": Please specify a valid IP.") ∷ [])
        | some ip ↦ geoip_answer parse where_ (send_http_request start (web (geoip_url ip api_key)))
      ]
