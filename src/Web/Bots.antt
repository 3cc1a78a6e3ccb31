-- ===== src/Web/Bots.antt =====
-- src/modules/bot_urban.c, bot_google.c and bot_wolfram.c, and what src/modules/bot_cryptocurrency.c asks for.
-- `escape` is `curl_easy_escape`, `web` what a request of an address brings, and `url` what the local buffer holds
-- at first.
use minervabot.Prelude.{
  ℕ, zero, suc, ◌+◌, ◌-◌, Bool, true, false, ◌&&◌, not, Option, none, some, List, [], ◌∷◌, ◌++◌,
  ltb, ◌==◌, if◌then◌else◌, take, drop, ℤ, negsuc,
}
use minervabot.Run.{Run, ok, fault, deref, ◌>>=◌}
use minervabot.CString.{Bytes, codes, copy, read, write, string, split_at, terminated, equal}
use minervabot.Commands.{CommandTree}
use minervabot.Bot.{CoreCall, msg, msgva, Caller}
use minervabot.Bot.Setup.{register_all}
use minervabot.Web.{Buffer, Transfer, send_http_request, unescape}

-- `snprintf(url, size, …)`, and then `url[0] = '\0'`
unfoldable pub print_url : Bytes → Bytes → Run Bytes
print_url url text = do url' ← copy url (terminated text); write url' 0 0

-- the address that `handle_cmd` of src/modules/bot_urban.c asks
unfoldable pub urban_url : (Bytes → Bytes) → Bytes → Bytes
urban_url escape args =
    take 511 (codes "http://api.urbandictionary.com/v0/define?term=" ++ escape args)

-- the answer: the definition begins 24 bytes into what was brought
unfoldable pub urban_answer : Bytes → Bytes → Bytes → Option Buffer → Run (List CoreCall)
urban_answer url where_ args none =
    ok (msg where_ (codes "Error calling Urban Dictionary API.") ∷ [])
urban_answer url where_ args (some buf) =
    if ltb buf.size 25 then ok (msgva where_ (codes "No definition found.") ∷ []) else (do
      url' ← unescape (drop 24 buf.memory) [] url 0
      text ← string url'
      ok (msgva where_ (2 ∷ (args ++ 15 ∷ (codes ": " ++ text))) ∷ []))

-- the address that `wa_handle_cmd` of src/modules/bot_wolfram.c asks
unfoldable pub wolfram_url : (Bytes → Bytes) → Bytes → Bytes → Bytes
wolfram_url escape api_key args = take 767 (
    codes "https://api.wolframalpha.com/v1/result?i="
    ++ (escape args ++ (codes "&appid=" ++ api_key)))

module _ (escape : Bytes → Bytes) (web : Bytes → Transfer) (start : Option ℕ) where
  -- `handle_cmd` of src/modules/bot_urban.c
  unfoldable pub handle_urban : Bytes → Bytes → Bytes → Run (List CoreCall)
  handle_urban url where_ args = do
    url' ← print_url url (urban_url escape args)
    urban_answer url' where_ args (send_http_request start (web (urban_url escape args)))

  -- `wa_handle_cmd` of src/modules/bot_wolfram.c
  unfoldable pub handle_wolfram : Bytes → Caller → Bytes → Bytes → Run (List CoreCall)
  handle_wolfram api_key who where_ args =
      elim (send_http_request start (web (wolfram_url escape api_key args))) [
        | none ↦ ok (msg where_ (codes "Error calling WolframAlpha API.") ∷ [])
        | some buf ↦ do
          text ← string buf.memory
          ok (msgva where_ (who.sender.nick ++ (codes ": " ++ text)) ∷ [])
      ]

-- The languages of `handle_cmd` of src/modules/bot_google.c, and the text that is left; `none` is `gdansk`, to have the
-- language found out.
pub record Translation : Type 0 where
  pub orig_lang : Option Bytes
  pub dest_lang : Bytes
  pub text : Bytes

-- what stands behind `xx;`, where the arguments begin so
unfoldable pub two_langs : Bytes → Bytes → Bytes → Translation
two_langs args orig (c ∷ d ∷ b ∷ text) =
    if not (c == b' ') && (not (d == b' ') && b == b' ')
    then record { orig_lang = some orig; dest_lang = c ∷ d ∷ []; text = text }
    else record { orig_lang = none; dest_lang = codes "en"; text = args }
two_langs args orig _ = record { orig_lang = none; dest_lang = codes "en"; text = args }

unfoldable pub select_langs : Bytes → Translation
unfolding two_langs
select_langs (x ∷ y ∷ z ∷ rest) =
    if not (x == b' ') && not (y == b' ')
    then (if z == b' '
        then record { orig_lang = none; dest_lang = x ∷ y ∷ []; text = rest }
        else (if z == b';'
            then two_langs (x ∷ y ∷ z ∷ rest) (x ∷ y ∷ []) rest
            else record { orig_lang = none; dest_lang = codes "en"; text = x ∷ y ∷ z ∷ rest }))
    else record { orig_lang = none; dest_lang = codes "en"; text = x ∷ y ∷ z ∷ rest }
select_langs args = record { orig_lang = none; dest_lang = codes "en"; text = args }

-- `while (*orig_lang != '[' && orig_lang > chunk.memory) orig_lang--;`, from index `k`
unfoldable pub bracket_before : Bytes → ℕ → Run ℕ
bracket_before memory zero = do c ← read memory 0; ok 0
bracket_before memory (suc k) = do
  c ← read memory (suc k)
  elim (c == b'[') [ true ↦ ok (suc k) | false ↦ bracket_before memory k ]

-- the language that the answer names: from two bytes behind the last bracket up to a quotation mark
unfoldable pub found_lang : Buffer → Run Bytes
found_lang chunk = do
  k ← bracket_before chunk.memory (chunk.size - 1)
  rest ← string (drop (k + 2) chunk.memory)
  (lang, behind) ← deref (split_at b'"' rest)
  ok lang

unfoldable pub google_url : (Bytes → Bytes) → Translation → Bytes
google_url escape request = take 1023 (
    codes "https://translate.googleapis.com/translate_a/single?client=gtx&sl="
    ++ ((elim request.orig_lang [ none ↦ codes "auto" | some orig ↦ orig ])
        ++ (codes "&tl=" ++ (request.dest_lang ++ (codes "&dt=t&q=" ++ escape request.text)))))

unfoldable pub google_answer : Bytes → Bytes → Translation → Option Buffer → Run (List CoreCall)
google_answer url where_ request none = ok (msg where_ (codes "Error fetching translation.") ∷ [])
google_answer url where_ request (some chunk) =
    if ltb chunk.size 30 then ok (msgva where_ (codes "Translation failed.") ∷ []) else (do
      url' ← unescape (drop 4 chunk.memory) [] url 0
      orig ← elim request.orig_lang [ none ↦ found_lang chunk | some orig ↦ ok orig ]
      text ← string url'
      ok (
          msgva where_ (orig ++ (codes " to " ++ (request.dest_lang ++ (codes ": " ++ text))))
          ∷ []))

module _ (escape : Bytes → Bytes) (web : Bytes → Transfer) (start : Option ℕ) where
  -- `handle_cmd` of src/modules/bot_google.c
  unfoldable pub handle_google : Bytes → Bytes → Bytes → Run (List CoreCall)
  handle_google url where_ [] = ok []
  handle_google url where_ (c ∷ args) = do
    let request = select_langs (c ∷ args)
    url' ← print_url url (google_url escape request)
    google_answer url' where_ request (send_http_request start (web (google_url escape request)))

-- `char` is signed: a byte above 127 is below `'Z'`
unfoldable pub upcase : ℕ → ℕ
upcase c = if ltb b'Z' c && ltb c 128 then c - 32 else c

-- The symbol of `handle_cmd` of src/modules/bot_cryptocurrency.c: four bytes are read of the name of the command.
unfoldable pub symbol_of : Bytes → Run Bytes
unfolding upcase
symbol_of (x ∷ y ∷ z ∷ rest) = string (upcase x ∷ upcase y ∷ upcase z ∷ 0 ∷ [])
symbol_of cmdname = fault

unfoldable pub price_url : Bytes → Bytes
price_url sym =
    codes "https://min-api.cryptocompare.com/data/price?fsym="
    ++ (sym ++ codes "&tsyms=BTC,ETH,XMR,USD,CAD")

-- the address to ask; without one, an uninitialised pointer is read
unfoldable pub crypto_url : Bytes → Run Bytes
unfolding price_url
crypto_url sym =
    if equal sym (codes "BTC")
    then ok (price_url sym)
    else if equal sym (codes "ETH")
    then ok (price_url sym)
    else if equal sym (codes "XMR")
    then ok (price_url sym)
    else if equal sym (codes "USD")
    then ok (price_url sym)
    else if equal sym (codes "CAD")
    then ok (price_url sym)
    else fault

module _ {H : Type 0} where
  unfoldable pub google_commands : H → List (Bytes × H)
  google_commands handle_cmd = (codes "trans", handle_cmd) ∷ (codes "tr", handle_cmd) ∷ []

  unfoldable pub wolfram_commands : H → List (Bytes × H)
  wolfram_commands handle_cmd =
      (codes "wolframalpha", handle_cmd)
      ∷ (codes "wa", handle_cmd)
      ∷ (codes "wolf", handle_cmd)
      ∷ []

  unfoldable pub geoip_commands : H → List (Bytes × H)
  geoip_commands handle_cmd =
      (codes "geoip", handle_cmd) ∷ (codes "ip", handle_cmd) ∷ (codes "host", handle_cmd) ∷ []

  -- `module_init` of src/modules/bot_wolfram.c and bot_geoip.c: without a key nothing is registered
  unfoldable pub init_with_key :
      Option Bytes → (ℕ → ℕ → Bool) → CommandTree H → List (Bytes × H) → Run (CommandTree H × ℤ)
  init_with_key none calloc_ok cmds commands = ok (cmds, negsuc 0)
  init_with_key (some api_key) calloc_ok cmds commands = register_all calloc_ok cmds commands
