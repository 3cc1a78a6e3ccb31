-- ===== src/Web.antt =====
-- src/modules/mod_common.c, and what src/modules/bot_urban.c and src/modules/bot_google.c share: the loop that
-- reads a JSON string. What libcurl does is an argument.
pub mod Bots
pub mod Geoip
pub mod Fields
pub mod Answer
pub mod Geolocation
pub mod Json
pub mod Writes
pub mod Escapes
pub mod Contract
use minervabot.Prelude.{
  ℕ, zero, suc, ◌+◌, Bool, true, false, ◌||◌, not, Option, none, some, List, [], ◌∷◌, ◌++◌, ltb,
  ◌==◌, if◌then◌else◌, length, take,
}
use minervabot.Run.{Run, ok, fault, ◌>>=◌}
use minervabot.CString.{Bytes, copy, write}

-- `struct buffer`
pub record Buffer : Type 0 where
  pub memory : Bytes
  pub size : ℕ

-- the callback of libcurl: what it leaves in the buffer, and the number that it returns
unfoldable pub buffer_append : Bool → Buffer → Bytes → Buffer × ℕ
buffer_append false mem contents = (mem, 0)
buffer_append true mem contents = (
  record {
    memory = take mem.size mem.memory ++ (contents ++ 0 ∷ []);
    size = mem.size + length contents;
  },
  length contents,
)

-- What `curl_easy_perform` brings: the parts in the order in which the callback gets them, each with whether
-- `realloc` succeeds for it, and whether the transfer ends well where the callback has taken all of them.
pub record Transfer : Type 0 where
  pub parts : List (Bytes × Bool)
  pub completes : Bool

-- libcurl ends the transfer with an error where the callback returns another number than it was given
unfoldable pub transfer : Buffer → List (Bytes × Bool) → Bool → Option Buffer
unfolding buffer_append
transfer buf [] completes = if completes then some buf else none
transfer buf ((contents, realloc_ok) ∷ parts) completes =
    let rest = transfer (buffer_append realloc_ok buf contents).0 parts completes in
    if (buffer_append realloc_ok buf contents).1 == length contents then rest else none

-- The buffer is freed where the result is not CURLE_OK. `start` is what `malloc(1)` gives: a byte of any value,
-- or null.
unfoldable pub send_http_request : Option ℕ → Transfer → Option Buffer
send_http_request none t = transfer (record { memory = []; size = 0 }) t.parts t.completes
send_http_request (some start) t =
    transfer (record { memory = start ∷ []; size = 0 }) t.parts t.completes

-- `memcpy(url + n, src, …)` for the whole of `src`
unfoldable pub copy_at : Bytes → ℕ → Bytes → Run Bytes
copy_at url zero src = copy url src
copy_at [] (suc n) src = fault
copy_at (x ∷ url) (suc n) src = do url' ← copy_at url n src; ok (x ∷ url')

-- `N_MAX`
abbrev pub n_max : ℕ
n_max = 400

-- `memcpy`, and a byte and a null behind it
unfoldable pub put_char : Bytes → ℕ → Bytes → ℕ → Run Bytes
put_char url n run c = do
  url₁ ← copy_at url n run
  url₂ ← write url₁ (n + length run) c
  write url₂ (n + length run + 1) 0

-- `memcpy`, and a null behind it
unfoldable pub put_end : Bytes → ℕ → Bytes → Run Bytes
put_end url n run = do url₁ ← copy_at url n run; write url₁ (n + length run) 0

unfoldable pub is_end : ℕ → ℕ → Bool
is_end c copied = c == 0 || (c == b'"' || not (ltb copied n_max))

-- what the byte behind a backslash puts into the text
pub data Escape : Type 0 where
  puts : ℕ → Escape
  nothing : Escape
  stays : Escape

unfoldable pub escape_of : ℕ → Escape
escape_of c =
    if c == b'\\' || c == b'"'
    then puts c
    else if c == b'r'
    then nothing
    else if c == b'n' || c == b't'
    then puts b' '
    else stays

-- The loop over the definition: `memory` is what stands from `curl_buf` on, `run` what stands from `last_idx` to
-- `curl_buf`. A backslash at the end of the text steps over its null.
unfoldable pub unescape : Bytes → Bytes → Bytes → ℕ → Run Bytes
unfolding is_end put_char put_end escape_of
unescape [] run url n = fault
unescape (c ∷ []) run url n = elim (is_end c (length run + n)) [
  | true ↦ put_end url n run
  | false ↦ fault
]
unescape (c ∷ d ∷ memory) run url n = elim (is_end c (length run + n)) [
  | true ↦ put_end url n run
  | false ↦ elim (c == b'\\') [
    | false ↦ unescape (d ∷ memory) (run ++ c ∷ []) url n
    | true ↦ elim (escape_of d) [
      | stays ↦ unescape memory (run ++ c ∷ d ∷ []) url n
      | nothing ↦ do url' ← put_end url n run; unescape memory [] url' (n + length run)
      | puts x ↦ do url' ← put_char url n run x; unescape memory [] url' (n + length run + 1)
    ]
  ]
]
