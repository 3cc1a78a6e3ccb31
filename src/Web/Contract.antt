-- ===== src/Web/Contract.antt =====
-- What a request brings, in whatever parts it comes, and the answer of src/modules/bot_urban.c to it.
use minervabot.Prelude.{
  ℕ, zero, suc, ◌+◌, ◌≤◌, ◌<◌, ◌≡◌, refl, sym, ap, ◌∙◌, Bool, true, false, Option, none, some, List,
  [], ◌∷◌, ◌++◌, arith, ltb, ◌==◌, length, length-append, length-take, length-set, set, take, drop,
}
use mathlib.Core.List.{append-nil, append_assoc}
use minervabot.Run.{ok, ◌>>=◌}
use minervabot.CString.{Bytes, codes, terminated}
use minervabot.CString.Laws.{write-set}
use minervabot.Bot.{msgva}
use minervabot.Web.{Buffer, buffer_append, Transfer, transfer, send_http_request, n_max}
use minervabot.Web.Json.{JsonPart, AreParts, json_text, shown}
use minervabot.Web.Writes.{copy-fits}
use minervabot.Web.Escapes.{unescape-shown, closing}
use minervabot.Web.Bots.{
  print_url, urban_url, urban_answer, handle_urban, Translation, google_url, google_answer,
  select_langs, handle_google,
}

-- the parts one after the other
abbrev pub joined : List (Bytes × Bool) → Bytes
joined [] = []
joined ((contents, realloc_ok) ∷ parts) = contents ++ joined parts

abbrev pub AllTaken : List (Bytes × Bool) → Type 0
AllTaken [] = Unit
AllTaken ((contents, realloc_ok) ∷ parts) = (realloc_ok ≡ true) × AllTaken parts

same_number : (n : ℕ) → (n == n) ≡ true
same_number n = ground arith

not_short : (a b : ℕ) → b ≤ a → ltb a b ≡ false
not_short a b le = ground arith

pub take-all : (text rest : Bytes) → take (length text) (text ++ rest) ≡ text
take-all [] rest = refl
take-all (c ∷ text) rest = ap (λ l. c ∷ l) (take-all text rest)

-- a buffer that holds a text
abbrev pub holding : Bytes → Buffer
holding text = record { memory = text ++ 0 ∷ []; size = length text }

buffer_append-holding :
    (mem : Buffer) (text contents : Bytes)
    → take mem.size mem.memory ≡ text
    → mem.size ≡ length text
    → buffer_append true mem contents ≡ (holding (text ++ contents), length contents)
unfolding buffer_append
buffer_append-holding mem text contents at size =
    ap
      (λ (m : Bytes). (
        record { memory = m ++ (contents ++ 0 ∷ []); size = mem.size + length contents },
        length contents,
      ))
      at
    ∙ ap
        (λ (m : Bytes). (record { memory = m; size = mem.size + length contents }, length contents))
        (sym (append_assoc text contents (0 ∷ [])))
    ∙ ap (λ n. (record { memory = (text ++ contents) ++ 0 ∷ []; size = n }, length contents))
        (omega (arith, size, length-append text contents))

transfer-cons :
    (mem : Buffer) (text contents : Bytes) (parts : List (Bytes × Bool)) (completes : Bool)
    → take mem.size mem.memory ≡ text
    → mem.size ≡ length text
    → transfer mem ((contents, true) ∷ parts) completes
      ≡ transfer (holding (text ++ contents)) parts completes
unfolding transfer buffer_append
transfer-cons mem text contents parts completes at size = rw (same_number (length contents)) (
    ap (λ (p : Buffer × ℕ). transfer p.0 parts completes)
      (buffer_append-holding mem text contents at size))

transfer-holding :
    (parts : List (Bytes × Bool)) (text : Bytes)
    → AllTaken parts
    → transfer (holding text) parts true ≡ some (holding (text ++ joined parts))
unfolding transfer
transfer-holding [] text taken = rw (append-nil text) refl
transfer-holding ((contents, realloc_ok) ∷ parts) text (given, taken) = rw given (
    transfer-cons (holding text) text contents parts true (take-all text (0 ∷ [])) refl
    ∙ transfer-holding parts (text ++ contents) taken
    ∙ ap (λ l. some (holding l)) (append_assoc text contents (joined parts)))

-- Where memory is given and the transfer ends well, the buffer holds all parts one after the other with a null
-- behind them, and the number of their bytes.
pub send_http_request-joined :
    (start : Option ℕ) (contents : Bytes) (parts : List (Bytes × Bool))
    → AllTaken parts
    → send_http_request start (record { parts = (contents, true) ∷ parts; completes = true })
      ≡ some (holding (contents ++ joined parts))
unfolding send_http_request
send_http_request-joined none contents parts taken =
    transfer-cons _ [] contents parts true refl refl ∙ transfer-holding parts contents taken
send_http_request-joined (some start) contents parts taken =
    transfer-cons _ [] contents parts true refl refl ∙ transfer-holding parts contents taken

print_url-length :
    (url text : Bytes)
    → length text < length url
    → (url' : Bytes) × (print_url url text ≡ ok url') × (length url' ≡ length url)
unfolding print_url
print_url-length url text lt =
    let (tail, copied, size) =
      copy-fits (terminated text) url (omega (arith, length-append text (0 ∷ []))) in
    let filled : Bytes = terminated text ++ tail in
    let long : length filled ≡ length url = length-append (terminated text) tail ∙ size in
    (
      set filled 0 0,
      rw (copied, ◌>>=◌) (write-set filled 0 0 (omega (arith, long, lt))),
      length-set filled 0 0 ∙ long,
    )

drop_front : (n : ℕ) (front rest : Bytes) → length front ≡ n → drop n (front ++ rest) ≡ rest
drop_front zero [] rest e = refl
drop_front zero (c ∷ front) rest e = absurd (omega (arith, e))
drop_front (suc n) [] rest e = absurd (omega (arith, e))
drop_front (suc n) (c ∷ front) rest e = drop_front n front rest (omega (arith, e))

take-short : (n : ℕ) (text : Bytes) → length (take n text) ≤ n
take-short n text = omega (arith, length-take n text)

urban_url-short : (escape : Bytes → Bytes) (args : Bytes) → length (urban_url escape args) ≤ 511
unfolding urban_url
urban_url-short escape args =
    take-short 511 (codes "http://api.urbandictionary.com/v0/define?term=" ++ escape args)

-- what stands behind the first bytes of a buffer
behind_header :
    (n : ℕ) (header : Bytes) (s : List JsonPart) (more : Bytes)
    → length header ≡ n
    → drop n ((header ++ (json_text s ++ b'"' ∷ more)) ++ 0 ∷ [])
      ≡ json_text s ++ b'"' ∷ (more ++ 0 ∷ [])
behind_header n header s more front =
    ap (drop n) (append_assoc header _ (0 ∷ []))
    ∙ drop_front n header _ front
    ∙ append_assoc (json_text s) (b'"' ∷ more) (0 ∷ [])

langs_given :
    (a b c d : ℕ) (text : Bytes)
    → (a == b' ') ≡ false
    → (b == b' ') ≡ false
    → (c == b' ') ≡ false
    → (d == b' ') ≡ false
    → select_langs (a ∷ b ∷ b';' ∷ c ∷ d ∷ b' ' ∷ text)
      ≡ record { orig_lang = some (a ∷ b ∷ []); dest_lang = c ∷ d ∷ []; text = text }
unfolding select_langs
langs_given a b c d text na nb nc nd = rw (na, nb, nc, nd)

urban_answer-shown :
    (url where_ args header : Bytes) (s : List JsonPart) (more : Bytes)
    → length url ≡ 512
    → length header ≡ 24
    → AreParts s
    → urban_answer url where_ args (some (holding (header ++ (json_text s ++ b'"' ∷ more))))
      ≡ ok (msgva where_ (2 ∷ (args ++ 15 ∷ (codes ": " ++ shown n_max s))) ∷ [])
unfolding urban_answer
urban_answer-shown url where_ args header s more size front clean =
    let (url', loop, text) = unescape-shown s (more ++ 0 ∷ []) url clean (omega (arith, size)) in
    let long : ltb (length (header ++ (json_text s ++ b'"' ∷ more))) 25 ≡ false = not_short _ 25 (
      omega (
        arith,
        length-append header (json_text s ++ b'"' ∷ more),
        closing (json_text s) b'"' more,
        front,
      )) in
    rw long (rw (behind_header 24 header s more front, loop, ◌>>=◌) (rw (text, ◌>>=◌) refl))

-- Urban Dictionary answers with 24 bytes, a definition as a JSON string and its closing quotation mark, in whatever
-- parts, and memory is given: `handle_urban` shows the first 400 characters of the definition, or 401 where the last
-- two are an escape, with line feeds and tabs as spaces, without carriage returns, and with the escapes `\/`, `\b`,
-- `\f` and `\u` as they are written.
pub handle_urban-shown :
    (escape : Bytes → Bytes) (web : Bytes → Transfer) (start : Option ℕ)
    (url where_ args header contents : Bytes) (s : List JsonPart) (more : Bytes)
    (parts : List (Bytes × Bool))
    → length url ≡ 512
    → web (urban_url escape args) ≡ record { parts = (contents, true) ∷ parts; completes = true }
    → AllTaken parts
    → contents ++ joined parts ≡ header ++ (json_text s ++ b'"' ∷ more)
    → length header ≡ 24
    → AreParts s
    → handle_urban escape web start url where_ args
      ≡ ok (msgva where_ (2 ∷ (args ++ 15 ∷ (codes ": " ++ shown n_max s))) ∷ [])
unfolding handle_urban
handle_urban-shown escape web start url where_ args header contents s more parts size answer taken
      shape front clean =
    let (url', printed, size') =
      print_url-length url (urban_url escape args)
        (omega (arith, size, urban_url-short escape args)) in
    rw (printed, ◌>>=◌)
      (rw (answer, send_http_request-joined start contents parts taken, shape)
        (urban_answer-shown url' where_ args header s more (size' ∙ size) front clean))

google_url-short :
    (escape : Bytes → Bytes) (request : Translation) → length (google_url escape request) ≤ 1023
unfolding google_url
google_url-short escape request = take-short 1023 (
    codes "https://translate.googleapis.com/translate_a/single?client=gtx&sl="
    ++ ((elim request.orig_lang [ none ↦ codes "auto" | some orig ↦ orig ])
        ++ (codes "&tl=" ++ (request.dest_lang ++ (codes "&dt=t&q=" ++ escape request.text)))))

google_answer-shown :
    (url where_ orig dest text header : Bytes) (s : List JsonPart) (more : Bytes)
    → length url ≡ 1024
    → length header ≡ 4
    → 30 ≤ length (header ++ (json_text s ++ b'"' ∷ more))
    → AreParts s
    → google_answer url where_
        (record { orig_lang = some orig; dest_lang = dest; text = text })
        (some (holding (header ++ (json_text s ++ b'"' ∷ more))))
      ≡ ok (msgva where_ (orig ++ (codes " to " ++ (dest ++ (codes ": " ++ shown n_max s)))) ∷ [])
unfolding google_answer
google_answer-shown url where_ orig dest text header s more size front enough clean =
    let (url', loop, shows) = unescape-shown s (more ++ 0 ∷ []) url clean (omega (arith, size)) in
    let long : ltb (length (header ++ (json_text s ++ b'"' ∷ more))) 30 ≡ false =
      not_short _ 30 enough in
    rw long (rw (behind_header 4 header s more front, loop, ◌>>=◌) (rw (shows, ◌>>=◌) refl))

-- `xx;yy text` asks for a translation from xx to yy: where Google answers with 4 bytes and the translation as a JSON
-- string, 30 bytes or more in whatever parts, and memory is given, `handle_google` names both languages and shows
-- the first 400 characters of the translation, or 401 where the last two are an escape, with line feeds and tabs as
-- spaces, without carriage returns, and with the escapes `\/`, `\b`, `\f` and `\u` as they are written.
pub handle_google-shown :
    (escape : Bytes → Bytes) (web : Bytes → Transfer) (start : Option ℕ) (a b c d : ℕ)
    (url where_ text header contents : Bytes) (s : List JsonPart) (more : Bytes)
    (parts : List (Bytes × Bool))
    → (a == b' ') ≡ false
    → (b == b' ') ≡ false
    → (c == b' ') ≡ false
    → (d == b' ') ≡ false
    → length url ≡ 1024
    → web (
        google_url escape
          (record { orig_lang = some (a ∷ b ∷ []); dest_lang = c ∷ d ∷ []; text = text }))
      ≡ record { parts = (contents, true) ∷ parts; completes = true }
    → AllTaken parts
    → contents ++ joined parts ≡ header ++ (json_text s ++ b'"' ∷ more)
    → length header ≡ 4
    → 30 ≤ length (contents ++ joined parts)
    → AreParts s
    → handle_google escape web start url where_ (a ∷ b ∷ b';' ∷ c ∷ d ∷ b' ' ∷ text)
      ≡ ok (msgva where_ (a ∷ b ∷ (codes " to " ++ (c ∷ d ∷ (codes ": " ++ shown n_max s)))) ∷ [])
unfolding handle_google
handle_google-shown escape web start a b c d url where_ text header contents s more parts na nb nc
      nd size answer taken shape front enough clean =
    let request : Translation = record {
      orig_lang = some (a ∷ b ∷ []);
      dest_lang = c ∷ d ∷ [];
      text = text;
    } in
    let (url', printed, size') =
      print_url-length url (google_url escape request)
        (omega (arith, size, google_url-short escape request)) in
    rw (langs_given a b c d text na nb nc nd) (
      rw (printed, ◌>>=◌)
        (rw (answer, send_http_request-joined start contents parts taken, shape)
          (google_answer-shown url' where_ (a ∷ b ∷ []) (c ∷ d ∷ []) text header s more
            (size' ∙ size) front (rw shape at enough) clean)))
