-- ===== src/Tests/Pages.antt =====
-- The theorems on src/modules/bot_urban.c, bot_google.c and bot_geoip.c at concrete answers of the servers.
use minervabot.Prelude.{
  ℕ, ◌≡◌, refl, true, false, Option, none, some, List, [], ◌∷◌, ◌++◌, arith, replicate, ltb, length,
  if◌then◌else◌, pos,
}
use minervabot.Run.{ok, fault}
use minervabot.CString.{Bytes, codes, split_at}
use minervabot.Bot.{msg, msgva, Caller}
use minervabot.Web.{Transfer, n_max}
use minervabot.Web.Json.{JsonPart, char, kept, json_char, json_text, shown}
use minervabot.Web.Contract.{handle_urban-shown, handle_google-shown}
use minervabot.Web.Bots.{handle_urban, handle_google}
use minervabot.Web.Geoip.{
  Family, unspec, inet, inet6, select_family, has_char, Token, Parsed, tokens, bytes_of,
  handle_geoip,
}
use minervabot.Web.Answer.{ip, country, line}
use minervabot.Web.Geolocation.{handle_geoip-line}

abbrev chars : Bytes → List JsonPart
chars [] = []
chars (c ∷ s) = char c ∷ chars s

-- a "tea" and/or
abbrev tea : List JsonPart
tea = chars (codes "a \"tea\" and") ++ (kept b'/' ∷ chars (codes "or"))

abbrev head : Bytes
head = codes "{\"list\":[{\"definition\":\""

-- the answer in two parts
abbrev pages : Bytes → Transfer
pages url = record {
  parts = (head, true) ∷ (json_text tea ++ b'"' ∷ codes "}]}", true) ∷ [];
  completes = true;
}

handle_urban-shown_example :
    handle_urban (λ s. s) pages (some 7) (replicate 512 0) (codes "#c") (codes "cuppa")
    ≡ ok (msgva (codes "#c") (2 ∷ (codes "cuppa" ++ 15 ∷ (codes ": " ++ shown n_max tea))) ∷ [])
unfolding json_char
handle_urban-shown_example =
    handle_urban-shown (λ s. s) pages (some 7) (replicate 512 0) (codes "#c") (codes "cuppa") head
      head tea (codes "}]}") ((json_text tea ++ b'"' ∷ codes "}]}", true) ∷ []) refl refl (refl, tt)
      refl refl (ground arith)

abbrev translation : Bytes → Transfer
translation url = record {
  parts =
      (codes "[[[\"" ++ json_text tea, true)
      ∷ (b'"' ∷ codes ",\"the\",null]],null,\"de\"]", true)
      ∷ [];
  completes = true;
}

handle_google-shown_example :
    handle_google
      (λ s. s)
      translation
      none
      (replicate 1024 0)
      (codes "#c")
      (b'd' ∷ b'e' ∷ b';' ∷ b'e' ∷ b'n' ∷ b' ' ∷ codes "Tee")
    ≡ ok (
        msgva
          (codes "#c")
          (b'd' ∷ b'e' ∷ (codes " to " ++ (b'e' ∷ b'n' ∷ (codes ": " ++ shown n_max tea))))
        ∷ [])
unfolding json_char
handle_google-shown_example =
    handle_google-shown (λ s. s) translation none b'd' b'e' b'e' b'n' (replicate 1024 0)
      (codes "#c") (codes "Tee") (codes "[[[\"") (codes "[[[\"" ++ json_text tea) tea
      (codes ",\"the\",null]],null,\"de\"]")
      ((b'"' ∷ codes ",\"the\",null]],null,\"de\"]", true) ∷ []) refl refl refl refl refl refl
      (refl, tt) refl refl (omega arith) (ground arith)

abbrev location : Bytes → Transfer
location url = record {
  parts = (codes "{\"ip\":\"8.8.8.8\",", true) ∷ (codes "\"country\":\"US\"}", true) ∷ [];
  completes = true;
}

abbrev token : ℕ → ℕ → Token
token a b = record { from = a; stop = b; is_object = false }

abbrev pairs : List Token
pairs = token 2 4 ∷ token 7 14 ∷ token 17 24 ∷ token 27 29 ∷ []

abbrev asker : Caller
asker = record {
  sender = record { nick = codes "ann"; ident = none; host = none };
  permission_level = pos 0;
}

abbrev resolve : Family → Bytes → Option Bytes
resolve inet host = some (codes "8.8.8.8")
resolve unspec host = none
resolve inet6 host = none

abbrev parse : Bytes → Parsed
parse text = tokens (record { from = 0; stop = 30; is_object = true } ∷ pairs)

handle_geoip-line_example :
    handle_geoip resolve parse location
      (some 7)
      (codes "key")
      asker
      (codes "#c")
      (codes "dns.example -4")
    ≡ (if ltb (length (line (ip (codes "8.8.8.8") ∷ country b'U' b'S' ∷ []))) 512
        then ok (msg (codes "#c") (line (ip (codes "8.8.8.8") ∷ country b'U' b'S' ∷ [])) ∷ [])
        else fault)
unfolding bytes_of select_family has_char split_at
handle_geoip-line_example =
    handle_geoip-line resolve parse location (some 7) (codes "key") (codes "#c")
      (codes "dns.example -4") (codes "8.8.8.8") (codes "{\"ip\":\"8.8.8.8\",") asker
      ((codes "\"country\":\"US\"}", true) ∷ []) (record { from = 0; stop = 30; is_object = true })
      (token 2 4) (token 7 14) (token 17 24 ∷ token 27 29 ∷ []) (ip (codes "8.8.8.8"))
      (country b'U' b'S' ∷ []) refl refl (refl, tt) refl refl
      (
        record { ends = refl; bytes = refl },
        record { ends = refl; bytes = refl },
        ground arith,
        (
          record { ends = refl; bytes = refl },
          record { ends = refl; bytes = refl },
          (omega arith, omega arith, omega arith, omega arith),
          tt,
        ),
      )
