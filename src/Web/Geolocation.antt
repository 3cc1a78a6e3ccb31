-- ===== src/Web/Geolocation.antt =====
-- The answer of src/modules/bot_geoip.c to the fields that ipinfo.io names.
use minervabot.Prelude.{
  ℕ, zero, suc, ◌+◌, ◌-◌, ◌≤◌, ◌≡◌, refl, ap, ◌∙◌, Bool, true, false, Option, some, List, [], ◌∷◌,
  ◌++◌, arith, ltb, ◌==◌, length, take, drop, ◌%◌, if◌then◌else◌,
}
use mathlib.Core.List.{append-nil}
use minervabot.Run.{Run, ok, fault, deadlock, ◌>>=◌}
use minervabot.CString.{Bytes, codes, equal, read, until_null}
use minervabot.Irc.Sender.{Lacks}
use minervabot.Irc.Privmsg.{until_null-end}
use minervabot.Web.Geoip.{
  Token, strncat, bytes_of, same_word, capital, titled, heading, value_text, flag_text, extras,
  separator, add_fields, Family, select_family, Parsed, tokens, geoip_tokens, geoip_answer,
  geoip_url, handle_geoip,
}
use minervabot.Bot.{msg, Caller}
use minervabot.Web.{Transfer}
use minervabot.Web.Contract.{joined, AllTaken, take-all, send_http_request-joined}
use minervabot.Web.Fields.{one_field, strncat-append}
use minervabot.Web.Answer.{
  Field, region, country, city, loc, org, ip, other, key_of, value_of, named, title_of, indicator,
  flag_of, text_of, line, Plain, Stands, Describe,
}

heading-title_of : (f : Field) → Plain f → heading (key_of f) ≡ title_of f
unfolding heading same_word titled capital until_null equal
heading-title_of (region v) plain = refl
heading-title_of (country c d) plain = refl
heading-title_of (city v) plain = refl
heading-title_of (loc v) plain = refl
heading-title_of (org v) plain = refl
heading-title_of (ip v) plain = refl
heading-title_of (other [] v) plain = absurd plain
heading-title_of (other (c ∷ k) v)
      (_, null, low, high, region_no, country_no, city_no, loc_no, org_no, ip_no) =
    rw (region_no, country_no, city_no, loc_no, org_no, ip_no)
      (ap titled (
        until_null-end ((c + 224) % 256 ∷ k) (is_letter, null)
        ∙ ap (λ x. x ∷ k) (small c low high)))
  where
    small : (c : ℕ) → 97 ≤ c → c ≤ 122 → (c + 224) % 256 ≡ c - 32
    small c low high = omega arith

    is_letter : ((c + 224) % 256 == 0) ≡ false
    is_letter = ap (λ x. x == 0) (small c low high) ∙ positive c low
      where
        positive : (c : ℕ) → 97 ≤ c → (c - 32 == 0) ≡ false
        positive c low = ground arith

value-Lacks : (f : Field) → Plain f → Lacks 0 (value_of f)
value-Lacks (region v) plain = plain
value-Lacks (country c d) (a, b, e, g) = (ground arith, (ground arith, tt))
value-Lacks (city v) plain = plain
value-Lacks (loc v) plain = plain
value-Lacks (org v) plain = plain
value-Lacks (ip v) plain = plain
value-Lacks (other [] v) plain = absurd plain
value-Lacks (other (c ∷ k) v) plain = plain.0

value_text-named :
    (memory : Bytes) (t : Token) (v : Bytes)
    → Lacks 0 v
    → Stands memory t v
    → value_text memory t ≡ named v
unfolding value_text
value_text-named memory t [] null at = rw (same_end t.stop t.from at.ends) refl
  where
    same_end : (a b : ℕ) → a ≡ b + 0 → (a == b) ≡ true
    same_end a b e = ground arith
value_text-named memory t (c ∷ v) null at =
    rw (later_end t.stop t.from (length v) at.ends)
      (ap until_null at.bytes ∙ until_null-end (c ∷ v) null)
  where
    later_end : (a b n : ℕ) → a ≡ b + suc n → (a == b) ≡ false
    later_end a b n e = ground arith

read_first :
    (memory : Bytes) (s n c d : ℕ)
    → take n (drop s memory) ≡ c ∷ d ∷ []
    → (read memory s ≡ ok c) × (read memory (suc s) ≡ ok d)
unfolding read
read_first [] zero zero c d e = cc
read_first [] zero (suc n) c d e = cc
read_first [] (suc s) zero c d e = cc
read_first [] (suc s) (suc n) c d e = cc
read_first (x ∷ memory) (suc s) n c d e = read_first memory s n c d e
read_first (x ∷ memory) zero zero c d e = cc
read_first (x ∷ []) zero (suc zero) c d e = cc
read_first (x ∷ []) zero (suc (suc n)) c d e = cc
read_first (x ∷ y ∷ memory) zero (suc zero) c d e = cc
read_first (x ∷ y ∷ memory) zero (suc (suc n)) c d e = (cc, cc)

no_flag :
    (memory k : Bytes) (key value : Token)
    → Stands memory key k
    → same_word (codes "country") k ≡ false
    → extras memory key value ≡ ok []
unfolding extras
no_flag memory k key value at differs = rw (at.bytes, differs) refl

indicator_byte : (c : ℕ) → 65 ≤ c → c ≤ 90 → (c + 101) % 256 ≡ 166 + (c - 65)
indicator_byte c low high = omega arith

flag_text-indicators :
    (memory : Bytes) (t : Token) (c d : ℕ)
    → 65 ≤ c
    → c ≤ 90
    → 65 ≤ d
    → d ≤ 90
    → Stands memory t (c ∷ d ∷ [])
    → flag_text memory t ≡ ok (b' ' ∷ (indicator c ++ indicator d))
unfolding flag_text bytes_of
flag_text-indicators memory t c d c_low c_high d_low d_high at =
    let (first, second) = read_first memory t.from (t.stop - t.from) c d at.bytes in
    let after : t.from + 1 ≡ suc t.from = omega arith in
    rw (first, ◌>>=◌)
      (rw (ap (read memory) after ∙ second, ◌>>=◌)
        (rw (indicator_byte c c_low c_high, indicator_byte d d_low d_high)
          (ap ok (
            until_null-end (b' ' ∷ (indicator c ++ indicator d)) (
              refl,
              (refl, (refl, (refl, (not_zero c, (refl, (refl, (refl, (not_zero d, tt)))))))),
            )))))
  where
    not_zero : (c : ℕ) → (166 + (c - 65) == 0) ≡ false
    not_zero c = ground arith

extras-flag_of :
    (memory : Bytes) (key value : Token) (f : Field)
    → Plain f
    → Stands memory key (key_of f)
    → Stands memory value (value_of f)
    → extras memory key value ≡ ok (flag_of f)
unfolding extras same_word until_null equal
extras-flag_of memory key value (country c d) (a, b, e, g) at_key at_value =
    rw at_key.bytes (flag_text-indicators memory value c d a b e g at_value)
extras-flag_of memory key value (region v) plain at_key at_value =
    no_flag memory _ key value at_key refl
extras-flag_of memory key value (city v) plain at_key at_value =
    no_flag memory _ key value at_key refl
extras-flag_of memory key value (loc v) plain at_key at_value =
    no_flag memory _ key value at_key refl
extras-flag_of memory key value (org v) plain at_key at_value =
    no_flag memory _ key value at_key refl
extras-flag_of memory key value (ip v) plain at_key at_value =
    no_flag memory _ key value at_key refl
extras-flag_of memory key value (other [] v) plain at_key at_value = absurd plain
extras-flag_of memory key value (other (c ∷ k) v) (_, _, _, _, _, differs, _, _, _, _) at_key
      at_value =
    no_flag memory _ key value at_key differs

add_fields-line :
    (memory : Bytes) (t₁ t₂ : Token) (toks : List Token) (f : Field) (fields : List Field)
    (url : Bytes)
    → Describe memory (t₁ ∷ t₂ ∷ toks) (f ∷ fields)
    → add_fields memory (t₁ ∷ t₂ ∷ toks) url ≡ strncat url (line (f ∷ fields))
unfolding add_fields separator
add_fields-line memory key value [] f [] url (at_key, at_value, plain, rest) =
    one_field memory url (title_of f) (named (value_of f)) (flag_of f) key value []
      (ap heading at_key.bytes ∙ heading-title_of f plain)
      (value_text-named memory value (value_of f) (value-Lacks f plain) at_value)
      (extras-flag_of memory key value f plain at_key at_value)
    ∙ nothing_more (strncat url (text_of f ++ []))
    ∙ ap (strncat url) (append-nil (text_of f))
  where
    nothing_more : (m : Run Bytes) → m >>= add_fields memory [] ≡ m
    nothing_more (ok a) = refl
    nothing_more fault = refl
    nothing_more deadlock = refl
add_fields-line memory key value [] f (g ∷ fields) url (at_key, at_value, plain, rest) = absurd rest
add_fields-line memory key value (t ∷ []) f [] url (at_key, at_value, plain, rest) = absurd rest
add_fields-line memory key value (t ∷ []) f (g ∷ fields) url (at_key, at_value, plain, rest) =
    absurd rest
add_fields-line memory key value (t ∷ t' ∷ toks) f [] url (at_key, at_value, plain, rest) =
    absurd rest
add_fields-line memory key value (t ∷ t' ∷ toks) f (g ∷ fields) url
      (at_key, at_value, plain, rest) =
    one_field memory url (title_of f) (named (value_of f)) (flag_of f) key value (t ∷ t' ∷ toks)
      (ap heading at_key.bytes ∙ heading-title_of f plain)
      (value_text-named memory value (value_of f) (value-Lacks f plain) at_value)
      (extras-flag_of memory key value f plain at_key at_value)
    ∙ on_all (λ u. add_fields-line memory t t' toks g fields u rest)
        (strncat url (text_of f ++ codes ", "))
    ∙ strncat-append url (text_of f ++ codes ", ") (line (g ∷ fields))
  where
    on_all :
        ((u : Bytes) → add_fields memory (t ∷ t' ∷ toks) u ≡ strncat u (line (g ∷ fields)))
        → (m : Run Bytes)
        → m >>= add_fields memory (t ∷ t' ∷ toks) ≡ m >>= (λ u. strncat u (line (g ∷ fields)))
    on_all each (ok u) = each u
    on_all each fault = refl
    on_all each deadlock = refl

from_start :
    (where_ text : Bytes)
    → (do url ← strncat [] text; ok (msg where_ url ∷ []))
      ≡ (if ltb (length text) 512 then ok (msg where_ text ∷ []) else fault)
unfolding strncat
from_start where_ text =
    ap (λ n. (if ltb n 512 then ok text else fault) >>= (λ url. ok (msg where_ url ∷ [])))
      (zero_first (length text))
    ∙ by_test (ltb (length text) 512)
  where
    zero_first : (n : ℕ) → 0 + n ≡ n
    zero_first n = omega arith

    by_test :
        (fits : Bool)
        → (if fits then ok text else fault) >>= (λ url. ok (msg where_ url ∷ []))
          ≡ (if fits then ok (msg where_ text ∷ []) else fault)
    by_test true = refl
    by_test false = refl

-- ipinfo.io answers with an object of one field or more, in whatever parts, its tokens are keys and values in
-- turn, of plain text, the host has an address, and memory is given: `handle_geoip` shows every field in order,
-- under its title, where the line has at most 511 bytes, and writes behind its buffer where it has more.
pub handle_geoip-line :
    (resolve : Family → Bytes → Option Bytes) (parse : Bytes → Parsed) (web : Bytes → Transfer)
    (start : Option ℕ) (api_key where_ args address contents : Bytes) (who : Caller)
    (parts : List (Bytes × Bool)) (t key value : Token) (toks : List Token) (f : Field)
    (fields : List Field)
    → resolve (select_family args).0 (select_family args).1 ≡ some address
    → web (geoip_url address api_key)
      ≡ record { parts = (contents, true) ∷ parts; completes = true }
    → AllTaken parts
    → parse (contents ++ joined parts) ≡ tokens (t ∷ key ∷ value ∷ toks)
    → t.is_object ≡ true
    → Describe ((contents ++ joined parts) ++ 0 ∷ []) (key ∷ value ∷ toks) (f ∷ fields)
    → handle_geoip resolve parse web start api_key who where_ args ≡ (
        if ltb (length (line (f ∷ fields))) 512
        then ok (msg where_ (line (f ∷ fields)) ∷ [])
        else fault)
unfolding handle_geoip geoip_answer geoip_tokens
handle_geoip-line resolve parse web start api_key where_ args address contents who parts t key value
      toks f fields found answer taken parsed top fields_there =
    rw (found, handle_geoip)
      (rw (answer, send_http_request-joined start contents parts taken)
        (rw (take-all (contents ++ joined parts) (0 ∷ []), parsed)
          (rw
            (
              top,
              add_fields-line ((contents ++ joined parts) ++ 0 ∷ []) key value toks f fields []
                  fields_there,
            )
            (from_start where_ (line (f ∷ fields))))))
