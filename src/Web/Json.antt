-- ===== src/Web/Json.antt =====
-- How a string is written in JSON, and what a channel is shown of it.
use minervabot.Prelude.{
  ℕ, zero, suc, ◌-◌, ◌<◌, ◌⊎◌, List, arith, length, ◌≡◌, refl, sym, subst, false, [], ◌∷◌, ◌++◌,
  ◌==◌, ==_iff, if◌then◌else◌, inl, inr, Bool-cases,
}
use minervabot.Run.{ok}
use minervabot.CString.{Bytes, string}
use minervabot.Web.{puts, nothing, stays, escape_of}

-- a character as it is written in a JSON string
unfoldable pub json_char : ℕ → Bytes
json_char c =
    if c == b'"'
    then b'\\' ∷ b'"' ∷ []
    else if c == b'\\'
    then b'\\' ∷ b'\\' ∷ []
    else if c == 10
    then b'\\' ∷ b'n' ∷ []
    else if c == 13
    then b'\\' ∷ b'r' ∷ []
    else if c == 9
    then b'\\' ∷ b't' ∷ []
    else c ∷ []

-- what a channel is shown of it: line feeds and tabs as spaces, no carriage returns
unfoldable pub shown_char : ℕ → Bytes
shown_char c =
    if c == 13 then [] else if c == 10 then b' ' ∷ [] else if c == 9 then b' ' ∷ [] else c ∷ []

-- What a JSON string is made of: characters, and escapes that the loop leaves as they are: `\/`, `\b`, `\f`, and
-- `\u`, whose four digits are characters.
pub data JsonPart : Type 0 where
  char : ℕ → JsonPart
  kept : ℕ → JsonPart

abbrev pub json_part : JsonPart → Bytes
json_part (char c) = json_char c
json_part (kept d) = b'\\' ∷ d ∷ []

abbrev pub shown_part : JsonPart → Bytes
shown_part (char c) = shown_char c
shown_part (kept d) = b'\\' ∷ d ∷ []

abbrev pub json_text : List JsonPart → Bytes
json_text [] = []
json_text (p ∷ s) = json_part p ++ json_text s

-- What is shown of a string: the parts up to the first behind which there are `left` characters or more. Only an
-- escape that is left as it is has two, so that there may be one more.
abbrev pub shown : ℕ → List JsonPart → Bytes
shown left [] = []
shown zero (p ∷ s) = []
shown (suc left) (p ∷ s) = shown_part p ++ shown (suc left - length (shown_part p)) s

-- no null, and the escapes that JSON has besides those of `json_char`
abbrev pub IsPart : JsonPart → Type 0
IsPart (char c) = (c == 0) ≡ false
IsPart (kept d) = (d ≡ b'/') ⊎ ((d ≡ b'b') ⊎ ((d ≡ b'f') ⊎ (d ≡ b'u')))

abbrev pub AreParts : List JsonPart → Type 0
AreParts [] = Unit
AreParts (p ∷ s) = IsPart p × AreParts s

pub kept-stays : (d : ℕ) → IsPart (kept d) → (escape_of d ≡ stays) × ((d == 0) ≡ false)
unfolding escape_of
kept-stays d (inl e) = rw e (refl, refl)
kept-stays d (inr (inl e)) = rw e (refl, refl)
kept-stays d (inr (inr (inl e))) = rw e (refl, refl)
kept-stays d (inr (inr (inr e))) = rw e (refl, refl)

abbrev pub NoNull : Bytes → Type 0
NoNull [] = Unit
NoNull (c ∷ s) = ((c == 0) ≡ false) × NoNull s

-- the three ways in which a character is written
pub data Written (c : ℕ) : Type 0 where
  escaped :
      (d x : ℕ)
      → json_char c ≡ b'\\' ∷ d ∷ []
      → escape_of d ≡ puts x
      → shown_char c ≡ x ∷ []
      → Written c
  dropped :
      (d : ℕ) → json_char c ≡ b'\\' ∷ d ∷ [] → escape_of d ≡ nothing → shown_char c ≡ [] → Written c
  plain :
      json_char c ≡ c ∷ []
      → (c == b'\\') ≡ false
      → (c == b'"') ≡ false
      → shown_char c ≡ c ∷ []
      → Written c

pub Written-cases : (c : ℕ) → Written c
unfolding json_char shown_char escape_of
Written-cases c = elim (Bool-cases (c == b'"')) [
  | inl e ↦ subst Written (sym ((==_iff c b'"').0 e)) (escaped b'"' b'"' refl refl refl)
  | inr quote ↦ elim (Bool-cases (c == b'\\')) [
    | inl e ↦ subst Written (sym ((==_iff c b'\\').0 e)) (escaped b'\\' b'\\' refl refl refl)
    | inr backslash ↦ elim (Bool-cases (c == 10)) [
      | inl e ↦ subst Written (sym ((==_iff c 10).0 e)) (escaped b'n' b' ' refl refl refl)
      | inr feed ↦ elim (Bool-cases (c == 13)) [
        | inl e ↦ subst Written (sym ((==_iff c 13).0 e)) (dropped b'r' refl refl refl)
        | inr return ↦ elim (Bool-cases (c == 9)) [
          | inl e ↦ subst Written (sym ((==_iff c 9).0 e)) (escaped b't' b' ' refl refl refl)
          | inr tab ↦
              plain (rw (quote, backslash, feed, return, tab)) backslash quote
                (rw (return, feed, tab))
        ]
      ]
    ]
  ]
]

pub string-NoNull : (s more : Bytes) → NoNull s → string (s ++ 0 ∷ more) ≡ ok s
unfolding string
string-NoNull [] more clean = refl
string-NoNull (c ∷ s) more (null, clean) = rw (null, string-NoNull s more clean)

pub append-NoNull : (a b : Bytes) → NoNull a → NoNull b → NoNull (a ++ b)
append-NoNull [] b h k = k
append-NoNull (c ∷ a) b (null, h) k = (null, append-NoNull a b h k)

shown_char-NoNull : (c : ℕ) → (c == 0) ≡ false → NoNull (shown_char c)
unfolding shown_char
shown_char-NoNull c null = elim (Bool-cases (c == 13)) [
  | inl e ↦ rw e tt
  | inr return ↦ elim (Bool-cases (c == 10)) [
    | inl e ↦ rw (return, e) (refl, tt)
    | inr feed ↦ elim (Bool-cases (c == 9)) [
      | inl e ↦ rw (return, feed, e) (refl, tt)
      | inr tab ↦ rw (return, feed, tab) (null, tt)
    ]
  ]
]

shown_part-NoNull : (p : JsonPart) → IsPart p → NoNull (shown_part p)
shown_part-NoNull (char c) null = shown_char-NoNull c null
shown_part-NoNull (kept d) h = (refl, ((kept-stays d h).1, tt))

pub shown-NoNull : (s : List JsonPart) (left : ℕ) → AreParts s → NoNull (shown left s)
shown-NoNull [] left h = tt
shown-NoNull (p ∷ s) zero h = tt
shown-NoNull (p ∷ s) (suc left) (part, h) =
    append-NoNull (shown_part p) _ (shown_part-NoNull p part)
      (shown-NoNull s (suc left - length (shown_part p)) h)

pub shown-cons :
    (left : ℕ) (p : JsonPart) (s : List JsonPart)
    → 0 < left
    → shown left (p ∷ s) ≡ shown_part p ++ shown (left - length (shown_part p)) s
shown-cons zero p s lt = absurd (omega arith)
shown-cons (suc left) p s lt = refl
