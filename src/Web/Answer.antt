-- ===== src/Web/Answer.antt =====
-- The fields that ipinfo.io names, for src/modules/bot_geoip.c: their text, and where their tokens stand.
use minervabot.Prelude.{ℕ, ◌+◌, ◌-◌, ◌≤◌, ◌≡◌, false, List, [], ◌∷◌, ◌++◌, length}
use minervabot.CString.{Bytes, codes}
use minervabot.Irc.Sender.{Lacks}
use minervabot.Web.Geoip.{Token, bytes_of, same_word}

-- a field of the answer; the country is two letters
pub data Field : Type 0 where
  region : Bytes → Field
  country : ℕ → ℕ → Field
  city : Bytes → Field
  loc : Bytes → Field
  org : Bytes → Field
  ip : Bytes → Field
  other : Bytes → Bytes → Field

abbrev pub key_of : Field → Bytes
key_of (region v) = codes "region"
key_of (country c d) = codes "country"
key_of (city v) = codes "city"
key_of (loc v) = codes "loc"
key_of (org v) = codes "org"
key_of (ip v) = codes "ip"
key_of (other k v) = k

abbrev pub value_of : Field → Bytes
value_of (region v) = v
value_of (country c d) = c ∷ d ∷ []
value_of (city v) = v
value_of (loc v) = v
value_of (org v) = v
value_of (ip v) = v
value_of (other k v) = v

abbrev pub named : Bytes → Bytes
named [] = codes "[unknown]"
named (c ∷ v) = c ∷ v

-- what stands in front of the value
abbrev pub title_of : Field → Bytes
title_of (region v) = []
title_of (country c d) = []
title_of (city v) = 2 ∷ (codes "Location" ++ 15 ∷ codes ": ")
title_of (loc v) = 2 ∷ (codes "Coordinates" ++ 15 ∷ codes ": ")
title_of (org v) = 2 ∷ (codes "ISP" ++ 15 ∷ codes ": ")
title_of (ip v) = 2 ∷ (codes "IP" ++ 15 ∷ codes ": ")
title_of (other [] v) = 2 ∷ 15 ∷ codes ": "
title_of (other (c ∷ k) v) = 2 ∷ (c - 32) ∷ (k ++ 15 ∷ codes ": ")

-- the regional indicator of a letter, U+1F1E6 for an A, in UTF-8
abbrev pub indicator : ℕ → Bytes
indicator c = 240 ∷ 159 ∷ 135 ∷ (166 + (c - b'A')) ∷ []

-- what stands behind it
abbrev pub flag_of : Field → Bytes
flag_of (country c d) = b' ' ∷ (indicator c ++ indicator d)
flag_of _ = []

abbrev pub text_of : Field → Bytes
text_of f = (title_of f ++ named (value_of f)) ++ flag_of f

-- the fields, with a comma between any two
abbrev pub line : List Field → Bytes
line [] = []
line (f ∷ []) = text_of f
line (f ∷ g ∷ fields) = (text_of f ++ codes ", ") ++ line (g ∷ fields)

-- values without a null, capital letters for a country, and keys that begin with a small letter and none of the
-- six known keys begins with
abbrev pub Plain : Field → Type 0
Plain (region v) = Lacks 0 v
Plain (country c d) = (65 ≤ c) × (c ≤ 90) × (65 ≤ d) × (d ≤ 90)
Plain (city v) = Lacks 0 v
Plain (loc v) = Lacks 0 v
Plain (org v) = Lacks 0 v
Plain (ip v) = Lacks 0 v
Plain (other [] v) = ⊥
Plain (other (c ∷ k) v) =
    Lacks 0 v
    × Lacks 0 k
    × (97 ≤ c)
    × (c ≤ 122)
    × (same_word (codes "region") (c ∷ k) ≡ false)
    × (same_word (codes "country") (c ∷ k) ≡ false)
    × (same_word (codes "city") (c ∷ k) ≡ false)
    × (same_word (codes "loc") (c ∷ k) ≡ false)
    × (same_word (codes "org") (c ∷ k) ≡ false)
    × (same_word (codes "ip") (c ∷ k) ≡ false)

-- where a token stands
pub record Stands (memory : Bytes) (t : Token) (text : Bytes) : Type 0 where
  pub ends : t.stop ≡ t.from + length text
  pub bytes : bytes_of memory t ≡ text

-- the tokens of the fields: keys and values in turn
abbrev pub Describe : Bytes → List Token → List Field → Type 0
Describe memory [] [] = Unit
Describe memory [] (_ ∷ _) = ⊥
Describe memory (_ ∷ _) [] = ⊥
Describe memory (_ ∷ []) (_ ∷ _) = ⊥
Describe memory (key ∷ value ∷ rest) (f ∷ fields) =
    Stands memory key (key_of f)
    × Stands memory value (value_of f)
    × Plain f
    × Describe memory rest fields
