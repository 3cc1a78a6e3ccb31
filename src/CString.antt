-- ===== src/CString.antt =====
-- Memory that holds text: arrays with checked access, and the C strings in them.
pub mod Laws
use minervabot.Prelude.{
  ℕ, zero, suc, Bool, true, false, ◌&&◌, Option, none, some, List, [], ◌∷◌, ◌++◌, ◌==◌,
  if◌then◌else◌,
}
use Prim.Native.Char.{code}
use Prim.Native.String.{String}
use minervabot.Run.{Run, ok, fault, ◌>>=◌}

abbrev pub Bytes : Type 0
Bytes = List ℕ

-- `!strcmp(a, b)`, on the bytes before the terminating null
unfoldable pub equal : Bytes → Bytes → Bool
equal [] [] = true
equal (x ∷ xs) (y ∷ ys) = x == y && equal xs ys
equal _ _ = false

-- `strchr(s, c)`: what stands before the first `c`, and what stands behind it
unfoldable pub split_at : ℕ → Bytes → Option (Bytes × Bytes)
split_at c [] = none
split_at c (x ∷ xs) =
    if x == c
    then some ([], xs)
    else elim (split_at c xs) [ none ↦ none | some (a, b) ↦ some (x ∷ a, b) ]

module _ {ℓ} {A : Type ℓ} where
  -- `p[i]`
  unfoldable pub read : List A → ℕ → Run A
  read [] i = fault
  read (x ∷ xs) zero = ok x
  read (x ∷ xs) (suc i) = read xs i

  -- `p[i] = v`
  unfoldable pub write : List A → ℕ → A → Run (List A)
  write [] i v = fault
  write (x ∷ xs) zero v = ok (v ∷ xs)
  write (x ∷ xs) (suc i) v = do ys ← write xs i v; ok (x ∷ ys)

  -- `memcpy(p, src, n)` for the whole of `src`
  unfoldable pub copy : List A → List A → Run (List A)
  copy p [] = ok p
  copy [] (x ∷ src) = fault
  copy (y ∷ p) (x ∷ src) = do q ← copy p src; ok (x ∷ q)

-- the string that starts at the head of an array; without a null, reading runs off its end
unfoldable pub string : Bytes → Run Bytes
string [] = fault
string (c ∷ cs) = let rest = string cs in if c == 0 then ok [] else (do s ← rest; ok (c ∷ s))

-- the bytes of a string with its null
abbrev pub terminated : Bytes → Bytes
terminated s = s ++ 0 ∷ []

-- the bytes of an ASCII literal
abbrev pub codes : String → Bytes
codes String.[] = []
codes (String.◌∷◌ c s) = code c ∷ codes s

-- `!strncmp(s, literal, strlen(literal))`
unfoldable pub starts_with : Bytes → Bytes → Bool
starts_with s [] = true
starts_with [] (y ∷ ys) = false
starts_with (x ∷ xs) (y ∷ ys) = x == y && starts_with xs ys

-- what a C string that begins with these bytes reads as, where a null follows them
unfoldable pub until_null : Bytes → Bytes
until_null [] = []
until_null (c ∷ s) = let rest = until_null s in if c == 0 then [] else c ∷ rest
