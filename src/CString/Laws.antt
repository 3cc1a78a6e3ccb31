-- ===== src/CString/Laws.antt =====
-- What the accesses of CString do inside the bounds of an array.
use minervabot.Prelude.{
  ℕ, zero, suc, ◌<◌, ◌≡◌, refl, ◌↔◌, true, some, List, [], ◌∷◌, ◌++◌, arith, length, get_elem?, set,
}
use minervabot.CString.{Bytes, equal, read, write, copy}
use minervabot.Run.{ok, fault}

pub equal_iff : (a b : Bytes) → (equal a b ≡ true) ↔ (a ≡ b)
unfolding equal
equal_iff [] [] = ground arith
equal_iff [] (y ∷ b) = ground arith
equal_iff (x ∷ a) [] = ground arith
equal_iff (x ∷ a) (y ∷ b) = ground (arith, equal_iff a b)

pub equal_refl : (a : Bytes) → equal a a ≡ true
equal_refl a = (equal_iff a a).1 refl

module _ {ℓ} {A : Type ℓ} where
  pub read-get_elem? : (xs : List A) (i : ℕ) {x : A} → get_elem? xs i ≡ some x → read xs i ≡ ok x
  unfolding read
  read-get_elem? [] i h = cc
  read-get_elem? (y ∷ xs) zero h = ground arith
  read-get_elem? (y ∷ xs) (suc i) h = read-get_elem? xs i h

  pub write-set : (xs : List A) (i : ℕ) (v : A) → i < length xs → write xs i v ≡ ok (set xs i v)
  unfolding write
  write-set [] i v h = absurd (omega arith)
  write-set (x ∷ xs) zero v h = refl
  write-set (x ∷ xs) (suc i) v h = rw (write-set xs i v (omega arith))

  pub read-append : (xs ys : List A) (y : A) → read (xs ++ y ∷ ys) (length xs) ≡ ok y
  unfolding read
  read-append [] ys y = refl
  read-append (x ∷ xs) ys y = read-append xs ys y

  pub write-append :
      (xs ys : List A) (y v : A) → write (xs ++ y ∷ ys) (length xs) v ≡ ok (xs ++ v ∷ ys)
  unfolding write
  write-append [] ys y v = refl
  write-append (x ∷ xs) ys y v = rw (write-append xs ys y v)

-- a copy that is longer than the array
pub copy-overrun : (p src : Bytes) → length p < length src → copy p src ≡ fault
unfolding copy
copy-overrun p [] h = absurd (omega arith)
copy-overrun [] (x ∷ src) h = refl
copy-overrun (y ∷ p) (x ∷ src) h = rw (copy-overrun p src (omega arith))
