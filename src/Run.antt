-- ===== src/Run.antt =====
-- What a C function does: it returns a value, it runs into undefined behaviour (`fault`: an access
-- outside an object, or through a null pointer), or it waits for a mutex that is never released.
use minervabot.Prelude.{◌≡◌, refl, Option, none, some}

pub data Run {ℓ} (A : Type ℓ) : Type ℓ where
  ok : A → Run A
  fault : Run A
  deadlock : Run A

infixl 5 ◌>>=◌
abbrev pub ◌>>=◌ {ℓ κ} : {A : Type ℓ} {B : Type κ} → Run A → (A → Run B) → Run B
ok a >>= f = f a
fault >>= f = fault
deadlock >>= f = deadlock

-- A pointer that is used: null is undefined behaviour.
abbrev pub deref {ℓ} : {A : Type ℓ} → Option A → Run A
deref none = fault
deref (some a) = ok a

pub >>=-eq-ok {ℓ κ} :
    {A : Type ℓ} {B : Type κ} (m : Run A) (f : A → Run B) {b : B}
    → m >>= f ≡ ok b
    → (a : A) × (m ≡ ok a) × (f a ≡ ok b)
>>=-eq-ok (ok a) f h = (a, refl, h)
>>=-eq-ok fault f h = cc
>>=-eq-ok deadlock f h = cc
