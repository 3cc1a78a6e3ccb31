-- ===== src/Web/Fields.antt =====
-- The line that src/modules/bot_geoip.c makes of the fields of an answer.
use minervabot.Prelude.{
  ℕ, ◌+◌, ◌≤◌, ◌≡◌, refl, sym, ap, ◌∙◌, Bool, true, false, List, ◌∷◌, ◌++◌, arith, ltb, length,
  length-append, if◌then◌else◌,
}
use mathlib.Core.List.{append_assoc}
use minervabot.Run.{Run, ok, fault, deadlock, ◌>>=◌}
use minervabot.CString.{Bytes}
use minervabot.Web.Geoip.{
  Token, strncat, bytes_of, heading, value_text, extras, separator, add_fields,
}

bind_assoc :
    {A B C : Type 0} (m : Run A) (f : A → Run B) (g : B → Run C)
    → m >>= f >>= g ≡ m >>= (λ a. f a >>= g)
bind_assoc (ok a) f g = refl
bind_assoc fault f g = refl
bind_assoc deadlock f g = refl

not_below : (a b : ℕ) → b ≤ a → ltb a b ≡ false
not_below a b le = ground arith

-- text behind text is one text
pub strncat-append : (url a b : Bytes) → strncat url a >>= (λ u. strncat u b) ≡ strncat url (a ++ b)
unfolding strncat
strncat-append url a b = in_case (ltb (length url + length a) 512) refl
  where
    in_case :
        (fits : Bool)
        → ltb (length url + length a) 512 ≡ fits
        → strncat url a >>= (λ u. strncat u b) ≡ strncat url (a ++ b)
    in_case true e =
        rw (e, ◌>>=◌)
          (ap (λ n. if ltb n 512 then ok ((url ++ a) ++ b) else fault)
              (omega (arith, length-append url a, length-append a b))
            ∙ ap (λ t. if ltb (length url + length (a ++ b)) 512 then ok t else fault)
                (append_assoc url a b))
    in_case false e =
        rw (e, ◌>>=◌)
          (rw (not_below (length url + length (a ++ b)) 512 (later e (length-append a b))) refl)
      where
        later :
            ltb (length url + length a) 512 ≡ false
            → length (a ++ b) ≡ length a + length b
            → 512 ≤ length url + length (a ++ b)
        later e long = ground arith

strncat-then :
    (url a b : Bytes) (f : Bytes → Run Bytes)
    → strncat url a >>= (λ u. strncat u b >>= f) ≡ strncat url (a ++ b) >>= f
strncat-then url a b f =
    sym (bind_assoc (strncat url a) (λ u. strncat u b) f)
    ∙ ap (λ m. m >>= f) (strncat-append url a b)

-- the text of one field, from what the loop makes of its tokens
pub one_field :
    (memory url h v e : Bytes) (key value : Token) (rest : List Token)
    → heading (bytes_of memory key) ≡ h
    → value_text memory value ≡ v
    → extras memory key value ≡ ok e
    → add_fields memory (key ∷ value ∷ rest) url
      ≡ strncat url (((h ++ v) ++ e) ++ separator rest) >>= add_fields memory rest
unfolding add_fields
one_field memory url h v e key value rest title shown more =
    rw (title, shown, more, ◌>>=◌)
      (strncat-then url h v _
        ∙ strncat-then url (h ++ v) e _
        ∙ strncat-then url ((h ++ v) ++ e) (separator rest) (add_fields memory rest))
