-- ===== src/Irc/Sender.antt =====
-- `irc_parsesender` takes `nick!ident@host` apart.
use minervabot.Prelude.{ℕ, ◌≡◌, refl, false, none, some, [], ◌∷◌, ◌++◌, arith, ◌==◌}
use minervabot.CString.{Bytes, split_at}
use minervabot.Irc.{parse_ident, irc_parsesender}

-- a character does not stand in a text
abbrev pub Lacks : ℕ → Bytes → Type 0
Lacks c [] = Unit
Lacks c (x ∷ s) = ((x == c) ≡ false) × Lacks c s

pub split_at-found : (c : ℕ) (a b : Bytes) → Lacks c a → split_at c (a ++ c ∷ b) ≡ some (a, b)
unfolding split_at
split_at-found c [] b h = ground arith
split_at-found c (x ∷ a) b h = rw (h.0, split_at-found c a b h.1)

pub split_at-none : (c : ℕ) (a : Bytes) → Lacks c a → split_at c a ≡ none
unfolding split_at
split_at-none c [] h = refl
split_at-none c (x ∷ a) h = rw (h.0, split_at-none c a h.1)

-- A sender `nick!ident@host` gives its three parts back, one with no `@` behind the first `!` has no
-- host, and one with no `!` is all nick, whatever `@` it holds.
pub irc_parsesender_parts :
    (nick ident host : Bytes)
    → Lacks b'!' nick
    → Lacks b'@' ident
    → (irc_parsesender (nick ++ b'!' ∷ (ident ++ b'@' ∷ host))
        ≡ record { nick = nick; ident = some ident; host = some host })
      × (irc_parsesender (nick ++ b'!' ∷ ident)
          ≡ record { nick = nick; ident = some ident; host = none })
      × (irc_parsesender nick ≡ record { nick = nick; ident = none; host = none })
unfolding irc_parsesender
irc_parsesender_parts nick ident host n i = (
  rw (split_at-found b'!' nick _ n, parse_ident) (rw (split_at-found b'@' ident host i)),
  rw (split_at-found b'!' nick ident n, parse_ident) (rw (split_at-none b'@' ident i)),
  rw (split_at-none b'!' nick n),
)
