-- ===== src/Bot/Gates.antt =====
-- What the commands of src/modules/bot_chanop.c do for callers of each level.
use minervabot.Prelude.{
  ℕ, ◌≤◌, ◌<◌, ◌≡◌, refl, true, false, Option, none, some, List, [], ◌∷◌, ◌++◌, arith, ◌==◌, length,
  length-append, replicate, Bool-cases, inl, inr, pos, ltb_ℤ,
}
use mathlib.Core.List.{append_assoc}
use minervabot.Run.{ok, fault, ◌>>=◌}
use minervabot.CString.{Bytes, codes, copy, terminated, starts_with, split_at}
use minervabot.CString.Laws.{copy-overrun}
use minervabot.Permissions.Search.{IsText, string-append}
use minervabot.Bot.{Caller, CoreCall, msgva, kick, chmode, first, refusal}
use minervabot.Bot.Chanop.{mode_buffer, kick_call, half_operator, handle_chanop}

-- what a half operator may cause: a kick, a voice for the arguments, or an answer, in the channel of the command
abbrev pub Modest : Bytes → Bytes → CoreCall → Type 0
Modest where_ args (kick chan nick reason) = chan ≡ where_
Modest where_ args (chmode chan modes) = (chan ≡ where_) × (modes ≡ codes "+v " ++ args)
Modest where_ args (msgva chan text) = chan ≡ where_
Modest where_ args _ = ⊥

abbrev pub AllModest : Bytes → Bytes → List CoreCall → Type 0
AllModest where_ args [] = Unit
AllModest where_ args (c ∷ cs) = Modest where_ args c × AllModest where_ args cs

copy-room :
    (src p : Bytes) → length src ≤ length p → (rest : Bytes) × (copy p src ≡ ok (src ++ rest))
unfolding copy
copy-room [] p h = (p, refl)
copy-room (x ∷ src) [] h = absurd (omega arith)
copy-room (x ∷ src) (y ∷ p) h =
    let (rest, run) = copy-room src p (omega arith) in (rest, rw (run, ◌>>=◌) refl)

-- The mode buffer holds the mode and the arguments where those have at most 509 bytes, and where they
-- have more, the copy runs over its end.
pub mode_buffer_text :
    (mode : ℕ) (args : Bytes)
    → IsText args
    → (length args ≤ 509 → mode_buffer mode args ≡ ok (b'+' ∷ mode ∷ b' ' ∷ args))
      × (509 < length args → mode_buffer mode args ≡ fault)
unfolding mode_buffer
mode_buffer_text mode args text = (
  λ short.
      let (rest, run) =
        copy-room (terminated args) (replicate 510 0)
          (omega (arith, length-append args (0 ∷ []))) in
      rw (run, ◌>>=◌)
        (rw (append_assoc args (0 ∷ []) rest) (rw (string-append args rest text, ◌>>=◌) refl)),
  λ long.
      rw
        (
          copy-overrun (replicate 510 0) (terminated args)
              (omega (arith, length-append args (0 ∷ []))),
          ◌>>=◌,
        )
        refl,
)

refusal-Modest : (who : Caller) (where_ args : Bytes) → Modest where_ args (refusal who where_)
unfolding refusal
refusal-Modest who where_ args = refl

kick_call-Modest :
    (where_ args : Bytes) (o : Option (Bytes × Bytes))
    → Modest where_ args (kick_call where_ args o)
unfolding kick_call
kick_call-Modest where_ args none = refl
kick_call-Modest where_ args (some (nick, reason)) = refl

half_operator-Modest :
    (c : ℕ) (where_ args : Bytes)
    → IsText args
    → length args ≤ 509
    → (calls : List CoreCall) × (half_operator c where_ args ≡ ok calls)
      × AllModest where_ args calls
unfolding half_operator starts_with
half_operator-Modest c where_ args text short =
    let voiced = (mode_buffer_text b'v' args text).0 short in
    elim (Bool-cases (c == b'k')) [
      | inl k ↦ (
        kick_call where_ args (split_at b' ' args) ∷ [],
        rw k,
        (kick_call-Modest where_ args _, tt),
      )
      | inr k ↦ elim (Bool-cases (c == b'v')) [
        | inl v ↦ (
          chmode where_ (b'+' ∷ b'v' ∷ b' ' ∷ args) ∷ [],
          rw (k, v) (rw (voiced, ◌>>=◌) refl),
          ((refl, refl), tt),
        )
        | inr v ↦ ([], rw (k, v), tt)
      ]
    ]

AllModest-append :
    (where_ args : Bytes) (a b : List CoreCall)
    → AllModest where_ args a
    → AllModest where_ args b
    → AllModest where_ args (a ++ b)
AllModest-append where_ args [] b h k = k
AllModest-append where_ args (c ∷ a) b (x, h) k = (x, AllModest-append where_ args a b h k)

-- A caller below the level of an operator causes, with arguments of at most 509 bytes, nothing but
-- kicks, voices and answers in the channel of the command; below the level of a half operator, only
-- the refusal.
pub handle_chanop_below_op :
    (cmdname : Bytes) (who : Caller) (where_ args : Bytes)
    → ltb_ℤ who.permission_level (pos 40000) ≡ true
    → IsText args
    → length args ≤ 509
    → ((calls : List CoreCall) × (handle_chanop cmdname who where_ args ≡ ok calls)
        × AllModest where_ args calls)
      × (ltb_ℤ who.permission_level (pos 25000) ≡ true
          → handle_chanop cmdname who where_ args ≡ ok (refusal who where_ ∷ []))
unfolding handle_chanop
handle_chanop_below_op cmdname who where_ args low text short = (
  elim (Bool-cases (ltb_ℤ who.permission_level (pos 25000))) [
    | inl h ↦ (refusal who where_ ∷ [], rw h, (refusal-Modest who where_ args, tt))
    | inr h ↦
        let (calls, run, modest) = half_operator-Modest (first cmdname) where_ args text short in
        (
          calls ++ refusal who where_ ∷ [],
          rw (h, low) (rw (run, ◌>>=◌) refl),
          AllModest-append where_ args calls (refusal who where_ ∷ []) modest
              (refusal-Modest who where_ args, tt),
        )
  ],
  λ h. rw h,
)

-- A half operator below the level of an operator who gives a voice gets it, and the refusal besides.
pub handle_chanop_voice :
    (more : Bytes) (who : Caller) (where_ args : Bytes)
    → ltb_ℤ who.permission_level (pos 25000) ≡ false
    → ltb_ℤ who.permission_level (pos 40000) ≡ true
    → IsText args
    → length args ≤ 509
    → handle_chanop (b'v' ∷ more) who where_ args
      ≡ ok (chmode where_ (b'+' ∷ b'v' ∷ b' ' ∷ args) ∷ refusal who where_ ∷ [])
unfolding handle_chanop half_operator first
handle_chanop_voice more who where_ args high low text short =
    rw (high, low) (rw ((mode_buffer_text b'v' args text).0 short, ◌>>=◌) refl)
