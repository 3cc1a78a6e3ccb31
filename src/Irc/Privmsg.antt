-- ===== src/Irc/Privmsg.antt =====
-- What `irc_loop` makes of a line that carries a message.
use minervabot.Prelude.{
  ℕ, ◌≢◌, ◌⊎◌, inl, inr, ◌≡◌, refl, sym, ap, ◌∙◌, true, false, Option, none, some, [], ◌∷◌, ◌++◌,
  arith, ◌==◌,
}
use mathlib.Core.List.{append-nil, append_assoc}
use minervabot.CString.{Bytes, codes, starts_with, until_null, split_at}
use minervabot.Irc.Sender.{Lacks, split_at-found, split_at-none}
use minervabot.Irc.{parse_host, parse_ident, irc_parsesender}
use minervabot.Irc.Line.{
  Words, no_words, on_command, channel_sign, before_sign, end_word, split_words, reply_to,
  check_cmd, handle_line,
}

-- neither a space nor a null
abbrev pub Word : Bytes → Type 0
Word s = Lacks b' ' s × Lacks 0 s

pub until_null-end : (s : Bytes) → Lacks 0 s → until_null s ≡ s
unfolding until_null
until_null-end [] h = refl
until_null-end (c ∷ s) (h, k) = rw h (ap (◌∷◌ c) (until_null-end s k))

until_null-terminated : (s : Bytes) → Lacks 0 s → until_null (s ++ 0 ∷ []) ≡ s
unfolding until_null
until_null-terminated [] h = refl
until_null-terminated (c ∷ s) (h, k) = rw h (ap (◌∷◌ c) (until_null-terminated s k))

-- one word before the third space
split_words-word :
    (t rest : Bytes) (w : Words) (word : Bytes)
    → Lacks b' ' t
    → (w.wordcount == 3) ≡ false
    → split_words w word (t ++ b' ' ∷ rest) ≡ split_words (end_word w (word ++ t)) [] rest
unfolding split_words
split_words-word [] rest w word h n =
    ap (λ t. split_words (end_word w t) [] rest) (sym (append-nil word))
split_words-word (c ∷ t) rest w word (h, k) n =
    rw (h, n, split_words-word t rest w (word ++ c ∷ []) k n, append_assoc word (c ∷ []) t)
      (ground arith)

abbrev four_words : Bytes → Bytes → Bytes → Bytes → Words
four_words user command target message = record {
  wordcount = 3;
  user = some user;
  command = some command;
  target = some target;
  message = some message;
}

abbrev line_text : Bytes → Bytes → Bytes → Bytes → Bytes
line_text user command target message =
    user ++ b' ' ∷ (command ++ b' ' ∷ (target ++ b' ' ∷ b':' ∷ message))

terminated_text :
    (user command target message : Bytes)
    → line_text user command target message ++ 0 ∷ []
      ≡ line_text user command target (message ++ 0 ∷ [])
terminated_text user command target message =
    rw (append_assoc user, append_assoc command, append_assoc target)

-- the colon starts the message
split_words-colon :
    (user command target message : Bytes)
    → Lacks 0 message
    → split_words
        (record {
          wordcount = 3;
          user = some user;
          command = some command;
          target = some target;
          message = none;
        })
        []
        (b':' ∷ (message ++ 0 ∷ []))
      ≡ four_words user command target message
unfolding split_words until_null
split_words-colon user command target [] h = refl
split_words-colon user command target (c ∷ message) h =
    ap (four_words user command target) (until_null-terminated (c ∷ message) h)

split_words-four :
    (user command target message : Bytes)
    → Word user
    → Word command
    → Word target
    → Lacks 0 message
    → split_words no_words [] (line_text user command target message ++ 0 ∷ [])
      ≡ four_words user command target message
unfolding end_word
split_words-four user command target message (us, un) (cs, cn) (ts, tn) mn =
    rw (terminated_text user command target message) (
      rw (split_words-word user _ no_words [] us refl) (
        rw (split_words-word command _ (end_word no_words user) [] cs refl) (
          rw (split_words-word target _ (end_word (end_word no_words user) command) [] ts refl) (
            rw (until_null-end user un, until_null-end command cn, until_null-end target tn)
              (split_words-colon user command target message mn)))))

-- the calls of the line's command
handle_line-words :
    (text : Bytes)
    → handle_line (b':' ∷ text)
      ≡ (let w = split_words no_words [] (text ++ 0 ∷ []) in on_command w w.command)
unfolding handle_line starts_with
handle_line-words text = refl

-- the characters that the names of channels begin with
abbrev pub IsSign : ℕ → Type 0
IsSign c = (c ≡ b'#') ⊎ ((c ≡ b'&') ⊎ ((c ≡ b'+') ⊎ (c ≡ b'!')))

abbrev pub NoSign : Bytes → Type 0
NoSign [] = Unit
NoSign (c ∷ target) = (c ≢ b'#') × (c ≢ b'&') × (c ≢ b'+') × (c ≢ b'!')

-- Where a message is answered: one to a channel there, any other at the nick of its sender.
pub data AnsweredAt : Bytes → Bytes → Bytes → Type 0 where
  in_channel :
      (user : Bytes) (c : ℕ) (name : Bytes) → IsSign c → AnsweredAt user (c ∷ name) (c ∷ name)
  at_nick :
      (nick rest target : Bytes)
      → Lacks b'!' nick
      → NoSign target
      → AnsweredAt (nick ++ b'!' ∷ rest) target nick
  at_user : (user target : Bytes) → Lacks b'!' user → NoSign target → AnsweredAt user target user

IsSign-channel_sign : (c : ℕ) (name : Bytes) → IsSign c → channel_sign (c ∷ name) ≡ true
unfolding channel_sign
IsSign-channel_sign c name (inl e) = ground arith
IsSign-channel_sign c name (inr (inl e)) = ground arith
IsSign-channel_sign c name (inr (inr (inl e))) = ground arith
IsSign-channel_sign c name (inr (inr (inr e))) = ground arith

NoSign-channel_sign : (target : Bytes) → NoSign target → channel_sign target ≡ false
unfolding channel_sign
NoSign-channel_sign [] h = refl
NoSign-channel_sign (c ∷ target) (hash, and, plus, mark) = ground arith

reply_to-AnsweredAt :
    (user target place : Bytes) → AnsweredAt user target place → reply_to user target ≡ place
unfolding reply_to before_sign
reply_to-AnsweredAt _ _ _ (in_channel user c name sign) = rw (IsSign-channel_sign c name sign) refl
reply_to-AnsweredAt _ _ _ (at_nick nick rest target lacks none_there) =
    rw (NoSign-channel_sign target none_there, split_at-found b'!' nick rest lacks) refl
reply_to-AnsweredAt _ _ _ (at_user user target lacks none_there) =
    rw (NoSign-channel_sign target none_there, split_at-none b'!' user lacks) refl

-- A line `:user PRIVMSG target :message` of the server becomes a call with the user, the place to answer at,
-- and the whole message, spaces and colons included; so does a line with NOTICE. The answer goes to the target
-- where it begins like a channel, and else to what stands before the `!` of the user, or all of it without one.
pub handle_line_privmsg :
    (user target place message : Bytes)
    → AnsweredAt user target place
    → Word user
    → Word target
    → Lacks 0 message
    → (handle_line
          (b':' ∷ (user ++ b' ' ∷ (codes "PRIVMSG" ++ b' ' ∷ (target ++ b' ' ∷ b':' ∷ message))))
        ≡ check_cmd user place message)
      × (handle_line
            (b':' ∷ (user ++ b' ' ∷ (codes "NOTICE" ++ b' ' ∷ (target ++ b' ' ∷ b':' ∷ message))))
          ≡ check_cmd user place message)
unfolding starts_with on_command
handle_line_privmsg user target place message answered (us, un) (ts, tn) mn = (
  handle_line-words (line_text user (codes "PRIVMSG") target message)
      ∙ rw
          (split_words-four user (codes "PRIVMSG") target message (us, un) (ground arith) (ts, tn)
            mn)
          refl
      ∙ ap (λ p. check_cmd user p message) (reply_to-AnsweredAt user target place answered),
  handle_line-words (line_text user (codes "NOTICE") target message)
      ∙ rw
          (split_words-four user (codes "NOTICE") target message (us, un) (ground arith) (ts, tn)
            mn)
          refl
      ∙ ap (λ p. check_cmd user p message) (reply_to-AnsweredAt user target place answered),
)

parse_host-nick :
    (nick : Bytes) (o : Option (Bytes × Bytes)) (t : Bytes) → (parse_host nick o t).nick ≡ nick
unfolding parse_host
parse_host-nick nick none t = refl
parse_host-nick nick (some (ident, host)) t = refl

before_sign-nick :
    (user : Bytes) (o : Option (Bytes × Bytes)) → before_sign user o ≡ (parse_ident user o).nick
unfolding before_sign parse_ident
before_sign-nick user none = refl
before_sign-nick user (some (nick, t)) = sym (parse_host-nick nick (split_at b'@' t) t)

-- An answer goes to the channel that the message went to, or, where it went to the bot alone, to the
-- nick that `irc_parsesender` finds in the sender.
pub reply_to_nick :
    (user target : Bytes)
    → (channel_sign target ≡ true → reply_to user target ≡ target)
      × (channel_sign target ≡ false → reply_to user target ≡ (irc_parsesender user).nick)
unfolding reply_to irc_parsesender
reply_to_nick user target = (λ h. rw h, λ h. rw h (before_sign-nick user (split_at b'!' user)))
