-- ===== src/Client/Messages/Whisper.antt =====
-- `ParseWhisperInput` of Client/ClientApp.cpp accepts the lines of its form and no others.
use asio_chat_server.Common.{
  ℕ, ◌<◌, ◌≡◌, ◌≢◌, ◌↔◌, refl, ap, subst, some, List, [], ◌∷◌, ◌++◌, arith, All, ◌==◌, length, inl,
  inr, Bool-cases, Option-cases, none≢some,
}
use asio_chat_server.Common.Find.{
  split_at, split_at_sound, split_at-first, split_at-lacks, some_pair,
}
use asio_chat_server.Client.Messages.{parse_whisper_input}

-- A slash, a target without a space, a space and a message.
pub record IsWhisper (s target msg : List ℕ) : Type 0 where
  pub form : s ≡ 47 ∷ (target ++ 32 ∷ msg)
  pub one_word : All (λ c. 32 ≢ c) target
  pub named : 0 < length target
  pub filled : 0 < length msg

accepted :
    (s target msg : List ℕ) → IsWhisper s target msg → parse_whisper_input s ≡ some (target, msg)
unfolding parse_whisper_input
accepted s [] msg v = absurd (let h = v.named in omega arith)
accepted s (d ∷ target) [] v = absurd (let h = v.filled in omega arith)
accepted s (d ∷ target) (e ∷ msg) v =
    rw v.form
      (rw (split_at-first 32 [] (d ∷ target) (e ∷ msg) v.one_word, parse_whisper_input) refl)

only : (s target msg : List ℕ) → parse_whisper_input s ≡ some (target, msg) → IsWhisper s target msg
unfolding parse_whisper_input
only [] target msg e = absurd (none≢some (target, msg) e)
only (c ∷ s) target msg e = elim (Bool-cases (c == 47)) [
  | inr other ↦ absurd (none≢some (target, msg) (rw other at e))
  | inl slash ↦ elim (Option-cases (split_at (32 ∷ []) s)) [
    | inl no_space ↦
        absurd (none≢some (target, msg) (rw (no_space, parse_whisper_input) at (rw slash at e)))
    | inr (([], m), found) ↦
        absurd (none≢some (target, msg) (rw (found, parse_whisper_input) at (rw slash at e)))
    | inr ((d ∷ t, []), found) ↦
        absurd (none≢some (target, msg) (rw (found, parse_whisper_input) at (rw slash at e)))
    | inr ((d ∷ t, x ∷ m), found) ↦
        let (same, rest) =
          some_pair (d ∷ t) (x ∷ m) (target, msg)
            (rw (found, parse_whisper_input) at (rw slash at e)) in
        let start : c ≡ 47 = grind arith in
        subst (λ w. IsWhisper (c ∷ s) w msg) same
          (subst (IsWhisper (c ∷ s) (d ∷ t)) rest (record {
            form = rw start (ap (◌∷◌ 47) (split_at_sound (32 ∷ []) s (d ∷ t) (x ∷ m) found));
            one_word = split_at-lacks 32 s (d ∷ t) (x ∷ m) found;
            named = omega arith;
            filled = omega arith;
          }))
  ]
]

-- A line is read as a whisper exactly if it is a slash, a target that is one word, a space and a
-- message that is not empty, and then it gives back this target and this message.
pub parse_whisper_input_iff :
    (s target msg : List ℕ) → (parse_whisper_input s ≡ some (target, msg)) ↔ IsWhisper s target msg
parse_whisper_input_iff s target msg = (only s target msg, accepted s target msg)
