-- ===== src/Wire/Endings.antt =====
-- The ways in which Command::Read ends.
use android_system_iorap.Prelude.{
  ℕ, ◌<◌, ◌≡◌, refl, ◌≢◌, ◌⊎◌, inl, inr, Option, none, some, length, Option-cases,
}
use android_system_iorap.Prelude.Outcome.{Outcome, ok, fatal, stalled}
use android_system_iorap.Wire.{
  ByteList, Command, CommandChoice, ParseResult, choice_of, on_success, parsing_read, read,
  read_choice,
}
use android_system_iorap.Wire.Bytes.{parsing_read-short}

read_choice-ne-stalled :
    (o : Option CommandChoice) (s : ByteList) (r : ParseResult ℕ) → read_choice o s r ≢ stalled
read_choice-ne-stalled none s r h = cc
read_choice-ne-stalled (some c) s r h = cc

choice_then-ne-stalled :
    (r : ParseResult ℕ) (f : ParseResult ℕ → Outcome (Option Command × ℕ))
    → ((x : ParseResult ℕ) → f x ≢ stalled)
    → on_success (ok (none, 0)) r f ≢ stalled
unfolding on_success
choice_then-ne-stalled r f never = elim (Option-cases r.next_token) [
  | inl e ↦ rw e (λ h. cc)
  | inr (t, e) ↦ rw e (never _)
]

pub read-ne-stalled : (buf : Option ByteList) (buf_size : ℕ) → read buf buf_size ≢ stalled
unfolding read
read-ne-stalled none n h = cc
read-ne-stalled (some s) n h =
    choice_then-ne-stalled (parsing_read 4 (some s) n) (λ r. read_choice (choice_of r.value) s r)
      (λ r. read_choice-ne-stalled (choice_of r.value) s r) h

Outcome-cases :
    (o : Outcome (Option Command × ℕ))
    → o ≢ stalled
    → (o ≡ fatal)
      ⊎ (((k : ℕ) × (o ≡ ok (none, k))) ⊎ ((c : Command) × (k : ℕ) × (o ≡ ok (some c, k))))
Outcome-cases (ok (none, k)) h = inr (inl (k, refl))
Outcome-cases (ok (some c, k)) h = inr (inr (c, k, refl))
Outcome-cases fatal h = inl refl
Outcome-cases stalled h = absurd (h refl)

-- The three ways in which Command::Read ends.
pub read_cases :
    (buf : Option ByteList) (n : ℕ)
    → (read buf n ≡ fatal)
      ⊎ (((k : ℕ) × (read buf n ≡ ok (none, k)))
          ⊎ ((c : Command) × (k : ℕ) × (read buf n ≡ ok (some c, k))))
read_cases buf n = Outcome-cases (read buf n) (read-ne-stalled buf n)

-- Fewer bytes than a choice are no command.
pub read-short : (s : ByteList) → length s < 4 → read (some s) (length s) ≡ ok (none, 0)
unfolding read on_success
read-short s h = rw (parsing_read-short 4 s h)
