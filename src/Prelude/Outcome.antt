-- ===== src/Prelude/Outcome.antt =====
-- Code that may abort the process: LOG(FATAL), a failed CHECK, an uncaught exception, or use of a null
-- pointer. A loop on fuel is `stalled` when its fuel is used up before the loop has ended.
pub data Outcome {ℓ} (A : Type ℓ) : Type ℓ where
  fatal stalled : Outcome A
  ok : A → Outcome A

infixl 5 ◌>>=◌
abbrev pub ◌>>=◌ {ℓ κ} : {A : Type ℓ} {B : Type κ} (m : Outcome A) (k : A → Outcome B) → Outcome B
fatal >>= k = fatal
stalled >>= k = stalled
ok x >>= k = k x
