-- ===== src/Prelude/Keys.antt =====
-- Equality tests for the keys of maps: numbers, and strings as the list of their bytes.
use Prim.Native.Nat.{ℕ}
use mathlib.Core.Path.{◌≡◌}
use mathlib.Core.Logic.{◌↔◌}
use mathlib.Core.Bool.{Bool, true, false, ◌&&◌}
use mathlib.Core.List.{List, [], ◌∷◌}
use native.Mathlib.Omega.{arith}
use android_system_iorap.Prelude.Tests.{◌==◌, ==_iff}

pub record Key {κ} (K : Type κ) : Type κ where
  pub same : K → K → Bool
  pub same_iff : (j k : K) → (same j k ≡ true) ↔ (j ≡ k)

abbrev pub same {κ} : {K : Type κ} ⦃e : Key K⦄ → K → K → Bool
same ⦃e⦄ = e.same

abbrev pub Text : Type 0
Text = List ℕ

abbrev pub same_text : Text → Text → Bool
same_text [] [] = true
same_text [] (c ∷ t) = false
same_text (b ∷ s) [] = false
same_text (b ∷ s) (c ∷ t) = b == c && same_text s t

pub same_text_iff : (s t : Text) → (same_text s t ≡ true) ↔ (s ≡ t)
same_text_iff [] [] = ground arith
same_text_iff [] (c ∷ t) = ground arith
same_text_iff (b ∷ s) [] = ground arith
same_text_iff (b ∷ s) (c ∷ t) = ground (arith, same_text_iff s t)

instance abbrev pub nat_key : Key ℕ
nat_key = record { same = ◌==◌; same_iff = ==_iff }

instance abbrev pub text_key : Key Text
text_key = record { same = same_text; same_iff = same_text_iff }
