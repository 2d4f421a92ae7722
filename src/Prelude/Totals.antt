-- ===== src/Prelude/Totals.antt =====
-- Sums over the values of a map whose keys differ.
use Prim.Native.Nat.{ℕ, ◌+◌}
use mathlib.Core.Path.{◌≡◌, refl}
use mathlib.Core.Bool.{Bool, true, false}
use mathlib.Core.Option.{Option, none, some}
use mathlib.Core.List.{List, [], ◌∷◌, ◌++◌}
use native.Mathlib.Omega.{arith}
use android_system_iorap.Prelude.Tests.{if◌then◌else◌}
use android_system_iorap.Prelude.Keys.{Key, same}
use android_system_iorap.Prelude.Assoc.{Assoc, find, erase, assign, insert, find-erase}

abbrev pub bit : Bool → ℕ
bit true = 1
bit false = 0

-- How many elements satisfy a test.
abbrev pub count {ℓ} : {A : Type ℓ} → (A → Bool) → List A → ℕ
count p [] = 0
count p (x ∷ xs) = bit (p x) + count p xs

pub count-snoc {ℓ} :
    {A : Type ℓ} (p : A → Bool) (xs : List A) (x : A)
    → count p (xs ++ x ∷ []) ≡ count p xs + bit (p x)
count-snoc p [] x = omega arith
count-snoc p (y ∷ xs) x = omega (arith, count-snoc p xs x)

abbrev pub weight {ℓ} : {V : Type ℓ} → (V → ℕ) → Option V → ℕ
weight f none = 0
weight f (some v) = f v

module _ {κ ℓ} {K : Type κ} {V : Type ℓ} ⦃e : Key K⦄ where
  abbrev pub IsDistinct : Assoc K V → Type ℓ
  IsDistinct [] = Unit
  IsDistinct ((k, v) ∷ m) = (find k m ≡ none) × IsDistinct m

  abbrev pub total : (V → ℕ) → Assoc K V → ℕ
  total f [] = 0
  total f ((k, v) ∷ m) = f v + total f m

  pub erase-IsDistinct : (k : K) (m : Assoc K V) → IsDistinct m → IsDistinct (erase k m)
  unfolding erase
  erase-IsDistinct k [] d = tt
  erase-IsDistinct k ((j, v) ∷ m) (n, d) =
      elim (same j k) as (λ b. IsDistinct (if b then erase k m else (j, v) ∷ erase k m)) [
        | true ↦ erase-IsDistinct k m d
        | false ↦ (ground (arith, find-erase k j m), erase-IsDistinct k m d)
      ]

  pub assign-IsDistinct : (k : K) (v : V) (m : Assoc K V) → IsDistinct m → IsDistinct (assign k v m)
  unfolding assign
  assign-IsDistinct k v m d =
      (ground (arith, find-erase k k m, e.same_iff k k), erase-IsDistinct k m d)

  pub insert-IsDistinct : (k : K) (v : V) (m : Assoc K V) → IsDistinct m → IsDistinct (insert k v m)
  unfolding insert
  insert-IsDistinct k v m d =
      elim (find k m) as (λ o. IsDistinct (elim o [ none ↦ assign k v m | some w ↦ m ])) [
        | none ↦ assign-IsDistinct k v m d
        | some w ↦ d
      ]

  pub total-erase :
      (f : V → ℕ) (k : K) (m : Assoc K V)
      → IsDistinct m
      → total f (erase k m) + weight f (find k m) ≡ total f m
  unfolding erase find
  total-erase f k [] d = refl
  total-erase f k ((j, v) ∷ m) (n, d) = ground (arith, total-erase f k m d, e.same_iff j k)

  pub total-assign :
      (f : V → ℕ) (k : K) (v : V) (m : Assoc K V)
      → IsDistinct m
      → total f (assign k v m) + weight f (find k m) ≡ f v + total f m
  unfolding assign
  total-assign f k v m d = omega (arith, total-erase f k m d)

  pub total-insert :
      (f : V → ℕ) (k : K) (v : V) (m : Assoc K V)
      → f v ≡ 0
      → IsDistinct m
      → total f (insert k v m) ≡ total f m
  unfolding insert
  total-insert f k v m z d = ground (arith, total-assign f k v m d)

  pub total-zero :
      (f : V → ℕ) (m : Assoc K V)
      → IsDistinct m
      → ((k : K) → weight f (find k m) ≡ 0)
      → total f m ≡ 0
  unfolding find
  total-zero f [] d z = refl
  total-zero f ((j, v) ∷ m) (n, d) z =
      ground
        (arith, z j, e.same_iff j j, total-zero f m d (λ k. ground (arith, z k, e.same_iff j k)))
