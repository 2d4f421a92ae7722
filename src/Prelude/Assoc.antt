-- ===== src/Prelude/Assoc.antt =====
-- `std::unordered_map` as an association list. No function here depends on the order of the
-- entries, except for the traversal of a whole map.
use mathlib.Core.Path.{◌≡◌}
use mathlib.Core.Option.{Option, none, some}
use mathlib.Core.List.{List, [], ◌∷◌}
use native.Mathlib.Omega.{arith}
use android_system_iorap.Prelude.Tests.{if◌then◌else◌}
use android_system_iorap.Prelude.Keys.{Key, same}

abbrev pub Assoc {κ ℓ} : Type κ → Type ℓ → Type (κ ⊔ ℓ)
Assoc K V = List (K × V)

module _ {κ ℓ} {K : Type κ} {V : Type ℓ} ⦃e : Key K⦄ where
  -- m.find(k)
  unfoldable pub find : K → Assoc K V → Option V
  find k [] = none
  find k ((j, v) ∷ m) = if same j k then some v else find k m

  -- m.erase(k)
  unfoldable pub erase : K → Assoc K V → Assoc K V
  erase k [] = []
  erase k ((j, v) ∷ m) = if same j k then erase k m else (j, v) ∷ erase k m

  -- m[k] = v
  unfoldable pub assign : K → V → Assoc K V → Assoc K V
  assign k v m = (k, v) ∷ erase k m

  -- The value that m[k] refers to, with `v` for the value that it would create.
  unfoldable pub at_or : K → V → Assoc K V → V
  at_or k v m = elim (find k m) [ none ↦ v | some w ↦ w ]

  -- m.insert({k, v}), which keeps an entry that is there
  unfoldable pub insert : K → V → Assoc K V → Assoc K V
  insert k v m = elim (find k m) [ none ↦ assign k v m | some w ↦ m ]

  pub find-erase :
      (k j : K) (m : Assoc K V) → find j (erase k m) ≡ (if same k j then none else find j m)
  unfolding find erase
  find-erase k j [] = ground arith
  find-erase k j ((i, v) ∷ m) =
      ground (arith, find-erase k j m, e.same_iff i k, e.same_iff i j, e.same_iff k j)

  pub find-assign :
      (k j : K) (v : V) (m : Assoc K V)
      → find j (assign k v m) ≡ (if same k j then some v else find j m)
  unfolding find assign
  find-assign k j v m = ground (arith, find-erase k j m)

  pub find-insert :
      (k j : K) (v : V) (m : Assoc K V)
      → find j (insert k v m) ≡ (if same k j then some (at_or k v m) else find j m)
  unfolding insert at_or
  find-insert k j v m = ground (arith, find-assign k j v m, e.same_iff k j)

pub ruleset assoc_laws = (find-erase, find-assign, find-insert)
