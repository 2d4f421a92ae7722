-- ===== src/Prelude/OrderedSet.antt =====
-- `std::set` with a comparison of a part of its elements, as the list of the elements in order.
use mathlib.Core.Path.{◌≡◌, refl}
use mathlib.Core.Logic.{inl, inr}
use mathlib.Core.Bool.{true}
use mathlib.Core.Option.{Option, none, some}
use mathlib.Core.List.{List, [], ◌∷◌}
use native.Mathlib.Omega.{arith}
use android_system_iorap.Prelude.Tests.{if◌then◌else◌, Bool-cases, if_true, if_false}
use android_system_iorap.Prelude.Lists.{All}
use android_system_iorap.Prelude.Keys.{Key, same}
use android_system_iorap.Prelude.Order.{Order, less}

module _ {ε κ} {E : Type ε} {K : Type κ} ⦃k : Key K⦄ ⦃o : Order K⦄ (key : E → K) where
  -- An element that is equivalent is kept.
  unfoldable pub set_insert : E → List E → List E
  set_insert x [] = x ∷ []
  set_insert x (y ∷ s) =
      if less (key x) (key y)
      then x ∷ y ∷ s
      else if less (key y) (key x)
      then y ∷ set_insert x s
      else y ∷ s

  unfoldable pub set_find : K → List E → Option E
  set_find j [] = none
  set_find j (y ∷ s) = if same (key y) j then some y else set_find j s

  unfoldable pub set_erase : K → List E → List E
  set_erase j [] = []
  set_erase j (y ∷ s) = if same (key y) j then s else y ∷ set_erase j s

  -- The elements of another set are inserted one by one.
  unfoldable pub set_merge : List E → List E → List E
  set_merge [] s = s
  set_merge (x ∷ xs) s = set_merge xs (set_insert x s)

  abbrev pub Above : K → List E → Type 0
  Above j s = All (λ y. less j (key y) ≡ true) s

  abbrev pub IsAscending : List E → Type 0
  IsAscending [] = Unit
  IsAscending (y ∷ s) = Above (key y) s × IsAscending s

  pub Above-trans : (i j : K) (s : List E) → less i j ≡ true → Above j s → Above i s
  Above-trans i j [] h a = tt
  Above-trans i j (y ∷ s) h (a, later) = (o.less_trans i j (key y) h a, Above-trans i j s h later)

  Above-set_insert :
      (j : K) (x : E) (s : List E) → less j (key x) ≡ true → Above j s → Above j (set_insert x s)
  unfolding set_insert
  Above-set_insert j x [] h a = (h, tt)
  Above-set_insert j x (y ∷ s) h (a, later) = elim (Bool-cases (less (key x) (key y))) [
    | inl before ↦ rw (if_true before) (h, (a, later))
    | inr later_key ↦ elim (Bool-cases (less (key y) (key x))) [
      | inl behind ↦ rw (if_false later_key, if_true behind) (a, Above-set_insert j x s h later)
      | inr equal ↦ rw (if_false later_key, if_false equal) (a, later)
    ]
  ]

  pub set_insert-IsAscending : (x : E) (s : List E) → IsAscending s → IsAscending (set_insert x s)
  unfolding set_insert
  set_insert-IsAscending x [] a = (tt, tt)
  set_insert-IsAscending x (y ∷ s) (a, later) = elim (Bool-cases (less (key x) (key y))) [
    | inl before ↦
        rw (if_true before) ((before, Above-trans (key x) (key y) s before a), (a, later))
    | inr later_key ↦ elim (Bool-cases (less (key y) (key x))) [
      | inl behind ↦
          rw (if_false later_key, if_true behind)
            (Above-set_insert (key y) x s behind a, set_insert-IsAscending x s later)
      | inr equal ↦ rw (if_false later_key, if_false equal) (a, later)
    ]
  ]

  Above-set_erase : (i j : K) (s : List E) → Above i s → Above i (set_erase j s)
  unfolding set_erase
  Above-set_erase i j [] a = tt
  Above-set_erase i j (y ∷ s) (a, later) = elim (Bool-cases (same (key y) j)) [
    | inl here ↦ rw (if_true here) later
    | inr other ↦ rw (if_false other) (a, Above-set_erase i j s later)
  ]

  pub set_erase-IsAscending : (j : K) (s : List E) → IsAscending s → IsAscending (set_erase j s)
  unfolding set_erase
  set_erase-IsAscending j [] a = tt
  set_erase-IsAscending j (y ∷ s) (a, later) = elim (Bool-cases (same (key y) j)) [
    | inl here ↦ rw (if_true here) later
    | inr other ↦
        rw (if_false other) (Above-set_erase (key y) j s a, set_erase-IsAscending j s later)
  ]

  pub set_merge-IsAscending : (xs s : List E) → IsAscending s → IsAscending (set_merge xs s)
  unfolding set_merge
  set_merge-IsAscending [] s a = a
  set_merge-IsAscending (x ∷ xs) s a =
      set_merge-IsAscending xs (set_insert x s) (set_insert-IsAscending x s a)

  pub set_find-Above : (j : K) (s : List E) → Above j s → set_find j s ≡ none
  unfolding set_find
  set_find-Above j [] a = refl
  set_find-Above j (y ∷ s) (a, later) =
      ground (arith, set_find-Above j s later, k.same_iff (key y) j, o.less_irrefl j)

  -- A lookup finds an element of the key.
  pub set_find-key : (j : K) (s : List E) (x : E) → set_find j s ≡ some x → key x ≡ j
  unfolding set_find
  set_find-key j [] x h = absurd (ground arith)
  set_find-key j (y ∷ s) x h = ground (arith, set_find-key j s x, k.same_iff (key y) j)

  pub set_find-set_insert :
      (x : E) (j : K) (s : List E)
      → IsAscending s
      → set_find j (set_insert x s)
        ≡ (elim (set_find j s) [ some y ↦ some y | none ↦ if same (key x) j then some x else none ])
  unfolding set_find set_insert
  set_find-set_insert x j [] a = refl
  set_find-set_insert x j (y ∷ s) (a, later) = elim (Bool-cases (less (key x) (key y))) [
    | inl before ↦ ground (
      arith,
      k.same_iff (key x) j,
      k.same_iff (key y) j,
      o.less_irrefl (key x),
      set_find-Above (key x) s (Above-trans (key x) (key y) s before a),
    )
    | inr behind ↦ ground (
      arith,
      set_find-set_insert x j s later,
      k.same_iff (key y) j,
      k.same_iff (key x) j,
      o.less_total (key x) (key y),
    )
  ]

  pub set_find-set_erase :
      (i j : K) (s : List E)
      → IsAscending s
      → set_find j (set_erase i s) ≡ (if same i j then none else set_find j s)
  unfolding set_find set_erase
  set_find-set_erase i j [] a = ground arith
  set_find-set_erase i j (y ∷ s) (a, later) = ground (
    arith,
    set_find-set_erase i j s later,
    set_find-Above (key y) s a,
    k.same_iff (key y) i,
    k.same_iff (key y) j,
    k.same_iff i j,
  )
