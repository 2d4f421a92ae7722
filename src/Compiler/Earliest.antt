-- ===== src/Compiler/Earliest.antt =====
-- What the two passes of CompilePageCacheEvents in src/compiler/compiler.cc compute.
use android_system_iorap.Prelude.{
  ℕ, ◌≡◌, ◌↔◌, refl, ◌∙◌, ltb, ◌==◌, ==_iff, Bool, true, false, ◌&&◌, ◌||◌, List, [], ◌∷◌, Option,
  none, some, arith, if_true, if_false, Bool-cases, inl, inr, Key, nat_key, same,
}
use android_system_iorap.Prelude.Order.{Order, nat_order, pair_key, pair_order, less_pair_total}
use android_system_iorap.Prelude.OrderedSet.{
  set_insert, set_find, set_erase, set_merge, Above, IsAscending, set_insert-IsAscending,
  set_erase-IsAscending, set_find-set_insert, set_find-set_erase,
}
use android_system_iorap.Compiler.{min}
use android_system_iorap.Compiler.Merge.{add_found, add_event, add_events}

abbrev pub sooner : Option ℕ → Option ℕ → Option ℕ
sooner none o = o
sooner (some s) none = some s
sooner (some s) (some t) = some (min s t)

sooner_assoc : (o p q : Option ℕ) → sooner (sooner o p) q ≡ sooner o (sooner p q)
sooner_assoc none p q = refl
sooner_assoc (some s) none q = refl
sooner_assoc (some s) (some t) none = refl
sooner_assoc (some s) (some t) (some u) = ground arith

abbrev pub time_if : Bool → ℕ → Option ℕ
time_if true t = some t
time_if false t = none

module _ {ε κ} {E : Type ε} {K : Type κ} ⦃k : Key K⦄ ⦃o : Order K⦄ (key : E → K)
    (time : E → ℕ) where
  -- The least time among the elements of a key.
  abbrev pub earliest : K → List E → Option ℕ
  earliest j [] = none
  earliest j (e ∷ events) = sooner (time_if (same (key e) j) (time e)) (earliest j events)

  -- Is there an element of a time and a key?
  abbrev pub is_in : ℕ → K → List E → Bool
  is_in t j [] = false
  is_in t j (x ∷ xs) = (time x == t && same (key x) j) || is_in t j xs

  abbrev time_at : Option E → Option ℕ
  time_at none = none
  time_at (some e) = some (time e)

  abbrev time_of : K → List E → Option ℕ
  time_of j s = time_at (set_find key j s)

  abbrev pub first_pass : List E → List E
  first_pass events = add_events key time [] events

  add_found-IsAscending :
      (found : Option E) (s : List E) (e : E)
      → IsAscending key s
      → IsAscending key (add_found key time found s e)
  add_found-IsAscending none s e a = set_insert-IsAscending key e s a
  add_found-IsAscending (some it) s e a = elim (Bool-cases (ltb (time e) (time it))) [
    | inl better ↦ rw (if_true better) (
        set_insert-IsAscending key e (set_erase key (key e) s)
          (set_erase-IsAscending key (key e) s a))
    | inr worse ↦ rw (if_false worse) a
  ]

  add_event-IsAscending :
      (s : List E) (e : E) → IsAscending key s → IsAscending key (add_event key time s e)
  unfolding add_event
  add_event-IsAscending s e a = add_found-IsAscending (set_find key (key e) s) s e a

  add_events-IsAscending :
      (s events : List E) → IsAscending key s → IsAscending key (add_events key time s events)
  unfolding add_events
  add_events-IsAscending s [] a = a
  add_events-IsAscending s (e ∷ events) a =
      add_events-IsAscending (add_event key time s e) events (add_event-IsAscending s e a)

  time_of-add_event :
      (j : K) (s : List E) (e : E)
      → IsAscending key s
      → time_of j (add_event key time s e)
        ≡ sooner (time_of j s) (time_if (same (key e) j) (time e))
  unfolding add_event
  time_of-add_event j s e a = ground (
    arith,
    set_find-set_insert key e j s a,
    set_find-set_insert key e j (set_erase key (key e) s) (set_erase-IsAscending key (key e) s a),
    set_find-set_erase key (key e) j s a,
    k.same_iff (key e) j,
  )

  time_of-add_events :
      (j : K) (s events : List E)
      → IsAscending key s
      → time_of j (add_events key time s events) ≡ sooner (time_of j s) (earliest j events)
  unfolding add_events
  time_of-add_events j s [] a = ground arith
  time_of-add_events j s (e ∷ events) a =
      time_of-add_events j (add_event key time s e) events (add_event-IsAscending s e a)
      ∙ rw (time_of-add_event j s e a) (sooner_assoc (time_of j s) _ (earliest j events))

  is_in-Above : (t : ℕ) (j : K) (s : List E) → Above key j s → is_in t j s ≡ false
  is_in-Above t j [] a = refl
  is_in-Above t j (y ∷ s) (a, later) =
      ground (arith, is_in-Above t j s later, k.same_iff (key y) j, o.less_irrefl j)

  is_in_iff :
      (t : ℕ) (j : K) (s : List E)
      → IsAscending key s
      → (is_in t j s ≡ true) ↔ (time_of j s ≡ some t)
  unfolding set_find
  is_in_iff t j [] a = ground arith
  is_in_iff t j (y ∷ s) (a, later) = ground (
    arith,
    is_in_iff t j s later,
    k.same_iff (key y) j,
    is_in-Above t (key y) s a,
    ==_iff (time y) t,
  )

  abbrev pub timed_key : E → ℕ × K
  timed_key e = (time e, key e)

  is_in-set_insert :
      (t : ℕ) (j : K) (x : E) (s : List E)
      → is_in t j (set_insert timed_key x s) ≡ (time x == t && same (key x) j || is_in t j s)
  unfolding set_insert
  is_in-set_insert t j x [] = refl
  is_in-set_insert t j x (y ∷ s) =
      ground (arith, is_in-set_insert t j x s, less_pair_total (time x, key x) (time y, key y))

  is_in-set_merge :
      (t : ℕ) (j : K) (xs s : List E)
      → is_in t j (set_merge timed_key xs s) ≡ (is_in t j xs || is_in t j s)
  unfolding set_merge
  is_in-set_merge t j [] s = refl
  is_in-set_merge t j (x ∷ xs) s =
      ground (arith, is_in-set_merge t j xs (set_insert timed_key x s), is_in-set_insert t j x s)

  pub two_passes :
      (t : ℕ) (j : K) (events : List E)
      → (is_in t j (set_merge timed_key (first_pass events) []) ≡ true)
        ↔ (earliest j events ≡ some t)
  unfolding set_find
  two_passes t j events = ground (
    arith,
    is_in-set_merge t j (first_pass events) [],
    is_in_iff t j (first_pass events) (add_events-IsAscending [] events tt),
    time_of-add_events j [] events tt,
  )
