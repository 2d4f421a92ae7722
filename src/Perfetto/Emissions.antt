-- ===== src/Perfetto/Emissions.antt =====
-- What a state change emits, for StateChangedSubject of src/perfetto/rx_producer.cc.
use android_system_iorap.Prelude.{
  ℕ, ◌≡◌, refl, ◌==◌, Bool, true, false, List, [], ◌∷◌, ◌++◌, arith, if◌then◌else◌, map, nat_key,
  Bool-cases, inl, inr, ◌⊎◌,
}
use android_system_iorap.Prelude.Outcome.{Outcome, ok, fatal, stalled}
use android_system_iorap.Perfetto.Subject.{
  PerfettoState, trace_failed, connection_error, session_not_found, idle, connecting, configured,
  tracing, trace_ended, Emission, on_next, on_error, on_completed, StateChangedSubject, follows,
  is_valid_state_transition, is_configured, on_state_changed,
}

abbrev pub emitted_for : ℕ → List (ℕ × Emission) → List Emission
emitted_for h [] = []
emitted_for h ((k, e) ∷ emitted) =
    if k == h then e ∷ emitted_for h emitted else emitted_for h emitted

pub emitted_for-append :
    (h : ℕ) (xs ys : List (ℕ × Emission))
    → emitted_for h (xs ++ ys) ≡ emitted_for h xs ++ emitted_for h ys
emitted_for-append h [] ys = refl
emitted_for-append h ((k, e) ∷ xs) ys = ground (arith, emitted_for-append h xs ys)

pub emitted_for_same :
    (h k : ℕ) (es : List Emission) → (k == h) ≡ true → emitted_for h (map (λ e. (k, e)) es) ≡ es
emitted_for_same h k [] q = refl
emitted_for_same h k (e ∷ es) q = rw (q, emitted_for_same h k es q) refl

pub emitted_for_other :
    (h k : ℕ) (es : List Emission) → (k == h) ≡ false → emitted_for h (map (λ e. (k, e)) es) ≡ []
emitted_for_other h k [] q = refl
emitted_for_other h k (e ∷ es) q = rw q (emitted_for_other h k es q)

abbrev pub all_next : List Emission → Bool
all_next [] = true
all_next (on_next state ∷ es) = all_next es
all_next (on_error ∷ es) = false
all_next (on_completed ∷ es) = false

pub all_next-append :
    (xs ys : List Emission) → all_next xs ≡ true → all_next ys ≡ true → all_next (xs ++ ys) ≡ true
all_next-append [] ys a b = b
all_next-append (on_next state ∷ xs) ys a b = all_next-append xs ys a b
all_next-append (on_error ∷ xs) ys a b = absurd (ground arith)
all_next-append (on_completed ∷ xs) ys a b = absurd (ground arith)

-- The end of a stream.
abbrev pub IsEnding : List Emission → Type 0
IsEnding es = (es ≡ on_error ∷ []) ⊎ (es ≡ on_next trace_ended ∷ on_completed ∷ [])

-- Items, and then the end.
abbrev pub IsFinished : List Emission → Type 0
IsFinished es =
    (items : List Emission) × (ending : List Emission) × (all_next items ≡ true)
    × IsEnding ending
    × (es ≡ items ++ ending)

abbrev pub Changes : Outcome (Bool × List Emission × StateChangedSubject) → Type 0
Changes fatal = Unit
Changes stalled = Unit
Changes (ok (again, es, s)) =
    ((again ≡ true) × (all_next es ≡ true)) ⊎ ((again ≡ false) × IsEnding es)

not_configured :
    (deferred : Bool) (last : PerfettoState)
    → follows deferred last connection_error ≡ true
    → is_configured last ≡ false
not_configured deferred configured h = absurd (ground arith)
not_configured deferred trace_failed h = refl
not_configured deferred connection_error h = refl
not_configured deferred session_not_found h = refl
not_configured deferred idle h = refl
not_configured deferred connecting h = refl
not_configured deferred tracing h = refl
not_configured deferred trace_ended h = refl

pub on_state_changed-Changes :
    (state : PerfettoState) (s : StateChangedSubject) → Changes (on_state_changed state s)
unfolding on_state_changed is_valid_state_transition
on_state_changed-Changes session_not_found s = tt
on_state_changed-Changes idle s = tt
on_state_changed-Changes trace_failed s =
    elim (Bool-cases (follows s.deferred_start s.last_state trace_failed)) [
      | inl good ↦ rw good (inr (ground arith, inl refl))
      | inr bad ↦ rw bad tt
    ]
on_state_changed-Changes connection_error s =
    elim (Bool-cases (follows s.deferred_start s.last_state connection_error)) [
      | inl good ↦
          let n = not_configured s.deferred_start s.last_state good in
          rw (good, n) (inr (refl, inl refl))
      | inr bad ↦ rw bad tt
    ]
on_state_changed-Changes connecting s =
    elim (Bool-cases (follows s.deferred_start s.last_state connecting)) [
      | inl good ↦ rw good (inl (refl, refl))
      | inr bad ↦ rw bad tt
    ]
on_state_changed-Changes configured s =
    elim (Bool-cases (follows s.deferred_start s.last_state configured)) [
      | inl good ↦ rw good (inl (refl, refl))
      | inr bad ↦ rw bad tt
    ]
on_state_changed-Changes tracing s =
    elim (Bool-cases (follows s.deferred_start s.last_state tracing)) [
      | inl good ↦ rw good (inl (refl, refl))
      | inr bad ↦ rw bad tt
    ]
on_state_changed-Changes trace_ended s =
    elim (Bool-cases (follows s.deferred_start s.last_state trace_ended)) [
      | inl good ↦ rw good (inr (ground arith, inr refl))
      | inr bad ↦ rw bad tt
    ]
