-- ===== src/Perfetto/Stream.antt =====
-- The rx stream of a handle that StateChangedSubject of src/perfetto/rx_producer.cc emits.
use android_system_iorap.Prelude.{
  ℕ, ◌≡◌, refl, subst, ◌==◌, ==_iff, Bool, true, false, List, [], ◌∷◌, none, some, arith,
  if◌then◌else◌, map, nat_key, Bool-cases, Option-cases, inl, inr, ◌⊎◌, append-nil,
}
use android_system_iorap.Prelude.Outcome.{Outcome, ok, fatal, stalled, ◌>>=◌}
use android_system_iorap.Prelude.Assoc.{find, find-assign, find-erase}
use android_system_iorap.Perfetto.Subject.{
  PerfettoState, Emission, StateChangedSubject, on_state_changed, StateSubjects, keep_or_delete,
  callback_on_state_changed, run_callbacks,
}
use android_system_iorap.Perfetto.Emissions.{
  emitted_for, emitted_for-append, emitted_for_same, emitted_for_other, all_next, all_next-append,
  IsFinished, Changes, on_state_changed-Changes,
}

-- The subject is there and the stream has not ended, or it has ended and the subject is deleted.
abbrev pub IsStream : ℕ → StateSubjects → Type 0
IsStream h subjects =
    ((s : StateChangedSubject) × (find h subjects.state_subject_map ≡ some s)
      × (all_next (emitted_for h subjects.emitted) ≡ true))
    ⊎ ((find h subjects.state_subject_map ≡ none) × IsFinished (emitted_for h subjects.emitted))

abbrev pub KeepsStream : ℕ → Outcome StateSubjects → Type 0
KeepsStream h fatal = Unit
KeepsStream h stalled = Unit
KeepsStream h (ok subjects) = IsStream h subjects

keep_or_delete-find :
    (h k : ℕ) (again : Bool) (es : List Emission) (s : StateChangedSubject)
    (subjects : StateSubjects)
    → find h (keep_or_delete k (again, es, s) subjects).state_subject_map
      ≡ (if k == h then (if again then some s else none) else find h subjects.state_subject_map)
keep_or_delete-find h k true es s subjects = find-assign k h s subjects.state_subject_map
keep_or_delete-find h k false es s subjects = find-erase k h subjects.state_subject_map

own_callback-IsStream :
    (h k : ℕ) (again : Bool) (es : List Emission) (s : StateChangedSubject)
    (subjects : StateSubjects)
    → (k == h) ≡ true
    → Changes (ok (again, es, s))
    → all_next (emitted_for h subjects.emitted) ≡ true
    → IsStream h (keep_or_delete k (again, es, s) subjects)
own_callback-IsStream h k again es s subjects q (inl (go, items)) a =
    let e = keep_or_delete-find h k again es s subjects in
    rw (emitted_for-append h subjects.emitted (map (λ x. (k, x)) es), emitted_for_same h k es q)
      (inl (s, ground (arith, e), all_next-append (emitted_for h subjects.emitted) es a items))
own_callback-IsStream h k again es s subjects q (inr (stop, ending)) a =
    let e = keep_or_delete-find h k again es s subjects in
    rw (emitted_for-append h subjects.emitted (map (λ x. (k, x)) es), emitted_for_same h k es q)
      (inr (ground (arith, e), (emitted_for h subjects.emitted, es, a, ending, refl)))

other_callback-IsStream :
    (h k : ℕ) (again : Bool) (es : List Emission) (s : StateChangedSubject)
    (subjects : StateSubjects)
    → (k == h) ≡ false
    → IsStream h subjects
    → IsStream h (keep_or_delete k (again, es, s) subjects)
other_callback-IsStream h k again es s subjects q i =
    let e = keep_or_delete-find h k again es s subjects in
    let same : find h (keep_or_delete k (again, es, s) subjects).state_subject_map
        ≡ find h subjects.state_subject_map =
      ground (arith, e) in
    rw
      (
        same,
        emitted_for-append h subjects.emitted (map (λ x. (k, x)) es),
        emitted_for_other h k es q,
        append-nil (emitted_for h subjects.emitted),
      )
      i

step-KeepsStream :
    (h k : ℕ) (m : Outcome (Bool × List Emission × StateChangedSubject)) (s : StateChangedSubject)
    (subjects : StateSubjects)
    → Changes m
    → find k subjects.state_subject_map ≡ some s
    → IsStream h subjects
    → KeepsStream h (m >>= λ r. ok (keep_or_delete k r subjects))
step-KeepsStream h k fatal s subjects c f i = tt
step-KeepsStream h k stalled s subjects c f i = tt
step-KeepsStream h k (ok (again, es, s')) s subjects c f i = elim (Bool-cases (k == h)) [
  | inr other ↦ other_callback-IsStream h k again es s' subjects other i
  | inl own ↦ elim i [
    | inl (s0, found, a) ↦ own_callback-IsStream h k again es s' subjects own c a
    | inr (missing, finished) ↦
        let same : k ≡ h = ground (arith, ==_iff k h) in
        let found : find h subjects.state_subject_map ≡ some s =
          subst (λ j. find j subjects.state_subject_map ≡ some s) same f in
        absurd (ground arith)
  ]
]

callback-KeepsStream :
    (h k : ℕ) (state : PerfettoState) (subjects : StateSubjects)
    → IsStream h subjects
    → KeepsStream h (callback_on_state_changed k state subjects)
unfolding callback_on_state_changed
callback-KeepsStream h k state subjects i =
    elim (Option-cases (find k subjects.state_subject_map)) [
      | inl missing ↦ rw missing i
      | inr (s, found) ↦ rw found (
          step-KeepsStream h k (on_state_changed state s) s subjects
            (on_state_changed-Changes state s) found i)
    ]

then-KeepsStream :
    (h : ℕ) (m : Outcome StateSubjects) (k : StateSubjects → Outcome StateSubjects)
    → KeepsStream h m
    → ((subjects : StateSubjects) → IsStream h subjects → KeepsStream h (k subjects))
    → KeepsStream h (m >>= k)
then-KeepsStream h fatal k i f = tt
then-KeepsStream h stalled k i f = tt
then-KeepsStream h (ok subjects) k i f = f subjects i

run_callbacks-KeepsStream :
    (h : ℕ) (callbacks : List (ℕ × PerfettoState)) (subjects : StateSubjects)
    → IsStream h subjects
    → KeepsStream h (run_callbacks callbacks subjects)
unfolding run_callbacks
run_callbacks-KeepsStream h [] subjects i = i
run_callbacks-KeepsStream h ((k, state) ∷ callbacks) subjects i =
    then-KeepsStream h _ _ (callback-KeepsStream h k state subjects i)
      (run_callbacks-KeepsStream h callbacks)

-- From a subject that has emitted nothing, any callbacks for any handles that do not abort lead to a
-- state in which the stream of its handle has not ended, has emitted items only, and the subject is
-- there, or in which the stream has emitted items and then one error, or the ended state and the
-- completion, and the subject is deleted.
pub run_callbacks-IsStream :
    (h : ℕ) (s : StateChangedSubject) (callbacks : List (ℕ × PerfettoState))
    (subjects subjects' : StateSubjects)
    → find h subjects.state_subject_map ≡ some s
    → emitted_for h subjects.emitted ≡ []
    → run_callbacks callbacks subjects ≡ ok subjects'
    → IsStream h subjects'
run_callbacks-IsStream h s callbacks subjects subjects' f n e =
    subst (KeepsStream h) e (run_callbacks-KeepsStream h callbacks subjects (inl (s, f, rw n refl)))
