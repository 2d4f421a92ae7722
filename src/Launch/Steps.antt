-- ===== src/Launch/Steps.antt =====
-- The invariant at the start of a launch in AppLaunchEventState::OnNewEvent of
-- src/manager/event_manager.cc.
use android_system_iorap.Prelude.{
  ◌≡◌, refl, ◌∙◌, ap, true, false, not, Option, none, some, arith, Bool-cases, inl, inr, if_true,
  if_false,
}
use android_system_iorap.Prelude.Outcome.{Outcome, ok}
use android_system_iorap.Launch.{EventType, intent_started, AppLaunchEvent, IntentProto}
use android_system_iorap.Launch.Diagram.{}
use android_system_iorap.Launch.State.{
  Env, AppLaunchEventState, has_value, is_blacklisted, finish_read_ahead,
}
use android_system_iorap.Launch.Trace.{abort_trace}
use android_system_iorap.Launch.Handler.{
  intent_component, intent_started_for, new_chain, intent_named, intent_of, timestamp_or,
}
use android_system_iorap.Launch.Ready.{
  Activity, activity, ignored, busy, active, Ready, finish_read_ahead-activity,
  abort_trace-activity,
}
use android_system_iorap.Launch.Starts.{Settles, dcheck-true, start_both-Settles}

-- The outcome is a state that is ready behind an event of type `t`, with the same blacklist.
abbrev pub Fate : EventType → AppLaunchEventState → Outcome AppLaunchEventState → Type 0
Fate t s o =
    (s' : AppLaunchEventState) × (o ≡ ok s') × Ready t (activity s') × (s'.blacklist ≡ s.blacklist)

pub Settles-Fate :
    (t : EventType) (s : AppLaunchEventState) (o : Outcome AppLaunchEventState)
    → active t ≡ true
    → Settles s o
    → Fate t s o
Settles-Fate t s o a (s', e, sound, same) = (s', e, (sound, ground arith), same)

intent_started_for-Fate :
    (env : Env) (e : AppLaunchEvent) (p : IntentProto) (s : AppLaunchEventState)
    → has_value s.component_name ≡ true
    → ignored (activity s) ≡ false
    → busy (activity s) ≡ false
    → Fate intent_started s (intent_started_for env e p s)
intent_started_for-Fate env e p s has named idle =
    let s' = record s { intent_started_ns = timestamp_or s.intent_started_ns e.timestamp_nanos } in
    rw (dcheck-true {b = not s.is_tracing} (ground arith)) (elim (Bool-cases p.has_component) [
      | inl h ↦ rw (if_true h) (
          Settles-Fate intent_started s _ refl
            (start_both-Settles env (intent_component p) s' has named idle))
      | inr h ↦
          rw (if_false h)
            (s', refl, ((ground arith, ground arith, ground arith), ground arith), refl)
    ])

intent_named-Fate :
    (env : Env) (e : AppLaunchEvent) (p : IntentProto) (s : AppLaunchEventState)
    → busy (activity s) ≡ false
    → Fate intent_started s (intent_named env e p s)
intent_named-Fate env e p s idle =
    let c = intent_component p in
    let s' = record s { component_name = some c } in
    elim (Bool-cases (is_blacklisted c.package_name s.blacklist)) [
      | inl h ↦ rw (if_true h) (s', refl, ((ground arith, ground arith, ground arith), refl), refl)
      | inr h ↦ rw (if_false h) (intent_started_for-Fate env e p (new_chain s') refl h idle)
    ]

pub intent_of-Fate :
    (o : Option IntentProto) (env : Env) (e : AppLaunchEvent) (s : AppLaunchEventState)
    → has_value o ≡ true
    → busy (activity s) ≡ false
    → Fate intent_started s (intent_of o env e s)
intent_of-Fate none env e s has idle = absurd (ground arith)
intent_of-Fate (some p) env e s has idle = intent_named-Fate env e p s idle

-- Nothing runs behind an aborted launch.
pub aborted :
    (s : AppLaunchEventState) → busy (activity (finish_read_ahead (abort_trace s))) ≡ false
aborted s =
    ap busy (finish_read_ahead-activity (abort_trace s))
    ∙ ap (λ a. busy (record a { task = none })) (abort_trace-activity s)

pub aborted_blacklist :
    (s : AppLaunchEventState) → (finish_read_ahead (abort_trace s)).blacklist ≡ s.blacklist
aborted_blacklist s =
    ap (λ a. a.blacklist) (finish_read_ahead-activity (abort_trace s))
    ∙ ap (λ a. a.blacklist) (abort_trace-activity s)

-- A state where nothing runs is ready behind any event.
pub idle-Ready : (t : EventType) (a : Activity) → busy a ≡ false → Ready t a
idle-Ready t a idle = ((ground arith, ground arith, ground arith), ground arith)

pub aborted-Fate :
    (t : EventType) (s : AppLaunchEventState) → Fate t s (ok (finish_read_ahead (abort_trace s)))
aborted-Fate t s = (_, refl, idle-Ready t _ (aborted s), aborted_blacklist s)
