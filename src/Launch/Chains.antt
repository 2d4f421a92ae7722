-- ===== src/Launch/Chains.antt =====
-- The history chains of AppLaunchEventState in src/manager/event_manager.cc over whole runs.
use android_system_iorap.Prelude.{
  ◌≡◌, refl, subst, Bool, true, false, not, ◌&&◌, [], ◌∷◌, Option, none, some, Text, if◌then◌else◌,
  List, All, Bool-cases, inl, inr, if_true, if_false, is_negative,
}
use android_system_iorap.Prelude.Outcome.{Outcome, ok, fatal, stalled, ◌>>=◌}
use android_system_iorap.Component.{AppComponentName, has_app_component_name}
use android_system_iorap.Launch.{
  EventType, uninitialized, intent_started, intent_failed, activity_launched,
  activity_launch_finished, activity_launch_cancelled, report_fully_drawn, AppLaunchEvent,
  IntentProto, Temperature,
}
use android_system_iorap.Launch.Defender.{Result, accept, reject, overwrite, defend}
use android_system_iorap.Launch.State.{
  Env, AppLaunchEventState, is_blacklisted, component_blacklisted, is_read_ahead, finish_read_ahead,
}
use android_system_iorap.Launch.Trace.{abort_trace, mark_pending_trace}
use android_system_iorap.Launch.History.{record_db_launch_history}
use android_system_iorap.Launch.Handler.{
  new_chain, timestamp_or, start_both, start_late, intent_component, intent_started_for, intent_of,
  on_intent_started, on_intent_failed, is_cold, activity_launched_for, activity_named,
  launched_component, activity_of, on_activity_launched, on_activity_launch_finished,
  on_activity_launch_cancelled, drawn_of, on_report_fully_drawn, on_event_type, refresh,
  on_new_event,
}
use android_system_iorap.Launch.Manager.{EventManager, answer, on_app_launch_event, run}
use android_system_iorap.Launch.Quiet.{
  start_both-Quietly, start_late-Quietly, finish_read_ahead-Quiet, aborted-Quiet, drawn_of-Quiet,
  mark_pending_trace-Quietly,
}
use android_system_iorap.Launch.Runs.{Complete, IsReady, run-IsReady}
use android_system_iorap.Launch.Ending.{
  EndsOnce, Kept, Quiet-Kept, Quietly-Kept, dcheck-Kept, if-Kept, >>=-Kept, new_chain-EndsOnce,
  fail_chain-EndsOnce, record_db_launch_history-EndsOnce,
}

intent_of-Kept :
    (o : Option IntentProto) (env : Env) (e : AppLaunchEvent) (s : AppLaunchEventState)
    → EndsOnce s
    → Kept (intent_of o env e s)
intent_of-Kept none env e s inv = tt
intent_of-Kept (some p) env e s inv =
    let n = intent_component p in
    let t = record s { component_name = some n } in
    let u = record (new_chain t) {
      intent_started_ns = timestamp_or s.intent_started_ns e.timestamp_nanos;
    } in
    let k = new_chain-EndsOnce s inv in
    if-Kept (is_blacklisted n.package_name s.blacklist) (ok t)
      (intent_started_for env e p (new_chain t)) inv
      (dcheck-Kept (not s.is_tracing) (if p.has_component then start_both env n u else ok u) (
        if-Kept p.has_component (start_both env n u) (ok u)
          (Quietly-Kept u (start_both env n u) (start_both-Quietly env n u) k) k))

on_intent_failed-Kept : (s : AppLaunchEventState) → EndsOnce s → Kept (ok (on_intent_failed s))
unfolding on_intent_failed
on_intent_failed-Kept s inv = elim (Bool-cases (component_blacklisted s)) [
  | inl h ↦ rw (if_true h) inv
  | inr h ↦
      let s' = finish_read_ahead (abort_trace s) in
      rw (if_false h) (
        fail_chain-EndsOnce s'.history_id_subscriber s' refl
          (Quiet-Kept s s' (aborted-Quiet s) inv))
]

activity_launched_for-Kept :
    (env : Env) (t : Temperature) (c : AppComponentName) (s : AppLaunchEventState)
    → EndsOnce s
    → Kept (activity_launched_for env t c s)
activity_launched_for-Kept env t c s inv =
    if-Kept (not (is_cold t)) (ok (finish_read_ahead (abort_trace s)))
      (if not s.is_tracing && not (is_read_ahead s) then start_late env c s else ok s)
      (Quiet-Kept s (finish_read_ahead (abort_trace s)) (aborted-Quiet s) inv)
      (if-Kept (not s.is_tracing && not (is_read_ahead s)) (start_late env c s) (ok s)
        (Quietly-Kept s (start_late env c s) (start_late-Quietly env c s) inv) inv)

activity_of-Kept :
    (o : Option Text) (env : Env) (e : AppLaunchEvent) (s : AppLaunchEventState)
    → EndsOnce s
    → Kept (activity_of o env e s)
activity_of-Kept none env e s inv = tt
activity_of-Kept (some title) env e s inv =
    let c = launched_component title in
    let t = record s { component_name = some c } in
    let u = record t { temperature = some e.temperature } in
    if-Kept (not (has_app_component_name title)) (ok s) (activity_named env e c s) inv (
      if-Kept (is_blacklisted c.package_name s.blacklist) (ok t)
        (activity_launched_for env e.temperature c u) inv
        (activity_launched_for-Kept env e.temperature c u inv))

on_activity_launch_finished-Kept :
    (env : Env) (e : AppLaunchEvent) (s : AppLaunchEventState)
    → EndsOnce s
    → Kept (on_activity_launch_finished env e s)
unfolding on_activity_launch_finished
on_activity_launch_finished-Kept env e s inv = elim (Bool-cases (component_blacklisted s)) [
  | inl h ↦ rw (if_true h) inv
  | inr h ↦
      let s0 = record s { total_time_ns = timestamp_or s.total_time_ns e.timestamp_nanos } in
      let s' = record_db_launch_history env s0 in
      let k = record_db_launch_history-EndsOnce env s0 inv in
      rw (if_false h) (
        >>=-Kept (if s'.is_tracing then mark_pending_trace s' else ok s')
          (λ t. ok (finish_read_ahead t))
          (if-Kept s'.is_tracing (mark_pending_trace s') (ok s')
            (Quietly-Kept s' (mark_pending_trace s') (mark_pending_trace-Quietly s') k) k)
          (λ t. Quiet-Kept t (finish_read_ahead t) (finish_read_ahead-Quiet t)))
]

on_activity_launch_cancelled-Kept :
    (s : AppLaunchEventState) → EndsOnce s → Kept (ok (on_activity_launch_cancelled s))
unfolding on_activity_launch_cancelled
on_activity_launch_cancelled-Kept s inv = elim (Bool-cases (component_blacklisted s)) [
  | inl h ↦ rw (if_true h) inv
  | inr h ↦ rw (if_false h) (Quiet-Kept s (finish_read_ahead (abort_trace s)) (aborted-Quiet s) inv)
]

on_report_fully_drawn-Kept :
    (e : AppLaunchEvent) (s : AppLaunchEventState)
    → EndsOnce s
    → Kept (ok (on_report_fully_drawn e s))
unfolding on_report_fully_drawn
on_report_fully_drawn-Kept e s inv = elim (Bool-cases (component_blacklisted s)) [
  | inl h ↦ rw (if_true h) inv
  | inr h ↦
      rw (if_false h) (
        Quiet-Kept s (drawn_of s.recent_history_id e s) (drawn_of-Quiet s.recent_history_id e s)
          inv)
]

on_event_type-Kept :
    (t : EventType) (env : Env) (e : AppLaunchEvent) (s : AppLaunchEventState)
    → EndsOnce s
    → Kept (on_event_type t env e s)
unfolding on_event_type on_intent_started on_activity_launched
on_event_type-Kept intent_started env e s inv = intent_of-Kept e.intent_proto env e s inv
on_event_type-Kept intent_failed env e s inv = on_intent_failed-Kept s inv
on_event_type-Kept activity_launched env e s inv = activity_of-Kept e.activity_title env e s inv
on_event_type-Kept activity_launch_finished env e s inv =
    on_activity_launch_finished-Kept env e s inv
on_event_type-Kept activity_launch_cancelled env e s inv = on_activity_launch_cancelled-Kept s inv
on_event_type-Kept report_fully_drawn env e s inv = on_report_fully_drawn-Kept e s inv
on_event_type-Kept uninitialized env e s inv = tt

on_new_event-Kept :
    (env : Env) (e : AppLaunchEvent) (s : AppLaunchEventState)
    → EndsOnce s
    → Kept (on_new_event env e s)
unfolding on_new_event
on_new_event-Kept env e s inv =
    dcheck-Kept (not (is_negative e.sequence_id)) (on_event_type e.type env e (refresh env e s))
      (on_event_type-Kept e.type env e (refresh env e s) inv)

-- The same behind the defender.
abbrev KeptAnswer : Outcome (Bool × AppLaunchEventState) → Type 0
KeptAnswer fatal = Unit
KeptAnswer stalled = Unit
KeptAnswer (ok (b, s)) = EndsOnce s

accepted-Kept :
    (b : Bool) (o : Outcome AppLaunchEventState) → Kept o → KeptAnswer (o >>= λ s. ok (b, s))
accepted-Kept b fatal k = tt
accepted-Kept b stalled k = tt
accepted-Kept b (ok s) k = k

answer-Kept :
    (env : Env) (e : AppLaunchEvent) (r : Result) (s : AppLaunchEventState)
    → EndsOnce s
    → KeptAnswer (answer env e r s)
unfolding answer
answer-Kept env e accept s inv =
    accepted-Kept true (on_new_event env e s) (on_new_event-Kept env e s inv)
answer-Kept env e (overwrite d) s inv =
    accepted-Kept false (on_new_event env d s) (on_new_event-Kept env d s inv)
answer-Kept env e reject s inv = inv

abbrev KeptManager : Outcome EventManager → Type 0
KeptManager fatal = Unit
KeptManager stalled = Unit
KeptManager (ok m) = EndsOnce m.launch

-- The rest of a run behind an answer.
run_behind-Kept :
    (last : EventType) (o : Outcome (Bool × AppLaunchEventState))
    (f : EventManager → Outcome EventManager)
    → KeptAnswer o
    → ((t : EventManager) → EndsOnce t.launch → KeptManager (f t))
    → KeptManager (
        (o >>= λ (accepted, s). ok (accepted, record { last_event_type = last; launch = s }))
        >>= λ (accepted, t). f t)
run_behind-Kept last fatal f k g = tt
run_behind-Kept last stalled f k g = tt
run_behind-Kept last (ok (b, s)) f k g = g (record { last_event_type = last; launch = s }) k

run-Kept :
    (events : List (Env × AppLaunchEvent)) (m : EventManager)
    → EndsOnce m.launch
    → KeptManager (run events m)
unfolding run on_app_launch_event
run-Kept [] m inv = inv
run-Kept ((env, e) ∷ later) m inv =
    let (last, result) = defend m.last_event_type e in
    run_behind-Kept last (answer env e result m.launch) (run later)
      (answer-Kept env e result m.launch inv) (run-Kept later)

-- Without a blacklist, every sequence of complete events, in any order and with any answers of the
-- system, is handled without an abort, and then each history chain was ended at most once, with an
-- id or with an error, and the chain whose subscriber is still held was not ended.
pub run-EndsOnce :
    (events : List (Env × AppLaunchEvent)) (m : EventManager)
    → All (λ x. Complete x.1) events
    → m.launch.blacklist ≡ []
    → IsReady m
    → EndsOnce m.launch
    → (m' : EventManager) × (run events m ≡ ok m') × EndsOnce m'.launch
run-EndsOnce events m complete b ready inv =
    let (m', k, ready') = run-IsReady events m complete b ready in
    (m', k, subst KeptManager k (run-Kept events m inv))
