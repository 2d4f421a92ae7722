-- ===== src/Launch/Launched.antt =====
-- The invariant in the cases of AppLaunchEventState::OnNewEvent in src/manager/event_manager.cc that
-- stand behind the start of a launch.
use android_system_iorap.Prelude.{
  ℕ, ◌≡◌, refl, sym, ◌∙◌, ap, subst, Bool, true, false, not, ◌&&◌, Option, none, some, arith, Text,
  Bool-cases, inl, inr, if◌then◌else◌, List, if_true, if_false,
}
use android_system_iorap.Prelude.Outcome.{ok}
use android_system_iorap.Component.{AppComponentName, has_app_component_name}
use android_system_iorap.Launch.{
  intent_failed, activity_launched, activity_launch_finished, activity_launch_cancelled,
  report_fully_drawn, AppLaunchEvent, Temperature,
}
use android_system_iorap.Launch.State.{
  Env, AppLaunchEventState, has_value, is_read_ahead, is_blacklisted, component_blacklisted,
  finish_read_ahead,
}
use android_system_iorap.Launch.Trace.{abort_trace, mark_pending_trace, pending_of}
use android_system_iorap.Launch.History.{record_db_launch_history}
use android_system_iorap.Launch.Handler.{
  on_intent_failed, activity_launched_for, activity_named, launched_component, activity_of,
  on_activity_launch_finished, on_activity_launch_cancelled, on_report_fully_drawn, is_cold,
  timestamp_or,
}
use android_system_iorap.Launch.Ready.{
  activity, ignored, busy, Sound, fail_chain-activity, drawn_of-activity,
  record_db_launch_history-activity, finish_read_ahead-activity,
}
use android_system_iorap.Launch.Starts.{dcheck-true, start_late-Settles}
use android_system_iorap.Launch.Steps.{
  Fate, Settles-Fate, aborted, aborted_blacklist, idle-Ready, aborted-Fate,
}

activity_launched_for-Fate :
    (env : Env) (t : Temperature) (c : AppComponentName) (s : AppLaunchEventState)
    → has_value s.component_name ≡ true
    → ignored (activity s) ≡ false
    → Sound (activity s)
    → Fate activity_launched s (activity_launched_for env t c s)
activity_launched_for-Fate env t c s has named sound = elim (Bool-cases (not (is_cold t))) [
  | inl warm ↦ rw (if_true warm) (aborted-Fate activity_launched s)
  | inr cold ↦ rw (if_false cold) (elim (Bool-cases (not s.is_tracing && not (is_read_ahead s))) [
    | inl idle ↦ rw (if_true idle) (
        Settles-Fate activity_launched s _ refl
          (start_late-Settles env c s has named (ground arith)))
    | inr runs ↦ rw (if_false runs) (s, refl, (sound, refl), refl)
  ])
]

activity_named-Fate :
    (env : Env) (e : AppLaunchEvent) (c : AppComponentName) (s : AppLaunchEventState)
    → Sound (activity s)
    → (is_blacklisted c.package_name s.blacklist && busy (activity s)) ≡ false
    → Fate activity_launched s (activity_named env e c s)
activity_named-Fate env e c s sound expected =
    let s' = record s { component_name = some c } in
    elim (Bool-cases (is_blacklisted c.package_name s.blacklist)) [
      | inl h ↦
          rw (if_true h) (s', refl, idle-Ready activity_launched (activity s') (ground arith), refl)
      | inr h ↦ rw (if_false h) (
          activity_launched_for-Fate env e.temperature c
            (record s' { temperature = some e.temperature }) refl h
            (sound.0, sound.1, ground arith))
    ]

-- Is the title that of an activity of a blacklisted package?
abbrev pub title_blacklisted : Option Text → List Text → Bool
title_blacklisted none blacklist = false
title_blacklisted (some title) blacklist =
    has_app_component_name title && is_blacklisted (launched_component title).package_name blacklist

pub activity_of-Fate :
    (o : Option Text) (env : Env) (e : AppLaunchEvent) (s : AppLaunchEventState)
    → has_value o ≡ true
    → Sound (activity s)
    → (title_blacklisted o s.blacklist && busy (activity s)) ≡ false
    → Fate activity_launched s (activity_of o env e s)
activity_of-Fate none env e s has sound expected = absurd (ground arith)
activity_of-Fate (some title) env e s has sound expected =
    elim (Bool-cases (not (has_app_component_name title))) [
      | inl h ↦ rw (if_true h) (s, refl, (sound, refl), refl)
      | inr h ↦
          rw (if_false h)
            (activity_named-Fate env e (launched_component title) s sound (ground arith))
    ]

pub on_intent_failed-Fate :
    (s : AppLaunchEventState) → Sound (activity s) → Fate intent_failed s (ok (on_intent_failed s))
unfolding on_intent_failed
on_intent_failed-Fate s sound = elim (Bool-cases (component_blacklisted s)) [
  | inl h ↦ rw (if_true h) (s, refl, idle-Ready intent_failed (activity s) (ground arith), refl)
  | inr h ↦
      let s' = finish_read_ahead (abort_trace s) in
      let k = fail_chain-activity s'.history_id_subscriber s' in
      rw (if_false h) (
        _,
        refl,
        idle-Ready intent_failed _ (ap busy k ∙ aborted s),
        ap (λ a. a.blacklist) k ∙ aborted_blacklist s,
      )
]

pub on_activity_launch_cancelled-Fate :
    (s : AppLaunchEventState)
    → Sound (activity s)
    → Fate activity_launch_cancelled s (ok (on_activity_launch_cancelled s))
unfolding on_activity_launch_cancelled
on_activity_launch_cancelled-Fate s sound = elim (Bool-cases (component_blacklisted s)) [
  | inl h ↦
      rw (if_true h)
        (s, refl, idle-Ready activity_launch_cancelled (activity s) (ground arith), refl)
  | inr h ↦ rw (if_false h) (aborted-Fate activity_launch_cancelled s)
]

pub on_report_fully_drawn-Fate :
    (e : AppLaunchEvent) (s : AppLaunchEventState)
    → busy (activity s) ≡ false
    → Fate report_fully_drawn s (ok (on_report_fully_drawn e s))
unfolding on_report_fully_drawn
on_report_fully_drawn-Fate e s idle = elim (Bool-cases (component_blacklisted s)) [
  | inl h ↦ rw (if_true h) (s, refl, idle-Ready report_fully_drawn (activity s) idle, refl)
  | inr h ↦
      let k = drawn_of-activity s.recent_history_id e s in
      rw (if_false h)
        (_, refl, idle-Ready report_fully_drawn _ (ap busy k ∙ idle), ap (λ a. a.blacklist) k)
]

pending_of-quiet :
    (o : Option ℕ) (s : AppLaunchEventState)
    → has_value o ≡ true
    → (s' : AppLaunchEventState) × (pending_of o s ≡ ok s')
      × (s'.is_tracing ≡ false)
      × (s'.blacklist ≡ s.blacklist)
pending_of-quiet none s has = absurd (ground arith)
pending_of-quiet (some l) s has = (_, refl, refl, refl)

mark_pending_trace-quiet :
    (s : AppLaunchEventState)
    → Sound (activity s)
    → (s' : AppLaunchEventState) × ((if s.is_tracing then mark_pending_trace s else ok s) ≡ ok s')
      × (s'.is_tracing ≡ false)
      × (s'.blacklist ≡ s.blacklist)
unfolding mark_pending_trace
mark_pending_trace-quiet s sound = elim (Bool-cases s.is_tracing) [
  | inl h ↦ rw (if_true h, dcheck-true h) (pending_of-quiet s.rx_lifetime s (ground arith))
  | inr h ↦ rw (if_false h) (s, refl, h, refl)
]

pub on_activity_launch_finished-Fate :
    (env : Env) (e : AppLaunchEvent) (s : AppLaunchEventState)
    → Sound (activity s)
    → Fate activity_launch_finished s (on_activity_launch_finished env e s)
unfolding on_activity_launch_finished
on_activity_launch_finished-Fate env e s sound = elim (Bool-cases (component_blacklisted s)) [
  | inl h ↦
      rw (if_true h)
        (s, refl, idle-Ready activity_launch_finished (activity s) (ground arith), refl)
  | inr h ↦
      let s0 = record s { total_time_ns = timestamp_or s.total_time_ns e.timestamp_nanos } in
      let k = record_db_launch_history-activity env s0 in
      let (s', e', quiet, same) =
        mark_pending_trace-quiet (record_db_launch_history env s0) (subst Sound (sym k) sound) in
      let f = finish_read_ahead-activity s' in
      rw (if_false h, e')
        (
          finish_read_ahead s',
          refl,
          idle-Ready activity_launch_finished _ (ap busy f ∙ ground arith),
          ap (λ a. a.blacklist) f ∙ same ∙ ap (λ a. a.blacklist) k,
        )
]
