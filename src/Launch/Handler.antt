-- ===== src/Launch/Handler.antt =====
-- AppLaunchEventState::OnNewEvent of src/manager/event_manager.cc, with a function for each case of
-- its switch.
use android_system_iorap.Prelude.{
  ℕ, ◌+◌, ◌-◌, ◌^◌, Bool, true, false, not, ◌&&◌, Option, none, some, Text, if◌then◌else◌, ℤ, pos,
  negsuc, is_negative,
}
use android_system_iorap.Prelude.Outcome.{Outcome, ok, fatal, ◌>>=◌}
use android_system_iorap.Component.{
  AppComponentName, canonicalize, has_app_component_name, from_string,
}
use android_system_iorap.Launch.{
  EventType, uninitialized, intent_started, intent_failed, activity_launched,
  activity_launch_finished, activity_launch_cancelled, report_fully_drawn, Temperature, cold,
  IntentProto, AppLaunchEvent,
}
use android_system_iorap.Launch.State.{
  Env, AppLaunchEventState, emit, dcheck, is_read_ahead, is_blacklisted, component_blacklisted,
  start_read_ahead, finish_read_ahead, history_error, update_fully_drawn,
}
use android_system_iorap.Launch.Trace.{start_tracing, abort_trace, mark_pending_trace}
use android_system_iorap.Launch.History.{record_db_launch_history}

-- A timestamp that is not negative, else what was there.
abbrev pub timestamp_or : Option ℕ → ℤ → Option ℕ
timestamp_or old (pos n) = some n
timestamp_or old (negsuc n) = old

-- static_cast<uint64_t>
abbrev pub to_uint64 : ℤ → ℕ
to_uint64 (pos n) = n
to_uint64 (negsuc n) = 2 ^ 64 - 1 - n

-- The new history chain of a launch sequence.
abbrev pub new_chain : AppLaunchEventState → AppLaunchEventState
new_chain s = record s {
  history_id_subscriber = some s.chains;
  history_id_observable = some s.chains;
  chains = s.chains + 1;
}

-- Readahead if it is allowed, and tracing if it is allowed and readahead has not started.
unfoldable pub start_both :
    Env → AppComponentName → AppLaunchEventState → Outcome AppLaunchEventState
start_both env c s =
    (if s.allowed_readahead then start_read_ahead env s.sequence_id c s else ok s) >>= λ s'.
    if s'.allowed_tracing && not (is_read_ahead s') then start_tracing env c s' else ok s'

-- The same at a launched activity, with the tests that stand there.
unfoldable pub start_late :
    Env → AppComponentName → AppLaunchEventState → Outcome AppLaunchEventState
start_late env c s =
    (if s.allowed_readahead && not (is_read_ahead s)
      then start_read_ahead env s.sequence_id c s
      else ok s)
    >>= λ s'.
        if s'.allowed_tracing && (not s'.is_tracing && not (is_read_ahead s'))
        then start_tracing env c s'
        else ok s'

abbrev pub intent_component : IntentProto → AppComponentName
intent_component p =
    canonicalize (record { package_name = p.package_name; activity_name = p.class_name })

-- The rest of the case behind the blacklist.
abbrev pub intent_started_for :
    Env → AppLaunchEvent → IntentProto → AppLaunchEventState → Outcome AppLaunchEventState
intent_started_for env event p s = dcheck (not s.is_tracing) (
    let s' = record s {
      intent_started_ns = timestamp_or s.intent_started_ns event.timestamp_nanos;
    } in
    if p.has_component then start_both env (intent_component p) s' else ok s')

-- The case behind the component's name.
abbrev pub intent_named :
    Env → AppLaunchEvent → IntentProto → AppLaunchEventState → Outcome AppLaunchEventState
intent_named env event p s =
    let c = intent_component p in
    let s' = record s { component_name = some c } in
    if is_blacklisted c.package_name s.blacklist
    then ok s'
    else intent_started_for env event p (new_chain s')

abbrev pub intent_of :
    Option IntentProto → Env → AppLaunchEvent → AppLaunchEventState → Outcome AppLaunchEventState
intent_of none env event s = fatal
intent_of (some p) env event s = intent_named env event p s

-- Type::kIntentStarted
unfoldable pub on_intent_started :
    Env → AppLaunchEvent → AppLaunchEventState → Outcome AppLaunchEventState
on_intent_started env event s = intent_of event.intent_proto env event s

abbrev pub fail_chain : Option ℕ → AppLaunchEventState → AppLaunchEventState
fail_chain none s = s
fail_chain (some chain) s = emit (history_error chain) (record s { history_id_subscriber = none })

-- Type::kIntentFailed
unfoldable pub on_intent_failed : AppLaunchEventState → AppLaunchEventState
on_intent_failed s =
    if component_blacklisted s
    then s
    else let s' = finish_read_ahead (abort_trace s) in fail_chain s'.history_id_subscriber s'

abbrev pub is_cold : Temperature → Bool
is_cold cold = true
is_cold _ = false

-- The rest of the case behind the blacklist.
abbrev pub activity_launched_for :
    Env → Temperature → AppComponentName → AppLaunchEventState → Outcome AppLaunchEventState
activity_launched_for env temperature c s =
    if not (is_cold temperature)
    then ok (finish_read_ahead (abort_trace s))
    else if not s.is_tracing && not (is_read_ahead s)
    then start_late env c s
    else ok s

-- The case behind the component's name.
abbrev pub activity_named :
    Env → AppLaunchEvent → AppComponentName → AppLaunchEventState → Outcome AppLaunchEventState
activity_named env event c s =
    let s' = record s { component_name = some c } in
    if is_blacklisted c.package_name s.blacklist
    then ok s'
    else activity_launched_for env event.temperature c
        (record s' { temperature = some event.temperature })

abbrev pub launched_component : Text → AppComponentName
launched_component title = canonicalize (from_string title)

abbrev pub activity_of :
    Option Text → Env → AppLaunchEvent → AppLaunchEventState → Outcome AppLaunchEventState
activity_of none env event s = fatal
activity_of (some title) env event s =
    if not (has_app_component_name title)
    then ok s
    else activity_named env event (launched_component title) s

-- Type::kActivityLaunched
unfoldable pub on_activity_launched :
    Env → AppLaunchEvent → AppLaunchEventState → Outcome AppLaunchEventState
on_activity_launched env event s = activity_of event.activity_title env event s

-- Type::kActivityLaunchFinished
unfoldable pub on_activity_launch_finished :
    Env → AppLaunchEvent → AppLaunchEventState → Outcome AppLaunchEventState
on_activity_launch_finished env event s =
    if component_blacklisted s
    then ok s
    else let s' =
        record_db_launch_history env
          (record s { total_time_ns = timestamp_or s.total_time_ns event.timestamp_nanos }) in
      (if s'.is_tracing then mark_pending_trace s' else ok s') >>= λ s''. ok (finish_read_ahead s'')

-- Type::kActivityLaunchCancelled
unfoldable pub on_activity_launch_cancelled : AppLaunchEventState → AppLaunchEventState
on_activity_launch_cancelled s =
    if component_blacklisted s then s else finish_read_ahead (abort_trace s)

abbrev pub drawn_of : Option ℕ → AppLaunchEvent → AppLaunchEventState → AppLaunchEventState
drawn_of none event s = s
drawn_of (some id) event s =
    emit (update_fully_drawn id (to_uint64 event.timestamp_nanos))
      (record s { recent_history_id = none })

-- Type::kReportFullyDrawn
unfoldable pub on_report_fully_drawn : AppLaunchEvent → AppLaunchEventState → AppLaunchEventState
on_report_fully_drawn event s =
    if component_blacklisted s then s else drawn_of s.recent_history_id event s

-- The switch of OnNewEvent; its default is DCHECK(false).
unfoldable pub on_event_type :
    EventType → Env → AppLaunchEvent → AppLaunchEventState → Outcome AppLaunchEventState
on_event_type intent_started env event s = on_intent_started env event s
on_event_type intent_failed env event s = ok (on_intent_failed s)
on_event_type activity_launched env event s = on_activity_launched env event s
on_event_type activity_launch_finished env event s = on_activity_launch_finished env event s
on_event_type activity_launch_cancelled env event s = ok (on_activity_launch_cancelled s)
on_event_type report_fully_drawn env event s = ok (on_report_fully_drawn event s)
on_event_type uninitialized env event s = fatal

-- What OnNewEvent sets before the switch.
abbrev pub refresh : Env → AppLaunchEvent → AppLaunchEventState → AppLaunchEventState
refresh env event s = record s {
  sequence_id = to_uint64 event.sequence_id;
  allowed_readahead = env.readahead_allowed;
  allowed_tracing = env.tracing_allowed;
}

-- OnNewEvent
unfoldable pub on_new_event :
    Env → AppLaunchEvent → AppLaunchEventState → Outcome AppLaunchEventState
on_new_event env event s =
    dcheck (not (is_negative event.sequence_id))
      (on_event_type event.type env event (refresh env event s))
