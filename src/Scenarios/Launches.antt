-- ===== src/Scenarios/Launches.antt =====
-- Launch sequences on concrete events.
use android_system_iorap.Prelude.{
  ◌≡◌, refl, ◌↔◌, Bool, true, false, List, [], ◌∷◌, ◌++◌, none, some, Text, pos, negsuc, arith,
}
use android_system_iorap.Prelude.Outcome.{ok, fatal}
use android_system_iorap.Component.{
  canonicalize, has_app_component_name, has_char, from_string, before_char, after_char,
}
use android_system_iorap.Prelude.Assoc.{find, assign}
use android_system_iorap.Versions.{get_or_query}
use android_system_iorap.Launch.{
  uninitialized, intent_started, intent_failed, activity_launched, activity_launch_finished,
  AppLaunchEvent, cold,
}
use android_system_iorap.Launch.Defender.{defend}
use android_system_iorap.Launch.Diagram.{Follows, deliver_all, deliver_all-Follows, deliver_all_iff}
use android_system_iorap.Launch.State.{
  Env, new_state, is_blacklisted, find_compiled_trace, start_read_ahead, get_compiled_trace,
}
use android_system_iorap.Launch.Trace.{start_tracing}
use android_system_iorap.Launch.Handler.{
  on_new_event, on_event_type, on_intent_started, on_activity_launched, on_activity_launch_finished,
  start_both, start_late,
}
use android_system_iorap.Launch.Manager.{EventManager, on_app_launch_event, answer, run}
use android_system_iorap.Launch.Chains.{run-EndsOnce}
use android_system_iorap.Launch.Ending.{EndsOnce}
use android_system_iorap.Launch.Runs.{IsReady, on_app_launch_event-IsReady, run-IsReady}

-- Tracing is allowed, nothing is compiled yet, and every package has version 7.
abbrev tracing_env : Env
tracing_env = record {
  readahead_allowed = true;
  tracing_allowed = true;
  get_package_version = λ p. some (pos 7);
  select_prefetch_file = λ p a v. none;
  exists = λ p. false;
  subscribe_async = 50;
  select_or_insert_activity = λ p v a. some 21;
  insert_history = λ row. some 33;
}

abbrev intent_event : AppLaunchEvent
intent_event = record {
  type = intent_started;
  sequence_id = pos 1;
  intent_proto =
      some (record { has_component = true; package_name = b'a' ∷ []; class_name = b'c' ∷ [] });
  temperature = cold;
  activity_title = none;
  timestamp_nanos = pos 100;
}

abbrev launched_event : Text → AppLaunchEvent
launched_event title = record {
  type = activity_launched;
  sequence_id = pos 1;
  intent_proto = none;
  temperature = cold;
  activity_title = some title;
  timestamp_nanos = negsuc 0;
}

abbrev finished_event : AppLaunchEvent
finished_event = record (launched_event []) {
  type = activity_launch_finished;
  timestamp_nanos = pos 900;
}

abbrev title : Text → Text
title p = p ++ b'/' ∷ b'c' ∷ []

abbrev manager : List Text → EventManager
manager blacklist = record {
  last_event_type = uninitialized;
  launch = new_state true true blacklist (some []);
}

abbrev launch_sequence : List AppLaunchEvent
launch_sequence = intent_event ∷ launched_event (title (b'a' ∷ [])) ∷ finished_event ∷ []

-- An activity is launched without an intent, and a launch is left for a new one.
abbrev illegal_sequence : List AppLaunchEvent
illegal_sequence = launched_event (title (b'a' ∷ [])) ∷ intent_event ∷ intent_event ∷ []

softened :
    deliver_all uninitialized illegal_sequence
    ≡ intent_event ∷ record intent_event { type = intent_failed } ∷ []
unfolding deliver_all defend
softened = refl

deliver_all-Follows_example : Follows uninitialized (deliver_all uninitialized illegal_sequence)
deliver_all-Follows_example = deliver_all-Follows illegal_sequence

deliver_all_iff_example :
    Follows uninitialized launch_sequence
    ↔ (deliver_all uninitialized launch_sequence ≡ launch_sequence)
deliver_all_iff_example = deliver_all_iff launch_sequence

on_app_launch_event-IsReady_example :
    (b : Bool) × (m' : EventManager) × (on_app_launch_event tracing_env intent_event
        (manager ((b'z' ∷ []) ∷ []))
      ≡ ok (b, m'))
    × IsReady m'
    × (m'.launch.blacklist ≡ (b'z' ∷ []) ∷ [])
on_app_launch_event-IsReady_example =
    on_app_launch_event-IsReady tracing_env intent_event (manager ((b'z' ∷ []) ∷ []))
      (refl, ((λ t. refl), λ t. absurd (ground arith))) (λ t. absurd (ground arith))
      ((refl, refl, refl), refl)

run-IsReady_example :
    (m' : EventManager) × (run
        ((tracing_env, intent_event) ∷ (tracing_env, launched_event (title (b'a' ∷ []))) ∷ [])
        (manager [])
      ≡ ok m')
    × IsReady m'
run-IsReady_example =
    run-IsReady
      ((tracing_env, intent_event) ∷ (tracing_env, launched_event (title (b'a' ∷ []))) ∷ [])
      (manager [])
      (
        (refl, ((λ t. refl), λ t. absurd (ground arith))),
        ((refl, ((λ t. absurd (ground arith)), λ t. refl)), tt),
      )
      refl ((refl, refl, refl), refl)

run-EndsOnce_example :
    (m' : EventManager) × (run
        ((tracing_env, intent_event)
          ∷ (tracing_env, launched_event (title (b'a' ∷ [])))
          ∷ (tracing_env, finished_event)
          ∷ [])
        (manager [])
      ≡ ok m')
    × EndsOnce m'.launch
run-EndsOnce_example =
    run-EndsOnce
      ((tracing_env, intent_event)
        ∷ (tracing_env, launched_event (title (b'a' ∷ [])))
        ∷ (tracing_env, finished_event)
        ∷ [])
      (manager [])
      (
        (refl, ((λ t. refl), λ t. absurd (ground arith))),
        (
          (refl, ((λ t. absurd (ground arith)), λ t. refl)),
          ((refl, ((λ t. absurd (ground arith)), λ t. absurd (ground arith))), tt),
        ),
      )
      refl ((refl, refl, refl), refl)
      (λ c. (omega arith, (λ h. refl), (λ h. absurd (ground arith))))

-- A trace is begun for "a/c"; the launched activity is one of the blacklisted package "z", so the
-- trace goes on, and the next intent finds it running.
left_running :
    run
      ((tracing_env, intent_event)
        ∷ (tracing_env, launched_event (title (b'z' ∷ [])))
        ∷ (tracing_env, finished_event)
        ∷ (tracing_env, intent_event)
        ∷ [])
      (manager ((b'z' ∷ []) ∷ []))
    ≡ fatal
unfolding run on_app_launch_event answer defend on_new_event on_event_type on_intent_started
    on_activity_launched on_activity_launch_finished start_both start_late start_read_ahead
    start_tracing get_compiled_trace find_compiled_trace canonicalize is_blacklisted get_or_query
    has_app_component_name has_char from_string before_char after_char find assign
left_running = refl
