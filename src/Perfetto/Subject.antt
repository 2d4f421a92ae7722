-- ===== src/Perfetto/Subject.antt =====
-- StateChangedSubject of src/perfetto/rx_producer.cc, which makes an rx stream of the states that perfetto
-- reports for a handle. A subject is bound to its handle before a state is reported.
use android_system_iorap.Prelude.{
  ℕ, Bool, true, false, not, ◌&&◌, ◌||◌, List, [], ◌∷◌, ◌++◌, Option, none, some, if◌then◌else◌,
  map, nat_key,
}
use android_system_iorap.Prelude.Outcome.{Outcome, ok, fatal, ◌>>=◌}
use android_system_iorap.Prelude.Assoc.{Assoc, find, assign, erase}

pub data PerfettoState : Type 0 where
  trace_failed connection_error session_not_found idle : PerfettoState
  connecting configured tracing trace_ended : PerfettoState

-- What the subscriber gets.
pub data Emission : Type 0 where
  on_next : PerfettoState → Emission
  on_error on_completed : Emission

pub record StateChangedSubject : Type 0 where
  pub last_state : PerfettoState
  pub deferred_start : Bool

abbrev pub new_subject : Bool → StateChangedSubject
new_subject deferred_start = record { last_state = idle; deferred_start = deferred_start }

-- The states that a callback may report.
abbrev pub is_reported : PerfettoState → Bool
is_reported trace_failed = true
is_reported connection_error = true
is_reported session_not_found = false
is_reported idle = false
is_reported connecting = true
is_reported configured = true
is_reported tracing = true
is_reported trace_ended = true

abbrev pub from_connecting : Bool → PerfettoState → Bool
from_connecting deferred_start trace_failed = false
from_connecting deferred_start connection_error = true
from_connecting deferred_start session_not_found = false
from_connecting deferred_start idle = false
from_connecting deferred_start connecting = false
from_connecting deferred_start configured = deferred_start
from_connecting deferred_start tracing = not deferred_start
from_connecting deferred_start trace_ended = false

-- From kConfigured, and from kTracing if not `configured_`.
abbrev pub from_configured : Bool → PerfettoState → Bool
from_configured configured_ trace_failed = true
from_configured configured_ connection_error = false
from_configured configured_ session_not_found = false
from_configured configured_ idle = false
from_configured configured_ connecting = false
from_configured configured_ configured = false
from_configured configured_ tracing = configured_
from_configured configured_ trace_ended = true

abbrev pub is_connection_error : PerfettoState → Bool
is_connection_error trace_failed = false
is_connection_error connection_error = true
is_connection_error session_not_found = false
is_connection_error idle = false
is_connection_error connecting = false
is_connection_error configured = false
is_connection_error tracing = false
is_connection_error trace_ended = false

abbrev pub follows : Bool → PerfettoState → PerfettoState → Bool
follows deferred_start trace_failed state = is_connection_error state
follows deferred_start connection_error state = false
follows deferred_start session_not_found state = false
follows deferred_start idle state = true
follows deferred_start connecting state = from_connecting deferred_start state
follows deferred_start configured state = deferred_start && from_configured true state
follows deferred_start tracing state = from_configured false state
follows deferred_start trace_ended state = false

-- DcheckValidStateTransition
unfoldable pub is_valid_state_transition : StateChangedSubject → PerfettoState → Bool
is_valid_state_transition s state = is_reported state && follows s.deferred_start s.last_state state

abbrev pub is_terminal_state : PerfettoState → Bool
is_terminal_state trace_failed = true
is_terminal_state connection_error = true
is_terminal_state session_not_found = false
is_terminal_state idle = false
is_terminal_state connecting = false
is_terminal_state configured = false
is_terminal_state tracing = false
is_terminal_state trace_ended = true

-- The switch over the state.
abbrev pub emissions_of : PerfettoState → Outcome (List Emission)
emissions_of trace_failed = ok (on_error ∷ [])
emissions_of connection_error = ok (on_error ∷ [])
emissions_of session_not_found = fatal
emissions_of idle = fatal
emissions_of connecting = ok (on_next connecting ∷ [])
emissions_of configured = ok (on_next configured ∷ [])
emissions_of tracing = ok (on_next tracing ∷ [])
emissions_of trace_ended = ok (on_next trace_ended ∷ on_completed ∷ [])

abbrev pub is_configured : PerfettoState → Bool
is_configured trace_failed = false
is_configured connection_error = false
is_configured session_not_found = false
is_configured idle = false
is_configured connecting = false
is_configured configured = true
is_configured tracing = false
is_configured trace_ended = false

-- OnStateChanged: the return value, the emissions, and the subject.
unfoldable pub on_state_changed :
    PerfettoState → StateChangedSubject → Outcome (Bool × List Emission × StateChangedSubject)
on_state_changed state s =
    if is_valid_state_transition s state
    then (emissions_of state >>= λ emissions. ok (
      not (is_terminal_state state) || (is_configured s.last_state && is_connection_error state),
      emissions,
      record s { last_state = state },
    ))
    else fatal

-- state_subject_map_, and what was emitted for the handles.
pub record StateSubjects : Type 0 where
  pub state_subject_map : Assoc ℕ StateChangedSubject
  pub emitted : List (ℕ × Emission)

abbrev pub keep_or_delete :
    ℕ → Bool × List Emission × StateChangedSubject → StateSubjects → StateSubjects
keep_or_delete handle (again, emissions, s) subjects = record {
  state_subject_map =
      if again
      then assign handle s subjects.state_subject_map
      else erase handle subjects.state_subject_map;
  emitted = subjects.emitted ++ map (λ e. (handle, e)) emissions;
}

abbrev pub callback_found :
    Option StateChangedSubject → ℕ → PerfettoState → StateSubjects → Outcome StateSubjects
callback_found none handle state subjects = ok subjects
callback_found (some s) handle state subjects =
    on_state_changed state s >>= λ r. ok (keep_or_delete handle r subjects)

-- CallbackOnStateChanged
unfoldable pub callback_on_state_changed : ℕ → PerfettoState → StateSubjects → Outcome StateSubjects
callback_on_state_changed handle state subjects =
    callback_found (find handle subjects.state_subject_map) handle state subjects

-- The callbacks of libperfetto, one after another.
unfoldable pub run_callbacks : List (ℕ × PerfettoState) → StateSubjects → Outcome StateSubjects
run_callbacks [] subjects = ok subjects
run_callbacks ((handle, state) ∷ callbacks) subjects =
    callback_on_state_changed handle state subjects >>= run_callbacks callbacks
