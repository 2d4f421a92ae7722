-- ===== src/Launch/Trace.antt =====
-- The tracing operations of AppLaunchEventState in src/manager/event_manager.cc.
use android_system_iorap.Prelude.{
  ℕ, Bool, true, false, not, List, [], ◌∷◌, ◌++◌, Option, none, some, if◌then◌else◌, ◌==◌, Text, ℤ,
  to_int,
}
use android_system_iorap.Prelude.Outcome.{Outcome, ok, fatal}
use android_system_iorap.Component.{AppComponentName}
use android_system_iorap.Versions.{PackageVersionMap, get_or_query}
use android_system_iorap.Launch.State.{
  Env, AppLaunchEventState, emit, dcheck, start_trace, unsubscribe,
}

abbrev pub subscribe_trace :
    Env
    → AppComponentName
    → Option ℤ × PackageVersionMap
    → AppLaunchEventState
    → AppLaunchEventState
subscribe_trace env c (none, m) s = record s { version_map = m; rx_lifetime = none }
subscribe_trace env c (some version, m) s =
    emit (start_trace env.subscribe_async s.history_id_observable c (to_int version))
      (record s { version_map = m; is_tracing = true; rx_lifetime = some env.subscribe_async })

-- The version is asked for component_name_, and it is undefined behaviour if that is empty.
abbrev pub trace_named :
    Env
    → AppComponentName
    → Option AppComponentName
    → AppLaunchEventState
    → Outcome AppLaunchEventState
trace_named env c none s = fatal
trace_named env c (some name) s =
    ok (
      subscribe_trace env c (get_or_query env.get_package_version name.package_name s.version_map)
        s)

-- `rx_lifetime_ = StartTracing(component_name)`
unfoldable pub start_tracing :
    Env → AppComponentName → AppLaunchEventState → Outcome AppLaunchEventState
start_tracing env c s =
    dcheck s.allowed_tracing (dcheck (not s.is_tracing) (trace_named env c s.component_name s))

-- What the subscriber of a trace does when the trace has come, in order.
pub data TraceStep : Type 0 where
  write_trace delete_older_files : Text → TraceStep
  insert_raw_trace : (history_id : ℕ) (file_path : Text) → TraceStep

-- The answers are those of MkdirWithParents, WriteFullyToFile and RawTraceModel::Insert.
unfoldable pub on_trace : (mkdirs written inserted : Bool) → ℕ → Text → List TraceStep
on_trace mkdirs written inserted history_id file_path =
    if not mkdirs
    then []
    else if not written
    then write_trace file_path ∷ []
    else if not inserted
    then write_trace file_path ∷ insert_raw_trace history_id file_path ∷ []
    else write_trace file_path
      ∷ insert_raw_trace history_id file_path
      ∷ delete_older_files file_path
      ∷ []

-- std::remove
abbrev pub remove : ℕ → List ℕ → List ℕ
remove x [] = []
remove x (y ∷ ys) = if y == x then remove x ys else y ∷ remove x ys

-- A trace that runs is stopped; its subscription, if there is one, is given up.
abbrev pub abort_of : Bool → Option ℕ → AppLaunchEventState → AppLaunchEventState
abort_of false lifetime s = s
abort_of true none s = record s { is_tracing = false }
abort_of true (some lifetime) s = emit (unsubscribe lifetime) (record s {
  is_tracing = false;
  rx_in_flight = remove lifetime s.rx_in_flight;
  rx_lifetime = none;
})

-- AbortTrace
unfoldable pub abort_trace : AppLaunchEventState → AppLaunchEventState
abort_trace s = abort_of s.is_tracing s.rx_lifetime s

-- DCHECK(rx_lifetime_.has_value())
abbrev pub pending_of : Option ℕ → AppLaunchEventState → Outcome AppLaunchEventState
pending_of none s = fatal
pending_of (some lifetime) s = ok (record s {
  is_tracing = false;
  rx_in_flight = s.rx_in_flight ++ lifetime ∷ [];
  rx_lifetime = none;
})

-- MarkPendingTrace
unfoldable pub mark_pending_trace : AppLaunchEventState → Outcome AppLaunchEventState
mark_pending_trace s = dcheck s.is_tracing (pending_of s.rx_lifetime s)
