-- ===== src/Launch/State.antt =====
-- AppLaunchEventState of src/manager/event_manager.cc: its fields, what it calls, and its readahead
-- operations. The calls into ReadAhead, the rx chains and the database are recorded in order.
-- A failed DCHECK aborts, as it does in a debug build.
use android_system_iorap.Prelude.{
  ℕ, ◌-◌, ◌^◌, Bool, true, false, not, List, [], ◌∷◌, ◌++◌, Option, none, some, if◌then◌else◌, Text,
  same_text, ℤ, to_int,
}
use android_system_iorap.Prelude.Outcome.{Outcome, ok, fatal}
use android_system_iorap.Component.{AppComponentName, to_make_file_safe_encoded_pkg_string}
use android_system_iorap.Versions.{PackageVersionMap, get_or_query}
use android_system_iorap.Launch.{Temperature}

-- prefetcher::TaskId
pub record TaskId : Type 0 where
  pub id : ℕ
  pub path : Text

-- The columns of AppLaunchHistoryModel::Insert; `report_fully_drawn_ns` is empty at that time.
pub record HistoryRow : Type 0 where
  pub activity_id : ℕ
  pub temperature : Temperature
  pub trace_enabled : Bool
  pub readahead_enabled : Bool
  pub intent_started_ns : Option ℕ
  pub total_time_ns : Option ℕ

-- A chain is the number of its observable, a lifetime that of its subscription.
pub data Effect : Type 0 where
  begin_task finish_task : TaskId → Effect
  start_trace : (lifetime : ℕ) (chain : Option ℕ) (name : AppComponentName) (version : ℤ) → Effect
  unsubscribe : ℕ → Effect
  history_next : (chain history_id : ℕ) → Effect
  history_error : (chain : ℕ) → Effect
  insert_launch : HistoryRow → Effect
  update_fully_drawn : (history_id timestamp_ns : ℕ) → Effect

-- What the state asks of the rest of the system during one event: the two properties, the package
-- manager, the database's tables, the file system, and the subscription of a new trace.
pub record Env : Type 0 where
  pub readahead_allowed : Bool
  pub tracing_allowed : Bool
  pub get_package_version : Text → Option ℤ
  pub select_prefetch_file : Text → Text → ℤ → Option Text
  pub exists : Text → Bool
  pub subscribe_async : ℕ
  pub select_or_insert_activity : Text → ℤ → Text → Option ℕ
  pub insert_history : HistoryRow → Option ℕ

pub record AppLaunchEventState : Type 0 where
  pub component_name : Option AppComponentName
  pub sequence_id : ℕ
  pub temperature : Option Temperature
  pub history_id_subscriber : Option ℕ
  pub history_id_observable : Option ℕ
  pub intent_started_ns : Option ℕ
  pub total_time_ns : Option ℕ
  pub recent_history_id : Option ℕ
  pub allowed_readahead : Bool
  pub read_ahead_task : Option TaskId
  pub allowed_tracing : Bool
  pub is_tracing : Bool
  pub rx_lifetime : Option ℕ
  pub rx_in_flight : List ℕ
  pub blacklist : List Text
  pub version_map : PackageVersionMap
  pub chains : ℕ
  pub effects : List Effect

-- The constructor; `chains` counts the history chains that were created.
abbrev pub new_state : Bool → Bool → List Text → PackageVersionMap → AppLaunchEventState
new_state allowed_readahead allowed_tracing blacklist version_map = record {
  component_name = none;
  sequence_id = 2 ^ 64 - 1;
  temperature = none;
  history_id_subscriber = none;
  history_id_observable = none;
  intent_started_ns = none;
  total_time_ns = none;
  recent_history_id = none;
  allowed_readahead = allowed_readahead;
  read_ahead_task = none;
  allowed_tracing = allowed_tracing;
  is_tracing = false;
  rx_lifetime = none;
  rx_in_flight = [];
  blacklist = blacklist;
  version_map = version_map;
  chains = 0;
  effects = [];
}

abbrev pub emit : Effect → AppLaunchEventState → AppLaunchEventState
emit e s = record s { effects = s.effects ++ e ∷ [] }

abbrev pub dcheck {ℓ} : {A : Type ℓ} → Bool → Outcome A → Outcome A
dcheck true k = k
dcheck false k = fatal

-- PackageBlacklister of the pieces between the semicolons, where `trim` is android::base::Trim.
abbrev pub blacklist_of : (Text → Text) → List Text → List Text
blacklist_of trim [] = []
blacklist_of trim (s ∷ split) = elim (trim s) [
  | [] ↦ blacklist_of trim split
  | c ∷ t ↦ (c ∷ t) ∷ blacklist_of trim split
]

unfoldable pub is_blacklisted : Text → List Text → Bool
is_blacklisted package_name [] = false
is_blacklisted package_name (p ∷ packages) =
    if same_text p package_name then true else is_blacklisted package_name packages

-- IsBlacklisted(component_name_)
abbrev pub component_blacklisted : AppLaunchEventState → Bool
component_blacklisted s = elim s.component_name [
  | none ↦ false
  | some c ↦ is_blacklisted c.package_name s.blacklist
]

abbrev pub has_value {ℓ} : {A : Type ℓ} → Option A → Bool
has_value none = false
has_value (some x) = true

abbrev pub is_read_ahead : AppLaunchEventState → Bool
is_read_ahead s = has_value s.read_ahead_task

abbrev pub prebuilt_directory : Text
prebuilt_directory =
    b'/' ∷ b'p' ∷ b'r' ∷ b'o' ∷ b'd' ∷ b'u' ∷ b'c' ∷ b't' ∷ b'/' ∷ b'i' ∷ b'o' ∷ b'r' ∷ b'a' ∷ b'p'
    ∷ b'-' ∷ b't' ∷ b'r' ∷ b'a' ∷ b'c' ∷ b'e' ∷ b'/' ∷ []

abbrev pub prebuilt_suffix : Text
prebuilt_suffix =
    b'.' ∷ b'c' ∷ b'o' ∷ b'm' ∷ b'p' ∷ b'i' ∷ b'l' ∷ b'e' ∷ b'd' ∷ b'_' ∷ b't' ∷ b'r' ∷ b'a' ∷ b'c'
    ∷ b'e' ∷ b'.' ∷ b'p' ∷ b'b' ∷ []

abbrev pub prebuilt_path : AppComponentName → Text
prebuilt_path c = prebuilt_directory ++ (to_make_file_safe_encoded_pkg_string c ++ prebuilt_suffix)

abbrev pub if_exists : Env → Text → Option Text → Option Text
if_exists env path otherwise = if env.exists path then some path else otherwise

-- GetCompiledTrace behind the version.
unfoldable pub find_compiled_trace : Env → AppComponentName → ℤ → Option Text
find_compiled_trace env c version =
    let prebuilt = if_exists env (prebuilt_path c) none in
    elim (env.select_prefetch_file c.package_name c.activity_name version) [
      | none ↦ prebuilt
      | some file_path ↦ if_exists env file_path prebuilt
    ]

abbrev pub compiled_trace_of :
    Env → AppComponentName → Option ℤ × PackageVersionMap → Option Text × PackageVersionMap
compiled_trace_of env c (none, m) = (none, m)
compiled_trace_of env c (some version, m) = (find_compiled_trace env c (to_int version), m)

-- GetCompiledTrace
unfoldable pub get_compiled_trace :
    Env → AppComponentName → PackageVersionMap → Option Text × PackageVersionMap
get_compiled_trace env c m =
    compiled_trace_of env c (get_or_query env.get_package_version c.package_name m)

abbrev pub begin_read_ahead :
    ℕ → Option Text × PackageVersionMap → AppLaunchEventState → AppLaunchEventState
begin_read_ahead id (none, m) s = record s { version_map = m }
begin_read_ahead id (some file_path, m) s =
    let task : TaskId = record { id = id; path = file_path } in
    emit (begin_task task) (record s { version_map = m; read_ahead_task = some task })

-- StartReadAhead
unfoldable pub start_read_ahead :
    Env → ℕ → AppComponentName → AppLaunchEventState → Outcome AppLaunchEventState
start_read_ahead env id c s = dcheck s.allowed_readahead (
    dcheck (not (is_read_ahead s))
      (ok (begin_read_ahead id (get_compiled_trace env c s.version_map) s)))

abbrev pub finish_task_of : Option TaskId → AppLaunchEventState → AppLaunchEventState
finish_task_of none s = s
finish_task_of (some task) s = emit (finish_task task) (record s { read_ahead_task = none })

-- FinishReadAhead, which AbortReadAhead calls.
unfoldable pub finish_read_ahead : AppLaunchEventState → AppLaunchEventState
finish_read_ahead s = finish_task_of s.read_ahead_task s
