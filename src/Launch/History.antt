-- ===== src/Launch/History.antt =====
-- The launch history of AppLaunchEventState in src/manager/event_manager.cc.
use android_system_iorap.Prelude.{ℕ, Option, none, some, ℤ, to_int}
use android_system_iorap.Component.{AppComponentName}
use android_system_iorap.Versions.{PackageVersionMap, get_or_query}
use android_system_iorap.Launch.{Temperature}
use android_system_iorap.Launch.State.{
  Env, AppLaunchEventState, HistoryRow, emit, is_read_ahead, insert_launch, history_next,
  history_error,
}

-- The row of a launch of the given activity.
abbrev pub launch_row : ℕ → Temperature → AppLaunchEventState → HistoryRow
launch_row activity_id temperature s = record {
  activity_id = activity_id;
  temperature = temperature;
  trace_enabled = s.is_tracing;
  readahead_enabled = is_read_ahead s;
  intent_started_ns = s.intent_started_ns;
  total_time_ns = s.total_time_ns;
}

abbrev pub insert_row :
    Env → Option ℕ → Temperature → AppLaunchEventState → Option ℕ × AppLaunchEventState
insert_row env none t s = (none, s)
insert_row env (some activity_id) t s =
    let row = launch_row activity_id t s in (env.insert_history row, emit (insert_launch row) s)

abbrev pub insert_versioned :
    Env
    → AppComponentName
    → Temperature
    → Option ℤ × PackageVersionMap
    → AppLaunchEventState
    → Option ℕ × AppLaunchEventState
insert_versioned env c t (none, m) s = (none, record s { version_map = m })
insert_versioned env c t (some version, m) s =
    insert_row env (env.select_or_insert_activity c.package_name (to_int version) c.activity_name) t
      (record s { version_map = m })

abbrev pub insert_named :
    Env
    → Option AppComponentName
    → Option Temperature
    → AppLaunchEventState
    → Option ℕ × AppLaunchEventState
insert_named env none t s = (none, s)
insert_named env (some c) none s = (none, s)
insert_named env (some c) (some t) s =
    insert_versioned env c t (get_or_query env.get_package_version c.package_name s.version_map) s

-- InsertDbLaunchHistory: the id of the new row, if there is one.
unfoldable pub insert_db_launch_history : Env → AppLaunchEventState → Option ℕ × AppLaunchEventState
insert_db_launch_history env s = insert_named env s.component_name s.temperature s

-- The subscriber's chain is ended with the id of the row, or with an error.
abbrev pub end_chain : Option ℕ → Option ℕ → AppLaunchEventState → AppLaunchEventState
end_chain none history s = s
end_chain (some chain) none s =
    emit (history_error chain) (record s { recent_history_id = none; history_id_subscriber = none })
end_chain (some chain) (some id) s =
    emit (history_next chain id)
      (record s { recent_history_id = some id; history_id_subscriber = none })

abbrev pub end_chain_of : Option ℕ × AppLaunchEventState → AppLaunchEventState
end_chain_of (history, s) = end_chain s.history_id_subscriber history s

-- RecordDbLaunchHistory
unfoldable pub record_db_launch_history : Env → AppLaunchEventState → AppLaunchEventState
record_db_launch_history env s = end_chain_of (insert_db_launch_history env s)
