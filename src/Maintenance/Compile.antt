-- ===== src/Maintenance/Compile.antt =====
-- The compilation of activities and packages in src/maintenance/controller.cc. What the file system, the
-- forked compiler and the database's inserts answer may depend on all that was done before.
use android_system_iorap.Prelude.{
  ℕ, ◌+◌, ◌-◌, ◌%◌, ◌^◌, ltb, ◌==◌, Bool, true, false, not, ◌&&◌, List, [], ◌∷◌, ◌++◌, Option, none,
  some, if◌then◌else◌, Text, ℤ, length,
}
use android_system_iorap.Prelude.Outcome.{Outcome, ok, fatal, ◌>>=◌}
use android_system_iorap.Launch.State.{has_value}
use android_system_iorap.Compiler.Output.{CompilationInput}
use android_system_iorap.Database.{
  PackageModel, ActivityModel, AppLaunchHistoryModel, Database, VersionedComponentName,
}
use android_system_iorap.Database.Queries.{
  select_packages_by_name, select_package, select_activity, select_activities,
  select_activity_history_for_compile, select_raw_trace_by_history_id, select_prefetch_file,
  insert_prefetch_file,
}
use android_system_iorap.Database.Files.{
  compiled_trace_path, compiled_trace_dir, mkdir_with_parents,
}
use android_system_iorap.Maintenance.{ControllerParameters, fork_parameters, make_compiler_params}

-- What fork and waitpid tell of the compiler.
pub data ForkAnswer : Type 0 where
  fork_failed abnormal : ForkAnswer
  exited : ℕ → ForkAnswer

-- The tables, the directories, last_job_info_, and the argument lists the compiler was
-- started with.
pub record CompileState : Type 0 where
  pub db : Database
  pub dirs : List Text
  pub activities_last_compiled : ℕ
  pub last_run_ns : ℕ
  pub started : List (List Text)

pub record MaintenanceHost : Type 0 where
  pub root_path : Text
  pub exists : CompileState → Text → Bool
  pub can_mkdir : Text → Bool
  pub fork_answer : CompileState → List Text → ForkAnswer
  pub insert_works : CompileState → Bool
  pub time : CompileState → ℕ

abbrev pub limit_of : AppLaunchHistoryModel → ℕ
limit_of history = elim history.report_fully_drawn_ns [
  | some ns ↦ ns
  | none ↦ elim history.total_time_ns [ some ns ↦ ns | none ↦ 2 ^ 64 - 1 ]
]

-- GetPerfettoTraceInfo
unfoldable pub get_perfetto_trace_info :
    Database → List AppLaunchHistoryModel → List CompilationInput
get_perfetto_trace_info db [] = []
get_perfetto_trace_info db (history ∷ histories) =
    elim (select_raw_trace_by_history_id history.id db) [
      | none ↦ get_perfetto_trace_info db histories
      | some raw_trace ↦
          record { filename = raw_trace.file_path; timestamp_limit_ns = limit_of history }
          ∷ get_perfetto_trace_info db histories
    ]

-- The result of StartViaFork in the parent.
abbrev pub fork_result : ForkAnswer → Outcome Bool
fork_result fork_failed = fatal
fork_result abnormal = ok false
fork_result (exited status) = ok (status == 0)

-- The return value of an operation with the state it leaves.
abbrev pub Compiling : Type 0
Compiling = Outcome (Bool × CompileState)

module _ (host : MaintenanceHost) (params : ControllerParameters) where
  -- Behind a compilation that worked.
  abbrev pub insert_compiled : ℕ → Text → CompileState → Bool × CompileState
  insert_compiled activity_id file_path s =
      let (compiled_trace, db) =
        insert_prefetch_file (host.insert_works s) activity_id file_path s.db in
      (has_value compiled_trace, record s { db = db })

  -- StartViaFork and what follows.
  abbrev pub start_via_fork : List CompilationInput → ℕ → Text → CompileState → Compiling
  start_via_fork perfetto_traces activity_id file_path s =
      let argv = make_compiler_params (fork_parameters perfetto_traces file_path params) in
      let s' : CompileState = record s { started = s.started ++ argv ∷ [] } in
      fork_result (host.fork_answer s argv) >>= λ compiled.
      ok (if compiled then insert_compiled activity_id file_path s' else (false, s'))

  -- With the directory of the output.
  abbrev pub compile_traces :
      List CompilationInput → VersionedComponentName → ℕ → CompileState → Compiling
  compile_traces perfetto_traces vcn activity_id s =
      let (made, dirs) =
        mkdir_with_parents host.can_mkdir (compiled_trace_dir host.root_path vcn) s.dirs in
      let s' : CompileState = record s { dirs = dirs } in
      if made
      then start_via_fork perfetto_traces activity_id (compiled_trace_path host.root_path vcn) s'
      else ok (false, s')

  abbrev pub count_compiled : CompileState → CompileState
  count_compiled s = record s {
    activities_last_compiled = (s.activities_last_compiled + 1) % 2 ^ 64;
  }

  abbrev pub compile_found :
      Option ActivityModel → VersionedComponentName → CompileState → Compiling
  compile_found none vcn s = ok (false, s)
  compile_found (some activity) vcn s =
      let perfetto_traces =
        get_perfetto_trace_info s.db (select_activity_history_for_compile activity.id s.db) in
      if ltb (length perfetto_traces) params.min_traces
      then ok (false, s)
      else compile_traces perfetto_traces vcn activity.id (count_compiled s)

  abbrev pub is_up_to_date : VersionedComponentName → CompileState → Bool
  is_up_to_date vcn s =
      not params.recompile
      && (host.exists s (compiled_trace_path host.root_path vcn)
          && has_value (select_prefetch_file vcn s.db))

  -- CompileActivity
  unfoldable pub compile_activity : ℕ → VersionedComponentName → CompileState → Compiling
  compile_activity package_id vcn s =
      if is_up_to_date vcn s
      then ok (true, s)
      else compile_found (select_activity vcn.activity_name package_id s.db) vcn s

  -- The loop over the activities, with `ret`.
  unfoldable pub compile_activities :
      PackageModel → ℤ → Bool → List ActivityModel → CompileState → Compiling
  compile_activities p version ret [] s = ok (ret, s)
  compile_activities p version ret (a ∷ activities) s =
      compile_activity p.id
        (record { package_name = p.name; activity_name = a.name; version = version }) s
      >>= λ r. compile_activities p version (ret && r.0) activities r.1

  abbrev pub compile_package_found : Option PackageModel → ℤ → CompileState → Compiling
  compile_package_found none version s = ok (false, s)
  compile_package_found (some p) version s =
      compile_activities p version true (select_activities p.id s.db) s

  -- CompilePackage
  unfoldable pub compile_package : Text → ℤ → CompileState → Compiling
  compile_package package_name version s =
      compile_package_found (select_package package_name version s.db) version s

  -- The loop over the packages.
  unfoldable pub compile_packages : Bool → List PackageModel → CompileState → Compiling
  compile_packages ret [] s = ok (ret, s)
  compile_packages ret (p ∷ packages) s =
      compile_package p.name p.version s >>= λ r. compile_packages (ret && r.0) packages r.1

  -- CompileAppsOnDevice
  abbrev pub compile_apps_on_device : CompileState → Compiling
  compile_apps_on_device s =
      let s' : CompileState = record s { activities_last_compiled = 0 } in
      compile_packages true s'.db.packages s' >>= λ r.
      ok (r.0, record r.1 { last_run_ns = host.time r.1 })

  -- CompileSingleAppOnDevice
  abbrev pub compile_single_app_on_device : Text → CompileState → Compiling
  compile_single_app_on_device package_name s =
      compile_packages true (select_packages_by_name package_name s.db) s

  abbrev pub compile_in_package :
      Option PackageModel → VersionedComponentName → CompileState → Compiling
  compile_in_package none vcn s = ok (false, s)
  compile_in_package (some package_) vcn s = compile_activity package_.id vcn s

  -- Compile of an activity
  abbrev pub compile_component : VersionedComponentName → CompileState → Compiling
  compile_component vcn s =
      compile_in_package (select_package vcn.package_name vcn.version s.db) vcn s
