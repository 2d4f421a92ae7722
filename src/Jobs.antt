-- ===== src/Jobs.antt =====
-- The jobs and package events of EventManager::Impl in src/manager/event_manager.cc. The handlers run on
-- one worker, and the tables are those of the schema's singleton.
pub mod Maintained
use android_system_iorap.Prelude.{
  ℕ, Bool, true, false, List, [], ◌∷◌, ◌++◌, Option, none, some, if◌then◌else◌, Text, ℤ,
}
use android_system_iorap.Prelude.Outcome.{Outcome, ok, ◌>>=◌}
use android_system_iorap.Versions.{VersionMap, PackageVersionMap, update_all, update}
use android_system_iorap.Database.{Database}
use android_system_iorap.Database.CleanUp.{
  CleanUpState, clean_up_files_for_package, clean_up_files_for_version, clean_up_database,
}
use android_system_iorap.Maintenance.{ControllerParameters}
use android_system_iorap.Maintenance.Compile.{
  CompileState, MaintenanceHost, compile_apps_on_device, compile_single_app_on_device,
}

-- What TaskResultCallbacks is told of a request.
pub data Notification : Type 0 where
  progress_began : ℕ → Notification
  completed : ℕ → Notification

pub record JobState : Type 0 where
  pub version_map : PackageVersionMap
  pub removed : List Text
  pub compile : CompileState
  pub notified : List Notification

-- `package_versions` is the answer of the package manager, `callbacks` whether callbacks_ can be locked.
pub record JobHost : Type 0 where
  pub package_versions : Option VersionMap
  pub can_remove : Text → Bool
  pub delete_works : ℕ → Bool
  pub foreign_keys : Bool
  pub maintenance : MaintenanceHost
  pub min_traces : ℕ
  pub verbose : Bool
  pub callbacks : Bool

pub record PackageChangeEvent : Type 0 where
  pub is_deleted : Bool
  pub package_name : Text
  pub version : ℤ

module _ (host : JobHost) where
  -- A clean up of the tables.
  abbrev pub clean_up : (CleanUpState → Outcome CleanUpState) → JobState → Outcome JobState
  clean_up f s = f (record { db = s.compile.db; removed = s.removed }) >>= λ c.
      ok (record s { removed = c.removed; compile = record s.compile { db = c.db } })

  abbrev pub parameters_of : Bool → ControllerParameters
  parameters_of verbose = record {
    output_text = false;
    inode_textcache = none;
    verbose = verbose;
    recompile = false;
    min_traces = host.min_traces;
  }

  abbrev pub compile_apps : JobState → Outcome JobState
  compile_apps s = compile_apps_on_device host.maintenance (parameters_of false) s.compile >>= λ r.
      ok (record s { compile = r.1 })

  -- StartMaintenance, as the jobs call it.
  unfoldable pub start_maintenance : JobState → Outcome JobState
  start_maintenance s =
      let version_map = update_all host.package_versions s.version_map in
      clean_up (clean_up_database host.can_remove host.delete_works host.foreign_keys version_map)
        (record s { version_map = version_map })
      >>= compile_apps

  -- NotifyProgress and NotifyComplete
  abbrev pub notify : Notification → JobState → JobState
  notify n s = if host.callbacks then record s { notified = s.notified ++ n ∷ [] } else s

  -- OnJobScheduledEvent, with the chain behind the subject.
  unfoldable pub on_job_scheduled_event : ℕ → JobState → Outcome JobState
  on_job_scheduled_event request_id s =
      start_maintenance (notify (progress_began request_id) s) >>= λ s'.
      ok (notify (completed request_id) s')

  -- OnPackageChanged behind the update of the map.
  abbrev pub clean_up_changed : Bool → Text → ℤ → JobState → Outcome (Bool × JobState)
  clean_up_changed true package_name version s = ok (true, s)
  clean_up_changed false package_name version s =
      clean_up (clean_up_files_for_version host.can_remove package_name version) s >>= λ s'.
      ok (true, s')

  -- OnPackageChanged
  unfoldable pub on_package_changed : PackageChangeEvent → JobState → Outcome (Bool × JobState)
  on_package_changed event s =
      if event.is_deleted
      then ok (true, s)
      else (let (changed, version_map) = update event.package_name event.version s.version_map in
          clean_up_changed changed event.package_name event.version
            (record s { version_map = version_map }))

  -- PurgePackage, which OnDexOptEvent calls.
  abbrev pub purge_package : Text → JobState → Outcome (Bool × JobState)
  purge_package package_name s =
      clean_up (clean_up_files_for_package host.can_remove package_name) s >>= λ s'. ok (true, s')

  -- CompilePackage
  abbrev pub compile_package_by_name : Text → JobState → Outcome (Bool × JobState)
  compile_package_by_name package_name s =
      compile_single_app_on_device host.maintenance (parameters_of host.verbose) package_name
        s.compile
      >>= λ r. ok (r.0, record s { compile = r.1 })
