-- ===== src/Database/Queries.antt =====
-- The statements of the models in src/db/models.h. Whether an INSERT works is an argument. A version is
-- an int64_t for the callers, and an int in the rows and in the statements.
use android_system_iorap.Prelude.{
  ℕ, ◌==◌, Bool, true, false, ◌&&◌, List, [], ◌∷◌, ◌++◌, Option, none, some, if◌then◌else◌, Text,
  same_text, ℤ, same_int, to_int,
}
use android_system_iorap.Prelude.Outcome.{Outcome, ok, fatal}
use android_system_iorap.Traces.{RawTraceModel, select_traces}
use android_system_iorap.Launch.State.{has_value}
use android_system_iorap.Database.{
  PackageModel, ActivityModel, AppLaunchHistoryModel, PrefetchFileModel, Database,
  VersionedComponentName, select_where, select_once, delete_where, has_id, next_id,
}

abbrev pub select_packages_by_name : Text → Database → List PackageModel
select_packages_by_name name db = select_where (λ p. same_text p.name name) db.packages

abbrev pub select_package : Text → ℤ → Database → Option PackageModel
select_package name version db =
    select_once (λ p. same_text p.name name && same_int p.version (to_int version)) db.packages

unfoldable pub insert_package : Bool → Text → ℤ → Database → Option PackageModel × Database
insert_package false name version db = (none, db)
insert_package true name version db =
    let p : PackageModel = record {
      id = next_id (λ q. q.id) db.packages;
      name = name;
      version = to_int version;
    } in
    (some p, record db { packages = db.packages ++ p ∷ [] })

-- PackageModel::Delete, where the foreign keys cascade if they are enforced.
unfoldable pub delete_package : Bool → ℕ → Database → Database
delete_package false id db = record db { packages = delete_where (λ p. p.id == id) db.packages }
delete_package true id db =
    let activities = select_where (λ a. a.package_id == id) db.activities in
    let histories =
      select_where (λ h. has_id (λ a. a.id) h.activity_id activities) db.app_launch_histories in
    record {
      packages = delete_where (λ p. p.id == id) db.packages;
      activities = delete_where (λ a. a.package_id == id) db.activities;
      app_launch_histories =
          delete_where (λ h. has_id (λ a. a.id) h.activity_id activities) db.app_launch_histories;
      raw_traces = delete_where (λ t. has_id (λ h. h.id) t.history_id histories) db.raw_traces;
      prefetch_files =
          delete_where (λ f. has_id (λ a. a.id) f.activity_id activities) db.prefetch_files;
    }

abbrev pub select_activity : Text → ℕ → Database → Option ActivityModel
select_activity name package_id db =
    select_once (λ a. same_text a.name name && a.package_id == package_id) db.activities

abbrev pub select_activities : ℕ → Database → List ActivityModel
select_activities package_id db = select_where (λ a. a.package_id == package_id) db.activities

unfoldable pub insert_activity : Bool → Text → ℕ → Database → Option ActivityModel × Database
insert_activity false name package_id db = (none, db)
insert_activity true name package_id db =
    let a : ActivityModel = record {
      id = next_id (λ b. b.id) db.activities;
      name = name;
      package_id = package_id;
    } in
    (some a, record db { activities = db.activities ++ a ∷ [] })

abbrev pub package_or_insert :
    Option PackageModel → Bool → Text → ℤ → Database → Option PackageModel × Database
package_or_insert (some p) works name version db = (some p, db)
package_or_insert none works name version db = insert_package works name version db

abbrev pub activity_or_insert :
    Option ActivityModel → Bool → Text → ℕ → Database → Option ActivityModel × Database
activity_or_insert (some a) works name package_id db = (some a, db)
activity_or_insert none works name package_id db = insert_activity works name package_id db

abbrev pub activity_in :
    Option PackageModel × Database → Bool → Text → Outcome (Option ActivityModel × Database)
activity_in (none, db) works name = fatal
activity_in (some p, db) works name =
    ok (activity_or_insert (select_activity name p.id db) works name p.id db)

-- SelectOrInsert; the first two arguments say whether the INSERTs work.
unfoldable pub select_or_insert :
    Bool → Bool → Text → ℤ → Text → Database → Outcome (Option ActivityModel × Database)
select_or_insert package_works activity_works package_name package_version activity_name db =
    activity_in
      (package_or_insert (select_package package_name package_version db) package_works package_name
        package_version db)
      activity_works activity_name

abbrev pub select_activity_history_for_compile : ℕ → Database → List AppLaunchHistoryModel
select_activity_history_for_compile activity_id db =
    select_where
      (λ h.
        h.activity_id == activity_id
        && (h.temperature == 1 && (h.trace_enabled && has_value h.intent_started_ns)))
      db.app_launch_histories

unfoldable pub insert_launch_history :
    Bool → AppLaunchHistoryModel → Database → Option AppLaunchHistoryModel × Database
insert_launch_history false values db = (none, db)
insert_launch_history true values db =
    let h : AppLaunchHistoryModel = record values {
      id = next_id (λ g. g.id) db.app_launch_histories;
    } in
    (some h, record db { app_launch_histories = db.app_launch_histories ++ h ∷ [] })

unfoldable pub update_drawn : ℕ → ℕ → List AppLaunchHistoryModel → List AppLaunchHistoryModel
update_drawn id ns [] = []
update_drawn id ns (h ∷ rows) =
    (if h.id == id then record h { report_fully_drawn_ns = some ns } else h)
    ∷ update_drawn id ns rows

-- UpdateReportFullyDrawn
abbrev pub update_report_fully_drawn : ℕ → ℕ → Database → Database
update_report_fully_drawn id ns db = record db {
  app_launch_histories = update_drawn id ns db.app_launch_histories;
}

-- The joins of packages, activities and histories, over their primary keys.
abbrev pub is_package_of : VersionedComponentName → Option PackageModel → Bool
is_package_of vcn none = false
is_package_of vcn (some p) =
    same_text p.name vcn.package_name && same_int p.version (to_int vcn.version)

abbrev pub is_activity_of : VersionedComponentName → Database → Option ActivityModel → Bool
is_activity_of vcn db none = false
is_activity_of vcn db (some a) =
    same_text a.name vcn.activity_name
    && is_package_of vcn (select_once (λ p. p.id == a.package_id) db.packages)

abbrev pub activity_joins : VersionedComponentName → Database → ℕ → Bool
activity_joins vcn db activity_id =
    is_activity_of vcn db (select_once (λ a. a.id == activity_id) db.activities)

abbrev pub history_activity_joins :
    VersionedComponentName → Database → Option AppLaunchHistoryModel → Bool
history_activity_joins vcn db none = false
history_activity_joins vcn db (some h) = activity_joins vcn db h.activity_id

abbrev pub history_joins : VersionedComponentName → Database → ℕ → Bool
history_joins vcn db history_id =
    history_activity_joins vcn db (select_once (λ h. h.id == history_id) db.app_launch_histories)

abbrev pub select_raw_traces : VersionedComponentName → Database → List RawTraceModel
select_raw_traces vcn db = select_traces (history_joins vcn db) db.raw_traces

abbrev pub select_raw_trace_by_history_id : ℕ → Database → Option RawTraceModel
select_raw_trace_by_history_id history_id db =
    select_once (λ t. t.history_id == history_id) db.raw_traces

unfoldable pub insert_raw_trace : Bool → ℕ → Text → Database → Option RawTraceModel × Database
insert_raw_trace false history_id file_path db = (none, db)
insert_raw_trace true history_id file_path db =
    let t : RawTraceModel = record {
      id = next_id (λ u. u.id) db.raw_traces;
      history_id = history_id;
      file_path = file_path;
    } in
    (some t, record db { raw_traces = db.raw_traces ++ t ∷ [] })

abbrev pub select_prefetch_file : VersionedComponentName → Database → Option PrefetchFileModel
select_prefetch_file vcn db =
    select_once (λ f. activity_joins vcn db f.activity_id) db.prefetch_files

unfoldable pub insert_prefetch_file :
    Bool → ℕ → Text → Database → Option PrefetchFileModel × Database
insert_prefetch_file false activity_id file_path db = (none, db)
insert_prefetch_file true activity_id file_path db =
    let f : PrefetchFileModel = record {
      id = next_id (λ g. g.id) db.prefetch_files;
      activity_id = activity_id;
      file_path = file_path;
    } in
    (some f, record db { prefetch_files = db.prefetch_files ++ f ∷ [] })

abbrev pub delete_prefetch_file : ℕ → Database → Database
delete_prefetch_file id db = record db {
  prefetch_files = delete_where (λ f. f.id == id) db.prefetch_files;
}
