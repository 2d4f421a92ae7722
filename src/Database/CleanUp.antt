-- ===== src/Database/CleanUp.antt =====
-- The removal of files and rows in src/db/clean_up.cc and src/maintenance/db_cleaner.cc. An exception
-- of std::filesystem::remove is not caught and aborts; `can_remove` says for which paths there is none.
-- The DELETE of the row of a file is taken to work, as the code does not look at its result.
use android_system_iorap.Prelude.{
  ℕ, Bool, List, [], ◌∷◌, ◌++◌, Option, none, some, if◌then◌else◌, Text, ℤ, same_int,
}
use android_system_iorap.Prelude.Outcome.{Outcome, ok, fatal, ◌>>=◌}
use android_system_iorap.Traces.{RawTraceModel, delete_row}
use android_system_iorap.Versions.{PackageVersionMap, find_version}
use android_system_iorap.Database.{
  PackageModel, ActivityModel, PrefetchFileModel, Database, VersionedComponentName,
}
use android_system_iorap.Database.Queries.{
  select_packages_by_name, select_package, delete_package, select_activities, select_raw_traces,
  select_prefetch_file, delete_prefetch_file,
}

-- The tables, and the files that were removed.
pub record CleanUpState : Type 0 where
  pub db : Database
  pub removed : List Text

module _ (can_remove : Text → Bool) where
  abbrev pub remove_file : Text → CleanUpState → Outcome CleanUpState
  remove_file file_path s =
      if can_remove file_path
      then ok (record s { removed = s.removed ++ file_path ∷ [] })
      else fatal

  -- The loop over the raw traces.
  unfoldable pub clean_up_raw_traces : List RawTraceModel → CleanUpState → Outcome CleanUpState
  clean_up_raw_traces [] s = ok s
  clean_up_raw_traces (t ∷ raw_traces) s = remove_file t.file_path s >>= λ s'.
      clean_up_raw_traces raw_traces
        (record s' { db = record s'.db { raw_traces = delete_row t.id s'.db.raw_traces } })

  abbrev pub clean_up_prefetch_file : Option PrefetchFileModel → CleanUpState → Outcome CleanUpState
  clean_up_prefetch_file none s = ok s
  clean_up_prefetch_file (some f) s =
      remove_file f.file_path s >>= λ s'. ok (record s' { db = delete_prefetch_file f.id s'.db })

  -- CleanUpFilesForActivity
  unfoldable pub clean_up_files_for_activity :
      VersionedComponentName → CleanUpState → Outcome CleanUpState
  clean_up_files_for_activity vcn s = clean_up_raw_traces (select_raw_traces vcn s.db) s >>= λ s'.
      clean_up_prefetch_file (select_prefetch_file vcn s'.db) s'

  unfoldable pub clean_up_activities :
      Text → ℤ → List ActivityModel → CleanUpState → Outcome CleanUpState
  clean_up_activities name version [] s = ok s
  clean_up_activities name version (a ∷ activities) s =
      clean_up_files_for_activity
        (record { package_name = name; activity_name = a.name; version = version }) s
      >>= λ s'. clean_up_activities name version activities s'

  -- CleanUpFilesForPackage of a package's id
  unfoldable pub clean_up_files_for_package_id : ℕ → Text → ℤ → CleanUpState → Outcome CleanUpState
  clean_up_files_for_package_id package_id name version s =
      clean_up_activities name version (select_activities package_id s.db) s

  unfoldable pub clean_up_packages : List PackageModel → CleanUpState → Outcome CleanUpState
  clean_up_packages [] s = ok s
  clean_up_packages (p ∷ packages) s =
      clean_up_files_for_package_id p.id p.name p.version s >>= λ s'. clean_up_packages packages s'

  abbrev pub clean_up_found : Option PackageModel → Text → ℤ → CleanUpState → Outcome CleanUpState
  clean_up_found none name version s = ok s
  clean_up_found (some p) name version s = clean_up_files_for_package_id p.id name version s

  -- CleanUpFilesForPackage of a name and a version
  unfoldable pub clean_up_files_for_version : Text → ℤ → CleanUpState → Outcome CleanUpState
  clean_up_files_for_version name version s =
      clean_up_found (select_package name version s.db) name version s

  -- CleanUpFilesForPackage of a name
  unfoldable pub clean_up_files_for_package : Text → CleanUpState → Outcome CleanUpState
  clean_up_files_for_package name s = clean_up_packages (select_packages_by_name name s.db) s

  -- CleanUpFilesForDb
  unfoldable pub clean_up_files_for_db : CleanUpState → Outcome CleanUpState
  clean_up_files_for_db s = clean_up_packages s.db.packages s

  -- Whether the DELETE of a package works, and the foreign keys are enforced.
  module _ (delete_works : ℕ → Bool) (foreign_keys : Bool) where
    abbrev pub delete_package_row : ℕ → CleanUpState → CleanUpState
    delete_package_row id s =
        if delete_works id then record s { db = delete_package foreign_keys id s.db } else s

    abbrev pub clean_up_version : Option ℤ → PackageModel → CleanUpState → Outcome CleanUpState
    clean_up_version none p s = ok s
    clean_up_version (some version) p s =
        if same_int version p.version
        then ok s
        else clean_up_files_for_package_id p.id p.name p.version s >>= λ s'.
            ok (delete_package_row p.id s')

    -- The loop over the packages.
    unfoldable pub clean_up_all :
        PackageVersionMap → List PackageModel → CleanUpState → Outcome CleanUpState
    clean_up_all version_map [] s = ok s
    clean_up_all version_map (p ∷ packages) s = find_version p.name version_map >>= λ version.
        clean_up_version version p s >>= λ s'. clean_up_all version_map packages s'

    -- CleanUpDatabase
    abbrev pub clean_up_database : PackageVersionMap → CleanUpState → Outcome CleanUpState
    clean_up_database version_map s = clean_up_all version_map s.db.packages s
