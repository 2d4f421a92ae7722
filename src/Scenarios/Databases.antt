-- ===== src/Scenarios/Databases.antt =====
-- Databases with concrete rows.
use android_system_iorap.Prelude.{
  ℕ, ◌≡◌, refl, Bool, true, false, to_int, List, [], ◌∷◌, ◌++◌, Option, none, some, arith, pos, map,
}
use android_system_iorap.Prelude.Texts.{text}
use android_system_iorap.Prelude.Outcome.{Outcome, ok, ◌>>=◌}
use android_system_iorap.Traces.{select_traces}
use android_system_iorap.Database.{
  PackageModel, ActivityModel, AppLaunchHistoryModel, Database, VersionedComponentName,
  delete_where,
}
use android_system_iorap.Database.Queries.{
  select_packages_by_name, insert_package, insert_activity, select_or_insert, select_package,
  history_joins, select_raw_traces, select_prefetch_file,
}
use android_system_iorap.Database.Integrity.{IsConsistent}
use android_system_iorap.Database.Select.{HasOneVersion, select_or_insert-again}
use android_system_iorap.Database.CleanUp.{CleanUpState, clean_up_files_for_activity}
use android_system_iorap.Database.Cleaned.{without_file, path_of, clean_up_files_for_activity_exact}
use android_system_iorap.Database.CleanUp.{clean_up_database, clean_up_all}
use android_system_iorap.Prelude.Assoc.{find}
use android_system_iorap.Prelude.{text_key}
use android_system_iorap.Versions.{VersionMap, find_version}
use android_system_iorap.Database.Stale.{clean_up_database-installed}
use android_system_iorap.Maintenance.Compile.{}

abbrev cold_launch : ℕ → ℕ → AppLaunchHistoryModel
cold_launch id activity_id = record {
  id = id;
  activity_id = activity_id;
  temperature = 1;
  trace_enabled = true;
  readahead_enabled = false;
  intent_started_ns = some 10;
  total_time_ns = some 50;
  report_fully_drawn_ns = none;
}

-- Two packages with an activity each; that of the first one has two raw traces and two prefetch files.
abbrev pub rows : Database
rows = record {
  packages =
      record { id = 1; name = text "com.a"; version = pos 7 }
      ∷ record { id = 2; name = text "com.b"; version = pos 8 }
      ∷ [];
  activities =
      record { id = 1; name = text ".Main"; package_id = 1 }
      ∷ record { id = 2; name = text ".Main"; package_id = 2 }
      ∷ [];
  app_launch_histories = cold_launch 1 1 ∷ cold_launch 2 2 ∷ cold_launch 3 1 ∷ [];
  raw_traces =
      record { id = 1; history_id = 1; file_path = text "/a/1" }
      ∷ record { id = 2; history_id = 2; file_path = text "/b/2" }
      ∷ record { id = 3; history_id = 3; file_path = text "/a/3" }
      ∷ [];
  prefetch_files =
      record { id = 1; activity_id = 1; file_path = text "/a/c" }
      ∷ record { id = 2; activity_id = 1; file_path = text "/a/c" }
      ∷ [];
}

pub rows-IsConsistent : IsConsistent rows
rows-IsConsistent = record {
  packages_keyed = ((omega arith, tt), (tt, tt));
  activities_keyed = ((omega arith, tt), (tt, tt));
  histories_keyed = ((omega arith, (omega arith, tt)), ((omega arith, tt), (tt, tt)));
  raw_traces_keyed = ((omega arith, (omega arith, tt)), ((omega arith, tt), (tt, tt)));
  prefetch_files_keyed = ((omega arith, tt), (tt, tt));
  activities_refer = (refl, (refl, tt));
  histories_refer = (refl, (refl, (refl, tt)));
  raw_traces_refer = (refl, (refl, (refl, tt)));
  prefetch_files_refer = (refl, (refl, tt));
}

select_or_insert-again_example :
    (a : ActivityModel) × (db' : Database) × (p : PackageModel) × (select_or_insert true true
        (text "com.c")
        (pos 4294967303)
        (text ".Main")
        rows
      ≡ ok (some a, db'))
    × IsConsistent db'
    × HasOneVersion (text "com.c") (pos 4294967303) db'.packages
    × ((rest : List PackageModel) × (select_packages_by_name (text "com.c") db' ≡ p ∷ rest))
    × (select_package (text "com.c") (pos 4294967303) db' ≡ some p)
    × ((a.name ≡ text ".Main") × (a.package_id ≡ p.id))
    × ((v w : Bool)
        → select_or_insert v w (text "com.c") (pos 4294967303) (text ".Main") db'
          ≡ ok (some a, db'))
select_or_insert-again_example =
    select_or_insert-again (text "com.c") (pos 4294967303) (text ".Main") rows rows-IsConsistent
      (refl, (refl, tt))

-- Another version of a package is not selected: a second package with its name is inserted.
abbrev packages_behind : Outcome (Option ActivityModel × Database) → Outcome (List PackageModel)
packages_behind m = m >>= λ r. ok r.1.packages

other_version :
    packages_behind (select_or_insert true true (text "com.a") (pos 8) (text ".Main") rows)
    ≡ ok (rows.packages ++ record { id = 3; name = text "com.a"; version = pos 8 } ∷ [])
unfolding select_or_insert insert_package insert_activity to_int
other_version = refl

abbrev component : VersionedComponentName
component = record { package_name = text "com.a"; activity_name = text ".Main"; version = pos 7 }

abbrev before : CleanUpState
before = record { db = rows; removed = [] }

clean_up_files_for_activity_exact_example :
    clean_up_files_for_activity (λ path. true) component before
    ≡ ok (record {
      db = record rows {
        raw_traces = delete_where (λ t. history_joins component rows t.history_id) rows.raw_traces;
        prefetch_files = without_file (select_prefetch_file component rows) rows.prefetch_files;
      };
      removed =
          []
          ++ (map (λ t. t.file_path) (select_raw_traces component rows)
              ++ path_of (select_prefetch_file component rows));
    })
clean_up_files_for_activity_exact_example =
    clean_up_files_for_activity_exact (λ path. true) (λ path. refl) component before
      rows-IsConsistent.raw_traces_keyed

-- The second row of the activity's prefetch file stays.
cleaned :
    clean_up_files_for_activity (λ path. true) component before
    ≡ ok (record {
      db = record rows {
        raw_traces = record { id = 2; history_id = 2; file_path = text "/b/2" } ∷ [];
        prefetch_files = record { id = 2; activity_id = 1; file_path = text "/a/c" } ∷ [];
      };
      removed = text "/a/1" ∷ text "/a/3" ∷ text "/a/c" ∷ [];
    })
unfolding select_traces to_int
cleaned =
    clean_up_files_for_activity_exact (λ path. true) (λ path. refl) component before
      rows-IsConsistent.raw_traces_keyed

-- The installed version of com.b is 9.
abbrev installed : VersionMap
installed = (text "com.b", pos 9) ∷ (text "com.a", pos 7) ∷ []

clean_up_database-installed_example :
    (s' : CleanUpState) × (clean_up_database
        (λ path. true)
        (λ id. true)
        true
        (some installed)
        before
      ≡ ok s')
    × IsConsistent s'.db
    × (s'.db.packages ≡ record { id = 1; name = text "com.a"; version = pos 7 } ∷ [])
unfolding find
clean_up_database-installed_example =
    clean_up_database-installed (λ path. true) (λ path. refl) (λ id. true) (λ id. refl) installed
      before rows-IsConsistent (refl, (refl, tt))

-- A package that the map does not know stays.
abbrev packages_of : Outcome CleanUpState → Outcome (List PackageModel)
packages_of m = m >>= λ s. ok s.db.packages

unknown_stays :
    packages_of (
      clean_up_database (λ path. true) (λ id. true) true (some ((text "com.b", pos 8) ∷ [])) before)
    ≡ ok rows.packages
unfolding clean_up_all find find_version
unknown_stays = refl
