-- ===== src/Database/Integrity.antt =====
-- Referential integrity of the tables of src/db/models.h.
use android_system_iorap.Prelude.{
  ℕ, ◌≡◌, Bool, true, false, List, ◌++◌, arith, All, All-append, Text, ℤ,
}
use android_system_iorap.Database.{AppLaunchHistoryModel, Database, has_id}
use android_system_iorap.Database.Queries.{
  insert_package, insert_activity, insert_launch_history, insert_raw_trace, insert_prefetch_file,
}
use android_system_iorap.Database.Tables.{
  All-imp, IsKeyed, greatest_id-bounds, append-IsKeyed, has_id-append,
}

abbrev pub has_package : Database → ℕ → Bool
has_package db i = has_id (λ p. p.id) i db.packages

abbrev pub has_activity : Database → ℕ → Bool
has_activity db i = has_id (λ a. a.id) i db.activities

abbrev pub has_history : Database → ℕ → Bool
has_history db i = has_id (λ h. h.id) i db.app_launch_histories

-- The primary keys ascend, and every foreign key is that of a row.
pub record IsConsistent (db : Database) : Type 0 where
  pub packages_keyed : IsKeyed (λ p. p.id) db.packages
  pub activities_keyed : IsKeyed (λ a. a.id) db.activities
  pub histories_keyed : IsKeyed (λ h. h.id) db.app_launch_histories
  pub raw_traces_keyed : IsKeyed (λ t. t.id) db.raw_traces
  pub prefetch_files_keyed : IsKeyed (λ f. f.id) db.prefetch_files
  pub activities_refer : All (λ a. has_package db a.package_id ≡ true) db.activities
  pub histories_refer : All (λ h. has_activity db h.activity_id ≡ true) db.app_launch_histories
  pub raw_traces_refer : All (λ t. has_history db t.history_id ≡ true) db.raw_traces
  pub prefetch_files_refer : All (λ f. has_activity db f.activity_id ≡ true) db.prefetch_files

-- References stay good in a longer table.
still_refer {ℓ κ} :
    {A : Type ℓ} {B : Type κ} (id : B → ℕ) (key : A → ℕ) (rows : List A) (old more : List B)
    → All (λ r. has_id id (key r) old ≡ true) rows
    → All (λ r. has_id id (key r) (old ++ more) ≡ true) rows
still_refer id key rows old more =
    All-imp _ _ rows (λ r h. ground (arith, has_id-append id (key r) old more))

pub insert_package-IsConsistent :
    (works : Bool) (name : Text) (version : ℤ) (db : Database)
    → IsConsistent db
    → IsConsistent (insert_package works name version db).1
unfolding insert_package
insert_package-IsConsistent false name version db c = c
insert_package-IsConsistent true name version db c = record {
  packages_keyed =
      append-IsKeyed (λ p. p.id) db.packages _ c.packages_keyed
        (greatest_id-bounds (λ p. p.id) db.packages);
  activities_keyed = c.activities_keyed;
  histories_keyed = c.histories_keyed;
  raw_traces_keyed = c.raw_traces_keyed;
  prefetch_files_keyed = c.prefetch_files_keyed;
  activities_refer =
      still_refer (λ p. p.id) (λ a. a.package_id) db.activities db.packages _ c.activities_refer;
  histories_refer = c.histories_refer;
  raw_traces_refer = c.raw_traces_refer;
  prefetch_files_refer = c.prefetch_files_refer;
}

pub insert_activity-IsConsistent :
    (works : Bool) (name : Text) (package_id : ℕ) (db : Database)
    → has_package db package_id ≡ true
    → IsConsistent db
    → IsConsistent (insert_activity works name package_id db).1
unfolding insert_activity
insert_activity-IsConsistent false name package_id db h c = c
insert_activity-IsConsistent true name package_id db h c = record {
  packages_keyed = c.packages_keyed;
  activities_keyed =
      append-IsKeyed (λ a. a.id) db.activities _ c.activities_keyed
        (greatest_id-bounds (λ a. a.id) db.activities);
  histories_keyed = c.histories_keyed;
  raw_traces_keyed = c.raw_traces_keyed;
  prefetch_files_keyed = c.prefetch_files_keyed;
  activities_refer = All-append _ db.activities _ c.activities_refer (h, tt);
  histories_refer =
      still_refer (λ a. a.id) (λ h'. h'.activity_id) db.app_launch_histories db.activities _
        c.histories_refer;
  raw_traces_refer = c.raw_traces_refer;
  prefetch_files_refer =
      still_refer (λ a. a.id) (λ f. f.activity_id) db.prefetch_files db.activities _
        c.prefetch_files_refer;
}

pub insert_launch_history-IsConsistent :
    (works : Bool) (values : AppLaunchHistoryModel) (db : Database)
    → has_activity db values.activity_id ≡ true
    → IsConsistent db
    → IsConsistent (insert_launch_history works values db).1
unfolding insert_launch_history
insert_launch_history-IsConsistent false values db h c = c
insert_launch_history-IsConsistent true values db h c = record {
  packages_keyed = c.packages_keyed;
  activities_keyed = c.activities_keyed;
  histories_keyed =
      append-IsKeyed (λ g. g.id) db.app_launch_histories _ c.histories_keyed
        (greatest_id-bounds (λ g. g.id) db.app_launch_histories);
  raw_traces_keyed = c.raw_traces_keyed;
  prefetch_files_keyed = c.prefetch_files_keyed;
  activities_refer = c.activities_refer;
  histories_refer = All-append _ db.app_launch_histories _ c.histories_refer (h, tt);
  raw_traces_refer =
      still_refer (λ g. g.id) (λ t. t.history_id) db.raw_traces db.app_launch_histories _
        c.raw_traces_refer;
  prefetch_files_refer = c.prefetch_files_refer;
}

pub insert_raw_trace-IsConsistent :
    (works : Bool) (history_id : ℕ) (path : Text) (db : Database)
    → has_history db history_id ≡ true
    → IsConsistent db
    → IsConsistent (insert_raw_trace works history_id path db).1
unfolding insert_raw_trace
insert_raw_trace-IsConsistent false history_id path db h c = c
insert_raw_trace-IsConsistent true history_id path db h c = record {
  packages_keyed = c.packages_keyed;
  activities_keyed = c.activities_keyed;
  histories_keyed = c.histories_keyed;
  raw_traces_keyed =
      append-IsKeyed (λ t. t.id) db.raw_traces _ c.raw_traces_keyed
        (greatest_id-bounds (λ t. t.id) db.raw_traces);
  prefetch_files_keyed = c.prefetch_files_keyed;
  activities_refer = c.activities_refer;
  histories_refer = c.histories_refer;
  raw_traces_refer = All-append _ db.raw_traces _ c.raw_traces_refer (h, tt);
  prefetch_files_refer = c.prefetch_files_refer;
}

pub insert_prefetch_file-IsConsistent :
    (works : Bool) (activity_id : ℕ) (path : Text) (db : Database)
    → has_activity db activity_id ≡ true
    → IsConsistent db
    → IsConsistent (insert_prefetch_file works activity_id path db).1
unfolding insert_prefetch_file
insert_prefetch_file-IsConsistent false activity_id path db h c = c
insert_prefetch_file-IsConsistent true activity_id path db h c = record {
  packages_keyed = c.packages_keyed;
  activities_keyed = c.activities_keyed;
  histories_keyed = c.histories_keyed;
  raw_traces_keyed = c.raw_traces_keyed;
  prefetch_files_keyed =
      append-IsKeyed (λ f. f.id) db.prefetch_files _ c.prefetch_files_keyed
        (greatest_id-bounds (λ f. f.id) db.prefetch_files);
  activities_refer = c.activities_refer;
  histories_refer = c.histories_refer;
  raw_traces_refer = c.raw_traces_refer;
  prefetch_files_refer = All-append _ db.prefetch_files _ c.prefetch_files_refer (h, tt);
}
