-- ===== src/Database.antt =====
-- The sqlite tables of src/db/models.h: their rows, and the operations on the rows that the models'
-- statements make. A table is the list of its rows in the order of their ids, in which sqlite returns
-- them; a new id is one more than the greatest one, as for a primary key of sqlite.
pub mod Queries
pub mod Tables
pub mod Integrity
pub mod Select
pub mod Cascade
pub mod Files
pub mod CleanUp
pub mod Cleaned
pub mod Stale
use android_system_iorap.Prelude.{
  ℕ, ◌+◌, ◌==◌, ltb, Bool, true, false, not, ◌||◌, List, [], ◌∷◌, ◌++◌, Option, none, some,
  if◌then◌else◌, Text, ℤ,
}
use android_system_iorap.Traces.{RawTraceModel}

pub record PackageModel : Type 0 where
  pub id : ℕ
  pub name : Text
  pub version : ℤ

pub record ActivityModel : Type 0 where
  pub id : ℕ
  pub name : Text
  pub package_id : ℕ

-- A temperature is its number: 1 cold, 2 warm, 3 hot.
pub record AppLaunchHistoryModel : Type 0 where
  pub id : ℕ
  pub activity_id : ℕ
  pub temperature : ℕ
  pub trace_enabled : Bool
  pub readahead_enabled : Bool
  pub intent_started_ns : Option ℕ
  pub total_time_ns : Option ℕ
  pub report_fully_drawn_ns : Option ℕ

pub record PrefetchFileModel : Type 0 where
  pub id : ℕ
  pub activity_id : ℕ
  pub file_path : Text

pub record Database : Type 0 where
  pub packages : List PackageModel
  pub activities : List ActivityModel
  pub app_launch_histories : List AppLaunchHistoryModel
  pub raw_traces : List RawTraceModel
  pub prefetch_files : List PrefetchFileModel

pub record VersionedComponentName : Type 0 where
  pub package_name : Text
  pub activity_name : Text
  pub version : ℤ

module _ {ℓ} {A : Type ℓ} where
  -- The rows that a WHERE clause selects.
  abbrev pub select_where : (A → Bool) → List A → List A
  select_where p [] = []
  select_where p (r ∷ rows) = if p r then r ∷ select_where p rows else select_where p rows

  -- The first of them.
  abbrev pub select_once : (A → Bool) → List A → Option A
  select_once p [] = none
  select_once p (r ∷ rows) = if p r then some r else select_once p rows

  abbrev pub delete_where : (A → Bool) → List A → List A
  delete_where p [] = []
  delete_where p (r ∷ rows) = if p r then delete_where p rows else r ∷ delete_where p rows

  module _ (id : A → ℕ) where
    abbrev pub has_id : ℕ → List A → Bool
    has_id i [] = false
    has_id i (r ∷ rows) = id r == i || has_id i rows

    abbrev pub greatest_id : List A → ℕ
    greatest_id [] = 0
    greatest_id (r ∷ rows) = let rest = greatest_id rows in if ltb rest (id r) then id r else rest

    abbrev pub next_id : List A → ℕ
    next_id rows = greatest_id rows + 1
