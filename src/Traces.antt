-- ===== src/Traces.antt =====
-- The raw traces of src/db/file_models.cc and RawTraceModel of src/db/models.h. A table is the list of
-- its rows in the order of their ids, which is the order that the query asks for. The joins of the
-- query decide on a row by its history id; that decision and what RemoveFileIfExists answers for a path
-- are arguments.
pub mod Oldest
use android_system_iorap.Prelude.{
  ℕ, zero, suc, ◌-◌, ◌==◌, ltb, Bool, List, [], ◌∷◌, ◌++◌, if◌then◌else◌, Text, length,
}

pub record RawTraceModel : Type 0 where
  pub id : ℕ
  pub history_id : ℕ
  pub file_path : Text

-- The table, and the files whose removal was asked for.
pub record TraceStore : Type 0 where
  pub raw_traces : List RawTraceModel
  pub asked : List Text

-- RawTraceModel::SelectByVersionedComponentName
unfoldable pub select_traces : (ℕ → Bool) → List RawTraceModel → List RawTraceModel
select_traces of_component [] = []
select_traces of_component (r ∷ rows) =
    if of_component r.history_id
    then r ∷ select_traces of_component rows
    else select_traces of_component rows

-- RawTraceModel::Delete
unfoldable pub delete_row : ℕ → List RawTraceModel → List RawTraceModel
delete_row id [] = []
delete_row id (r ∷ rows) = if r.id == id then delete_row id rows else r ∷ delete_row id rows

-- One round of the loop: the row stays if its file does.
abbrev pub delete_trace : (Text → Bool) → RawTraceModel → TraceStore → TraceStore
delete_trace remove_file r s = record {
  raw_traces = if remove_file r.file_path then delete_row r.id s.raw_traces else s.raw_traces;
  asked = s.asked ++ r.file_path ∷ [];
}

-- The loop over the first rows of the selection.
unfoldable pub delete_first : (Text → Bool) → ℕ → List RawTraceModel → TraceStore → TraceStore
delete_first remove_file zero rows s = s
delete_first remove_file (suc items) [] s = s
delete_first remove_file (suc items) (r ∷ rows) s =
    delete_first remove_file items rows (delete_trace remove_file r s)

abbrev pub items_to_delete : ℕ → ℕ → ℕ
items_to_delete max_traces selected = if ltb max_traces selected then selected - max_traces else 0

-- PerfettoTraceFileModel::DeleteOlderFiles
unfoldable pub delete_older_files : ℕ → (Text → Bool) → (ℕ → Bool) → TraceStore → TraceStore
delete_older_files max_traces remove_file of_component s =
    let raw_traces = select_traces of_component s.raw_traces in
    delete_first remove_file (items_to_delete max_traces (length raw_traces)) raw_traces s
