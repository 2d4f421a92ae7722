-- ===== src/Database/Cleaned.antt =====
-- What CleanUpFilesForActivity of src/db/clean_up.cc and CleanUpDatabase of
-- src/maintenance/db_cleaner.cc leave.
use android_system_iorap.Prelude.{
  ℕ, ◌≡◌, refl, ◌∙◌, ◌==◌, Bool, true, List, [], ◌∷◌, ◌++◌, Option, none, some, arith, Bool-cases,
  inl, inr, Text, text_key, map, append-nil, append_assoc,
}
use android_system_iorap.Prelude.Outcome.{ok}
use android_system_iorap.Traces.{RawTraceModel, delete_row, select_traces}
use android_system_iorap.Database.{PrefetchFileModel, VersionedComponentName, delete_where}
use android_system_iorap.Database.Queries.{history_joins, select_raw_traces, select_prefetch_file}
use android_system_iorap.Database.Tables.{IsKeyed, delete_each, delete_each_self}
use android_system_iorap.Database.CleanUp.{
  CleanUpState, clean_up_raw_traces, clean_up_prefetch_file, clean_up_files_for_activity,
}

delete_row-where :
    (i : ℕ) (rows : List RawTraceModel) → delete_row i rows ≡ delete_where (λ t. t.id == i) rows
unfolding delete_row
delete_row-where i [] = refl
delete_row-where i (r ∷ rows) = ground (arith, delete_row-where i rows)

abbrev remove_rows : List RawTraceModel → List RawTraceModel → List RawTraceModel
remove_rows [] rows = rows
remove_rows (t ∷ ts) rows = remove_rows ts (delete_row t.id rows)

-- The selected rows are those of a test.
remove_rows-each :
    (b : ℕ → Bool) (sel rows : List RawTraceModel)
    → remove_rows (select_traces b sel) rows
      ≡ delete_each (λ t. t.id) (λ t. b t.history_id) sel rows
unfolding select_traces delete_row
remove_rows-each b [] rows = refl
remove_rows-each b (t ∷ sel) rows = elim (Bool-cases (b t.history_id)) [
  | inl mine ↦ rw (mine, delete_row-where t.id rows) (remove_rows-each b sel _)
  | inr other ↦ rw other (remove_rows-each b sel rows)
]

abbrev pub without_file : Option PrefetchFileModel → List PrefetchFileModel → List PrefetchFileModel
without_file none rows = rows
without_file (some f) rows = delete_where (λ g. g.id == f.id) rows

abbrev pub path_of : Option PrefetchFileModel → List Text
path_of none = []
path_of (some f) = f.file_path ∷ []

module _ (can_remove : Text → Bool) (can : (path : Text) → can_remove path ≡ true) where
  clean_up_raw_traces_ok :
      (ts : List RawTraceModel) (s : CleanUpState)
      → clean_up_raw_traces can_remove ts s
        ≡ ok (record {
          db = record s.db { raw_traces = remove_rows ts s.db.raw_traces };
          removed = s.removed ++ map (λ t. t.file_path) ts;
        })
  unfolding clean_up_raw_traces
  clean_up_raw_traces_ok [] s = rw (append-nil s.removed) refl
  clean_up_raw_traces_ok (t ∷ ts) s = rw (can t.file_path) (
      clean_up_raw_traces_ok ts _
      ∙ rw (append_assoc s.removed (t.file_path ∷ []) (map (λ t. t.file_path) ts)) refl)

  clean_up_prefetch_file_ok :
      (o : Option PrefetchFileModel) (s : CleanUpState)
      → clean_up_prefetch_file can_remove o s
        ≡ ok (record {
          db = record s.db { prefetch_files = without_file o s.db.prefetch_files };
          removed = s.removed ++ path_of o;
        })
  clean_up_prefetch_file_ok none s = rw (append-nil s.removed) refl
  clean_up_prefetch_file_ok (some f) s = rw (can f.file_path) refl

  -- If the files can be removed, the clean up of an activity removes the files of all raw traces that
  -- are joined to it and deletes exactly their rows, and then removes the file of its first prefetch
  -- file, if there is one, and deletes that row; no other table is changed.
  pub clean_up_files_for_activity_exact :
      (vcn : VersionedComponentName) (s : CleanUpState)
      → IsKeyed (λ t. t.id) s.db.raw_traces
      → clean_up_files_for_activity can_remove vcn s
        ≡ ok (record {
          db = record s.db {
            raw_traces = delete_where (λ t. history_joins vcn s.db t.history_id) s.db.raw_traces;
            prefetch_files = without_file (select_prefetch_file vcn s.db) s.db.prefetch_files;
          };
          removed =
              s.removed
              ++ (map (λ t. t.file_path) (select_raw_traces vcn s.db)
                  ++ path_of (select_prefetch_file vcn s.db));
        })
  unfolding clean_up_files_for_activity
  clean_up_files_for_activity_exact vcn s k =
      rw (clean_up_raw_traces_ok (select_raw_traces vcn s.db) s) (
        clean_up_prefetch_file_ok (select_prefetch_file vcn s.db) _
        ∙ rw
            (
              append_assoc s.removed (map (λ t. t.file_path) (select_raw_traces vcn s.db))
                  (path_of (select_prefetch_file vcn s.db)),
              remove_rows-each (history_joins vcn s.db) s.db.raw_traces s.db.raw_traces,
              delete_each_self (λ t. t.id) (λ t. history_joins vcn s.db t.history_id)
                  s.db.raw_traces k,
            )
            refl)
