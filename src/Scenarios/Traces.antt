-- ===== src/Scenarios/Traces.antt =====
-- Deletions of raw traces on a concrete table.
use android_system_iorap.Prelude.{ℕ, ◌≡◌, refl, Bool, not, ◌==◌, [], ◌∷◌, Text, same_text, arith}
use android_system_iorap.Traces.{
  RawTraceModel, TraceStore, select_traces, delete_row, delete_first, delete_older_files,
}
use android_system_iorap.Traces.Oldest.{delete_older_files-newest}

abbrev row_at : ℕ → ℕ → Text → RawTraceModel
row_at id history_id file_path = record { id = id; history_id = history_id; file_path = file_path }

-- Traces 1, 2, 4 and 5 are of the component's launch 7, trace 3 is of another one.
abbrev five_traces : TraceStore
five_traces = record {
  raw_traces =
      row_at 1 7 (b'a' ∷ [])
      ∷ row_at 2 7 (b'b' ∷ [])
      ∷ row_at 3 8 (b'c' ∷ [])
      ∷ row_at 4 7 (b'd' ∷ [])
      ∷ row_at 5 7 (b'e' ∷ [])
      ∷ [];
  asked = [];
}

-- The file "a" cannot be removed.
abbrev not_a : Text → Bool
not_a p = not (same_text p (b'a' ∷ []))

pruned : delete_older_files 2 not_a (λ h. h == 7) five_traces ≡ record {
  raw_traces =
      row_at 1 7 (b'a' ∷ [])
      ∷ row_at 3 8 (b'c' ∷ [])
      ∷ row_at 4 7 (b'd' ∷ [])
      ∷ row_at 5 7 (b'e' ∷ [])
      ∷ [];
  asked = (b'a' ∷ []) ∷ (b'b' ∷ []) ∷ [];
}
unfolding delete_older_files delete_first delete_row select_traces
pruned = refl

delete_older_files-newest_example :
    let s' = delete_older_files 2 not_a (λ h. h == 7) five_traces in
    (s'.asked ≡ (b'a' ∷ []) ∷ (b'b' ∷ []) ∷ [])
    × (select_traces (λ h. h == 7) s'.raw_traces
        ≡ row_at 1 7 (b'a' ∷ []) ∷ row_at 4 7 (b'd' ∷ []) ∷ row_at 5 7 (b'e' ∷ []) ∷ [])
    × (select_traces (λ h. not (h == 7)) s'.raw_traces ≡ row_at 3 8 (b'c' ∷ []) ∷ [])
unfolding select_traces
delete_older_files-newest_example =
    delete_older_files-newest 2 not_a (λ h. h == 7) five_traces
      (
        (omega arith, (omega arith, (omega arith, (omega arith, tt)))),
        (
          (omega arith, (omega arith, (omega arith, tt))),
          ((omega arith, (omega arith, tt)), ((omega arith, tt), (tt, tt))),
        ),
      )
