-- ===== src/Compiler/Output.antt =====
-- MakeCompilationInputs and PerformCompilation of src/compiler/compiler.cc: the files that are read and
-- the TraceFile that is written.
use android_system_iorap.Prelude.{
  ℕ, ◌+◌, ◌-◌, ◌*◌, ◌%◌, ◌^◌, ◌==◌, Bool, true, false, not, List, [], ◌∷◌, ◌++◌, Option, none, some,
  if◌then◌else◌, Text, text_key, pos, ℤ, as_int64, length,
}
use android_system_iorap.Prelude.Outcome.{Outcome, ok, ◌>>=◌}
use android_system_iorap.Prelude.Assoc.{Assoc, find, assign}
use android_system_iorap.Inodes.{Inode}
use android_system_iorap.Launch.State.{dcheck}
use android_system_iorap.Session.{TraceFile, TraceFileEntry}
use android_system_iorap.Compiler.{Trace}
use android_system_iorap.Compiler.Resolve.{
  InodeResult, PerfettoTracePtrInfo, ResolvedPageCacheFtraceEvent, keep_value,
  resolve_page_cache_entries_from_protos, apply_blacklist_to_page_cache_events,
}
use android_system_iorap.Compiler.Merge.{CompilerPageCacheEvent, compile_page_cache_events}

pub record CompilationInput : Type 0 where
  pub filename : Text
  pub timestamp_limit_ns : ℕ

abbrev pub repeat_max {ℓ} : {A : Type ℓ} → List A → List ℕ
repeat_max [] = []
repeat_max (x ∷ xs) = (2 ^ 64 - 1) ∷ repeat_max xs

abbrev pub limits_or_max : List Text → List ℕ → List ℕ
limits_or_max input_file_names [] = repeat_max input_file_names
limits_or_max input_file_names (t ∷ limits) = t ∷ limits

unfoldable pub zip_inputs : List Text → List ℕ → List CompilationInput
zip_inputs (f ∷ names) (t ∷ limits) =
    record { filename = f; timestamp_limit_ns = t } ∷ zip_inputs names limits
zip_inputs _ _ = []

-- MakeCompilationInputs
unfoldable pub make_compilation_inputs : List Text → List ℕ → Outcome (List CompilationInput)
make_compilation_inputs input_file_names timestamp_limit_ns =
    let limits = limits_or_max input_file_names timestamp_limit_ns in
    dcheck (length input_file_names == length limits) (ok (zip_inputs input_file_names limits))

-- The trace file, with the variables of the `tap` that fills it.
pub record TraceFileBuilder : Type 0 where
  pub trace_file : TraceFile
  pub file_path_map : Assoc Text ℕ
  pub file_handle_id : ℕ

abbrev pub empty_builder : TraceFileBuilder
empty_builder = record {
  trace_file = record { index = []; list = [] };
  file_path_map = [];
  file_handle_id = 0;
}

-- `static_cast<int64_t>(event.index) * kPageSize`, where an overflow wraps around.
abbrev pub file_offset_of : ℕ → ℤ
file_offset_of index = as_int64 (index * 4096 % 2 ^ 64)

abbrev pub new_entry : ℕ → CompilerPageCacheEvent → TraceFileEntry
new_entry file_handle e = record {
  index_id = pos file_handle;
  file_offset = file_offset_of e.index;
  file_length = pos 4096;
}

abbrev pub add_entry : ℕ → CompilerPageCacheEvent → TraceFileBuilder → TraceFileBuilder
add_entry file_handle e b = record b {
  trace_file = record b.trace_file { list = b.trace_file.list ++ new_entry file_handle e ∷ [] };
}

abbrev pub add_index_entry : CompilerPageCacheEvent → TraceFileBuilder → TraceFileBuilder
add_index_entry e b = record {
  trace_file = record b.trace_file {
    index = b.trace_file.index ++ record { id = pos b.file_handle_id; file_name = e.filename } ∷ [];
  };
  file_path_map = assign e.filename b.file_handle_id b.file_path_map;
  file_handle_id = b.file_handle_id + 1;
}

abbrev pub add_page : Option ℕ → CompilerPageCacheEvent → TraceFileBuilder → TraceFileBuilder
add_page none e b = add_entry b.file_handle_id e (add_index_entry e b)
add_page (some file_handle) e b = add_entry file_handle e b

-- The `tap`, if a protobuf is wanted.
unfoldable pub tap_event : CompilerPageCacheEvent → TraceFileBuilder → TraceFileBuilder
tap_event e b =
    if not e.add_to_page_cache then b else add_page (find e.filename b.file_path_map) e b

unfoldable pub tap_events : List CompilerPageCacheEvent → TraceFileBuilder → TraceFileBuilder
tap_events [] b = b
tap_events (e ∷ events) b = tap_events events (tap_event e b)

abbrev pub trace_file_of : List CompilerPageCacheEvent → TraceFile
trace_file_of events = (tap_events events empty_builder).trace_file

-- What the compilation asks of others: the traces that can be read and parsed, the rx library's
-- `distinct`, the inode resolver, what std::regex accepts and std::regex_search, and whether files can be
-- opened and written.
pub record CompilerHost : Type 0 where
  pub read_trace : Text → Option Trace
  pub distinct : List Inode → List Inode
  pub find_filenames : List Inode → List InodeResult
  pub is_regex : Text → Bool
  pub regex_search : Text → Text → Bool
  pub open_output : Text → Bool
  pub write_fully : TraceFile → Text → Bool

-- Events go to the log, or as text to a file.
pub data CompilationOutput : Type 0 where
  no_output : CompilationOutput
  logged : List CompilerPageCacheEvent → CompilationOutput
  text_output : Text → List CompilerPageCacheEvent → CompilationOutput
  proto_output : Text → TraceFile → CompilationOutput

abbrev pub trace_info : ℕ → Option Trace → Option PerfettoTracePtrInfo
trace_info limit none = none
trace_info limit (some trace) = some (record { trace = trace; timestamp_limit_ns = limit })

-- ReadPerfettoTraceProtos: traces that cannot be read or parsed are dropped.
unfoldable pub read_perfetto_trace_protos :
    (Text → Option Trace) → List CompilationInput → List PerfettoTracePtrInfo
read_perfetto_trace_protos read_trace [] = []
read_perfetto_trace_protos read_trace (f ∷ file_infos) =
    keep_value (trace_info f.timestamp_limit_ns (read_trace f.filename))
      (read_perfetto_trace_protos read_trace file_infos)

-- The events that PerformCompilation subscribes to, behind a filter.
unfoldable pub compiled_events :
    CompilerHost
    → List CompilationInput
    → (List ResolvedPageCacheFtraceEvent → List ResolvedPageCacheFtraceEvent)
    → Outcome (List CompilerPageCacheEvent)
compiled_events host perfetto_traces filter =
    resolve_page_cache_entries_from_protos host.distinct host.find_filenames
      (read_perfetto_trace_protos host.read_trace perfetto_traces)
    >>= λ resolved_events. ok (compile_page_cache_events (filter resolved_events))

abbrev pub write_proto : CompilerHost → Text → TraceFile → Bool × CompilationOutput
write_proto host output_file_name trace_file =
    if host.write_fully trace_file output_file_name
    then (true, proto_output output_file_name trace_file)
    else (false, no_output)

abbrev pub write_text : Text → List CompilerPageCacheEvent → Bool × CompilationOutput
write_text [] events = (true, logged events)
write_text (c ∷ name) events = (true, text_output (c ∷ name) events)

abbrev pub cannot_open : CompilerHost → Text → Bool
cannot_open host [] = false
cannot_open host (c ∷ name) = not (host.open_output (c ∷ name))

-- PerformCompilation
unfoldable pub perform_compilation :
    CompilerHost
    → List CompilationInput
    → Text
    → Bool
    → Option Text
    → Outcome (Bool × CompilationOutput)
perform_compilation host perfetto_traces output_file_name true blacklist_filter =
    apply_blacklist_to_page_cache_events host.is_regex host.regex_search blacklist_filter
    >>= λ filter. compiled_events host perfetto_traces filter >>= λ events.
        ok (write_proto host output_file_name (trace_file_of events))
perform_compilation host perfetto_traces output_file_name false blacklist_filter =
    apply_blacklist_to_page_cache_events host.is_regex host.regex_search blacklist_filter
    >>= λ filter.
        let events = compiled_events host perfetto_traces filter in
        if cannot_open host output_file_name
        then ok (false, no_output)
        else events >>= λ events'. ok (write_text output_file_name events')
