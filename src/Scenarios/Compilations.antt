-- ===== src/Scenarios/Compilations.antt =====
-- Compilations of concrete traces.
use android_system_iorap.Prelude.{
  ℕ, ◌≡◌, ◌<◌, ◌^◌, ◌↔◌, refl, Bool, true, false, List, [], ◌∷◌, Option, none, some, arith, pos,
  All, map, length, ◌⊎◌, text_key, nat_key, same_text,
}
use android_system_iorap.Prelude.Outcome.{ok, fatal, ◌>>=◌}
use android_system_iorap.Prelude.Order.{
  nat_order, text_order, bool_order, bool_key, pair_key, pair_order,
}
use android_system_iorap.Prelude.OrderedSet.{
  IsAscending, set_insert, set_find, set_erase, set_merge,
}
use android_system_iorap.Session.{TraceFile}
use android_system_iorap.Inodes.{Inode, major, minor, from_device_and_inode, get_device}
use android_system_iorap.Inodes.Devices.{get_device-from_device_and_inode}
use android_system_iorap.Compiler.{
  MmFilemap, FtraceEvent, FtracePayload, mm_filemap_add_to_page_cache, other_event, TracePacket,
  Trace, PageCacheFtraceEvent, select_page_cache_ftrace_events, start_of_packets, start_of_events,
  select_packets, select_events,
}
use android_system_iorap.Compiler.Select.{is_malformed, select_page_cache_ftrace_events_cases}
use android_system_iorap.Compiler.Limits.{IsSelectedFrom, select_page_cache_ftrace_events-bounds}
use android_system_iorap.Compiler.Resolve.{
  inode_of, InodeResult, PerfettoTracePtrInfo, ResolvedPageCacheFtraceEvent, select_from_traces,
  resolve_page_cache_entries_from_protos, apply_blacklist_to_page_cache_events,
}
use android_system_iorap.Compiler.Resolved.{
  named_events, resolve_page_cache_entries_from_protos-named,
}
use android_system_iorap.Compiler.Merge.{
  CompilerPageCacheEvent, of_resolved, ignoring_timestamp, with_timestamp,
  compile_page_cache_events, add_events, add_event,
}
use android_system_iorap.Compiler.Earliest.{earliest}
use android_system_iorap.Compiler.Compiled.{
  holds, relative_time, compile_page_cache_events-earliest,
}
use android_system_iorap.Compiler.Output.{
  CompilationInput, CompilerHost, read_perfetto_trace_protos, trace_file_of, perform_compilation,
}
use android_system_iorap.Compiler.Decode.{spans, pages, IsNumbered, spans-trace_file_of}
use android_system_iorap.Compiler.Perform.{IsWritten, perform_compilation-pages}

abbrev access : ℕ → ℕ → MmFilemap
access inode index = record { pfn = 0; i_ino = inode; index = index; s_dev = 2049; page = 0 }

abbrev ftrace : Option ℕ → FtracePayload → FtraceEvent
ftrace timestamp payload = record { timestamp = timestamp; pid = 5; payload = payload }

abbrev packet : Option ℕ → List FtraceEvent → TracePacket
packet timestamp event = record {
  timestamp = timestamp;
  ftrace_events = some (record { cpu = 1; event = event });
}

-- Page 3 of inode 11 twice, page 4 of inode 12, and an event of another kind.
abbrev launch_trace : Trace
launch_trace =
    packet none (
      ftrace (some 120) (mm_filemap_add_to_page_cache (access 11 3))
      ∷ ftrace (some 110) (mm_filemap_add_to_page_cache (access 12 4))
      ∷ ftrace (some 130) other_event
      ∷ [])
    ∷ packet (some 100) (ftrace (some 140) (mm_filemap_add_to_page_cache (access 11 3)) ∷ [])
    ∷ []

-- The second event of the trace has no timestamp, and takes the one behind the limit.
unstamped :
    select_page_cache_ftrace_events
      (packet none (
          ftrace (some 500) (mm_filemap_add_to_page_cache (access 11 3))
          ∷ ftrace none (mm_filemap_add_to_page_cache (access 11 4))
          ∷ [])
        ∷ [])
      200
    ≡ ok (
        record {
          cpu = 1;
          timestamp = 500;
          pid = 5;
          timestamp_relative = 0;
          add_to_page_cache = true;
          pfn = 0;
          i_ino = 11;
          index = 4;
          s_dev = 2049;
          page = 0;
        }
        ∷ [])
unfolding select_page_cache_ftrace_events select_packets select_events start_of_packets
    start_of_events
unstamped = refl

-- The first event has none and takes 0, which is before the start of the trace.
abbrev relative_times : List PageCacheFtraceEvent → List ℕ
relative_times = map (λ e. e.timestamp_relative)

wrapped :
    (select_page_cache_ftrace_events
        (packet none (
            ftrace none (mm_filemap_add_to_page_cache (access 11 4))
            ∷ ftrace (some 500) (mm_filemap_add_to_page_cache (access 11 3))
            ∷ [])
          ∷ [])
        600
      >>= λ out. ok (relative_times out))
    ≡ ok (18446744073709551116 ∷ 0 ∷ [])
unfolding select_page_cache_ftrace_events select_packets select_events start_of_packets
    start_of_events
wrapped = refl

select_page_cache_ftrace_events_cases_example :
    ((is_malformed launch_trace ≡ true)
      × (select_page_cache_ftrace_events launch_trace 125 ≡ fatal))
    ⊎ ((is_malformed launch_trace ≡ false)
        × ((out : List PageCacheFtraceEvent) × (select_page_cache_ftrace_events launch_trace 125
              ≡ ok out)))
select_page_cache_ftrace_events_cases_example =
    select_page_cache_ftrace_events_cases launch_trace 125

select_page_cache_ftrace_events-bounds_example :
    (out : List PageCacheFtraceEvent) × (select_page_cache_ftrace_events launch_trace 125 ≡ ok out)
    × All (IsSelectedFrom 125 (some 100)) out
    × (length out ≡ 2)
unfolding start_of_packets start_of_events
select_page_cache_ftrace_events-bounds_example =
    select_page_cache_ftrace_events-bounds launch_trace 125 refl
      (omega arith, (omega arith, (omega arith, (omega arith, (omega arith, tt)))))

-- The resolver knows inode 11 only.
abbrev file_a : List Inode → List InodeResult
file_a inodes =
    record { inode = from_device_and_inode 2049 11; filename = some (b'a' ∷ []) }
    ∷ record { inode = from_device_and_inode 2049 12; filename = none }
    ∷ []

-- It knows inode 12, too.
abbrev files_ab : List Inode → List InodeResult
files_ab inodes =
    record { inode = from_device_and_inode 2049 11; filename = some (b'a' ∷ []) }
    ∷ record { inode = from_device_and_inode 2049 12; filename = some (b'b' ∷ []) }
    ∷ []

-- Every text is an expression, which matches itself.
abbrev host : CompilerHost
host = record {
  read_trace = λ name. some launch_trace;
  distinct = λ inodes. inodes;
  find_filenames = files_ab;
  is_regex = λ re. true;
  regex_search = same_text;
  open_output = λ name. true;
  write_fully = λ file name. true;
}

abbrev infos : List PerfettoTracePtrInfo
infos = record { trace = launch_trace; timestamp_limit_ns = 1000 } ∷ []

abbrev input : CompilationInput
input = record { filename = b'i' ∷ []; timestamp_limit_ns = 1000 }

resolve_page_cache_entries_from_protos-named_example :
    resolve_page_cache_entries_from_protos (λ inodes. inodes) file_a infos ≡ (
      select_from_traces infos >>= λ events.
      ok (named_events (file_a (map inode_of events)) events))
resolve_page_cache_entries_from_protos-named_example =
    resolve_page_cache_entries_from_protos-named (λ inodes. inodes) file_a infos

abbrev resolved : ℕ → Bool → ℕ → ResolvedPageCacheFtraceEvent
resolved time adds index = record {
  filename = b'a' ∷ [];
  event = record {
    cpu = 1;
    timestamp = 100;
    pid = 5;
    timestamp_relative = time;
    add_to_page_cache = adds;
    pfn = 0;
    i_ino = 11;
    index = index;
    s_dev = 2049;
    page = 0;
  };
}

abbrev resolved_events : List ResolvedPageCacheFtraceEvent
resolved_events =
    resolved 40 true 3 ∷ resolved 30 true 7 ∷ resolved 20 true 3 ∷ resolved 5 false 3 ∷ []

abbrev compiled : ℕ → Bool → ℕ → CompilerPageCacheEvent
compiled time adds index = record {
  filename = b'a' ∷ [];
  timestamp_relative = time;
  add_to_page_cache = adds;
  index = index;
}

merged :
    compile_page_cache_events resolved_events
    ≡ compiled 5 false 3 ∷ compiled 20 true 3 ∷ compiled 30 true 7 ∷ []
unfolding compile_page_cache_events add_events add_event set_insert set_find set_erase set_merge
merged = refl

compile_page_cache_events-earliest_example :
    IsAscending with_timestamp (compile_page_cache_events resolved_events)
    × ((e : CompilerPageCacheEvent)
        → (holds e (compile_page_cache_events resolved_events) ≡ true) ↔ (
            earliest ignoring_timestamp relative_time
              (ignoring_timestamp e)
              (map of_resolved resolved_events)
            ≡ some e.timestamp_relative))
compile_page_cache_events-earliest_example = compile_page_cache_events-earliest resolved_events

spans-trace_file_of_example :
    (spans
        (trace_file_of (compiled 5 false 3 ∷ compiled 20 true 3 ∷ [])).index
        (trace_file_of (compiled 5 false 3 ∷ compiled 20 true 3 ∷ [])).list
      ≡ (some (b'a' ∷ []), (pos 12288, pos 4096)) ∷ [])
    × IsNumbered 0 (trace_file_of (compiled 5 false 3 ∷ compiled 20 true 3 ∷ [])).index
spans-trace_file_of_example = spans-trace_file_of (compiled 5 false 3 ∷ compiled 20 true 3 ∷ [])

perform_compilation-pages_example :
    (events : List PageCacheFtraceEvent) × (select_from_traces
        (read_perfetto_trace_protos host.read_trace (input ∷ []))
      ≡ ok events)
    × ((compiled : List CompilerPageCacheEvent) × (file : TraceFile) × IsWritten host
          (b'o' ∷ [])
          file
          (perform_compilation host (input ∷ []) (b'o' ∷ []) true (some (b'b' ∷ [])))
        × (spans file.index file.list ≡ pages compiled)
        × IsAscending with_timestamp compiled
        × ((e : CompilerPageCacheEvent)
            → (holds e compiled ≡ true) ↔ (
                (same_text e.filename (b'b' ∷ []) ≡ false)
                × (earliest ignoring_timestamp relative_time
                      (ignoring_timestamp e)
                      (map of_resolved (named_events (files_ab (map inode_of events)) events))
                    ≡ some e.timestamp_relative))))
unfolding read_perfetto_trace_protos
perform_compilation-pages_example =
    perform_compilation-pages host (input ∷ []) (b'o' ∷ []) (some (b'b' ∷ [])) (refl, tt) refl

-- A filter that is no expression ends the process, even if nothing is to be read.
malformed :
    perform_compilation (record host { is_regex = λ re. false }) [] [] false (some (b'(' ∷ []))
    ≡ fatal
unfolding perform_compilation apply_blacklist_to_page_cache_events
malformed = refl

get_device-from_device_and_inode_example :
    (get_device (from_device_and_inode 66309 9) ≡ 66309)
    × (major 66309 < 2 ^ 32)
    × (minor 66309 < 2 ^ 32)
get_device-from_device_and_inode_example = get_device-from_device_and_inode 66309 9 (omega arith)
