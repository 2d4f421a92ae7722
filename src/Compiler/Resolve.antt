-- ===== src/Compiler/Resolve.antt =====
-- The resolution of inodes to filenames in src/compiler/compiler.cc. The inode resolver and the
-- operator `distinct` are arguments; `concat`, `scan`, `filter` and `map` act on what is emitted.
use android_system_iorap.Prelude.{
  ℕ, Bool, true, ◌&&◌, List, [], ◌∷◌, ◌++◌, Option, none, some, if◌then◌else◌, Text, map, not,
}
use android_system_iorap.Prelude.Outcome.{Outcome, ok, fatal, ◌>>=◌}
use android_system_iorap.Prelude.Assoc.{Assoc, find, insert}
use android_system_iorap.Inodes.{Inode, inode_key, from_device_and_inode}
use android_system_iorap.Launch.State.{has_value}
use android_system_iorap.Compiler.{Trace, PageCacheFtraceEvent, select_page_cache_ftrace_events}

-- PageCacheFtraceEvent::inode
abbrev pub inode_of : PageCacheFtraceEvent → Inode
inode_of e = from_device_and_inode e.s_dev e.i_ino

-- The filename is none for an error.
pub record InodeResult : Type 0 where
  pub inode : Inode
  pub filename : Option Text

abbrev pub InodeMap : Type 0
InodeMap = Assoc Inode Text

abbrev pub insert_data : Inode → Option Text → InodeMap → InodeMap
insert_data inode none m = m
insert_data inode (some filename) m = insert inode filename m

-- ReduceResolvedInodesToMap, from the map that its steps have reached.
unfoldable pub reduce_resolved_inodes_to_map : List InodeResult → InodeMap → InodeMap
reduce_resolved_inodes_to_map [] m = m
reduce_resolved_inodes_to_map (r ∷ results) m =
    reduce_resolved_inodes_to_map results (insert_data r.inode r.filename m)

-- A trace file with its timestamp limit: PerfettoTracePtrInfo.
pub record PerfettoTracePtrInfo : Type 0 where
  pub trace : Trace
  pub timestamp_limit_ns : ℕ

-- `traces.flat_map(SelectPageCacheFtraceEvents)`
unfoldable pub select_from_traces : List PerfettoTracePtrInfo → Outcome (List PageCacheFtraceEvent)
select_from_traces [] = ok []
select_from_traces (t ∷ traces) =
    select_page_cache_ftrace_events t.trace t.timestamp_limit_ns >>= λ events.
    select_from_traces traces >>= λ later. ok (events ++ later)

-- SelectDistinctInodesFromTraces
abbrev pub select_distinct_inodes_from_traces :
    (List Inode → List Inode) → List PerfettoTracePtrInfo → Outcome (List Inode)
select_distinct_inodes_from_traces distinct traces =
    select_from_traces traces >>= λ events. ok (distinct (map inode_of events))

pub record ResolvedPageCacheFtraceEvent : Type 0 where
  pub filename : Text
  pub event : PageCacheFtraceEvent

pub record CombinedState : Type 0 where
  pub inode_map : Option InodeMap
  pub ftrace_event : Option PageCacheFtraceEvent

abbrev pub has_all : CombinedState → Bool
has_all s = has_value s.inode_map && has_value s.ftrace_event

abbrev pub or_else {ℓ} : {A : Type ℓ} → Option A → Option A → Option A
or_else none old = old
or_else (some new) old = some new

-- CombinedState::Merge
abbrev pub merge_state : CombinedState → CombinedState → CombinedState
merge_state current delta = record {
  inode_map = or_else delta.inode_map current.inode_map;
  ftrace_event = or_else delta.ftrace_event current.ftrace_event;
}

unfoldable pub scan_states : CombinedState → List CombinedState → List CombinedState
scan_states current [] = []
scan_states current (delta ∷ deltas) =
    let next = merge_state current delta in next ∷ scan_states next deltas

unfoldable pub filter_all : List CombinedState → List CombinedState
filter_all [] = []
filter_all (s ∷ states) = if has_all s then s ∷ filter_all states else filter_all states

abbrev pub name_event : PageCacheFtraceEvent → Option Text → Option ResolvedPageCacheFtraceEvent
name_event e none = none
name_event e (some filename) = some (record { filename = filename; event = e })

-- GetEvent and GetInodeMap check HasAll.
abbrev pub resolve_with :
    Option InodeMap → Option PageCacheFtraceEvent → Outcome (Option ResolvedPageCacheFtraceEvent)
resolve_with (some m) (some e) = ok (name_event e (find (inode_of e) m))
resolve_with _ _ = fatal

abbrev pub keep_value {ℓ} : {A : Type ℓ} → Option A → List A → List A
keep_value none xs = xs
keep_value (some x) xs = x ∷ xs

-- The last steps, which drop the events without a filename.
unfoldable pub map_resolved : List CombinedState → Outcome (List ResolvedPageCacheFtraceEvent)
map_resolved [] = ok []
map_resolved (s ∷ states) = resolve_with s.inode_map s.ftrace_event >>= λ r.
    map_resolved states >>= λ later. ok (keep_value r later)

abbrev pub with_map : InodeMap → CombinedState
with_map m = record { inode_map = some m; ftrace_event = none }

abbrev pub with_event : PageCacheFtraceEvent → CombinedState
with_event e = record { inode_map = none; ftrace_event = some e }

-- Both chains, one behind the other.
abbrev pub resolve_events :
    InodeMap → List PageCacheFtraceEvent → Outcome (List ResolvedPageCacheFtraceEvent)
resolve_events m events = map_resolved (
    filter_all (
      scan_states (record { inode_map = none; ftrace_event = none })
        (with_map m ∷ map with_event events)))

-- ResolvePageCacheEntriesFromProtos
unfoldable pub resolve_page_cache_entries_from_protos :
    (List Inode → List Inode)
    → (List Inode → List InodeResult)
    → List PerfettoTracePtrInfo
    → Outcome (List ResolvedPageCacheFtraceEvent)
resolve_page_cache_entries_from_protos distinct find_filenames traces =
    select_distinct_inodes_from_traces distinct traces >>= λ inodes.
    select_from_traces traces >>= λ events.
    resolve_events (reduce_resolved_inodes_to_map (find_filenames inodes) []) events

-- The filter of ApplyBlacklistToPageCacheEvents; `regex_search` tells whether the expression matches in
-- a filename.
unfoldable pub filter_blacklist :
    (Text → Text → Bool)
    → Option Text
    → List ResolvedPageCacheFtraceEvent
    → List ResolvedPageCacheFtraceEvent
filter_blacklist regex_search blacklist_filter [] = []
filter_blacklist regex_search blacklist_filter (e ∷ events) =
    let rest = filter_blacklist regex_search blacklist_filter events in
    if elim blacklist_filter [ none ↦ true | some re ↦ not (regex_search e.filename re) ]
    then e ∷ rest
    else rest

-- Without a filter the expression is the empty one.
abbrev pub is_expression : (Text → Bool) → Option Text → Bool
is_expression is_regex none = true
is_expression is_regex (some re) = is_regex re

-- ApplyBlacklistToPageCacheEvents gives what it chains behind the resolved events; the constructor of
-- std::regex throws, and nothing catches, when the filter is no expression.
unfoldable pub apply_blacklist_to_page_cache_events :
    (Text → Bool)
    → (Text → Text → Bool)
    → Option Text
    → Outcome (List ResolvedPageCacheFtraceEvent → List ResolvedPageCacheFtraceEvent)
apply_blacklist_to_page_cache_events is_regex regex_search blacklist_filter =
    if is_expression is_regex blacklist_filter
    then ok (filter_blacklist regex_search blacklist_filter)
    else fatal
