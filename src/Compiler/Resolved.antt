-- ===== src/Compiler/Resolved.antt =====
-- The chains of ResolvePageCacheEntriesFromProtos in src/compiler/compiler.cc do what they mean to.
use android_system_iorap.Prelude.{
  ◌≡◌, refl, ◌∙◌, Bool, true, false, List, [], ◌∷◌, Option, none, some, arith, Text, map,
}
use android_system_iorap.Prelude.Outcome.{Outcome, ok, fatal, stalled, ◌>>=◌}
use android_system_iorap.Prelude.Assoc.{find, find-insert, at_or}
use android_system_iorap.Inodes.{Inode, inode_key, same_inode, same_inode_iff}
use android_system_iorap.Compiler.{PageCacheFtraceEvent}
use android_system_iorap.Compiler.Resolve.{
  inode_of, InodeResult, InodeMap, insert_data, reduce_resolved_inodes_to_map, PerfettoTracePtrInfo,
  select_from_traces, ResolvedPageCacheFtraceEvent, keep_value, name_event, scan_states, filter_all,
  map_resolved, with_event, resolve_events, resolve_page_cache_entries_from_protos,
}

abbrev pub or_first : Bool → Option Text → Option Text → Option Text
or_first true (some filename) rest = some filename
or_first true none rest = rest
or_first false answer rest = rest

-- The first filename among the results for an inode.
abbrev pub first_name : Inode → List InodeResult → Option Text
first_name i [] = none
first_name i (r ∷ results) = or_first (same_inode r.inode i) r.filename (first_name i results)

-- The events that get a filename, each with it, in order.
abbrev pub named_events :
    List InodeResult → List PageCacheFtraceEvent → List ResolvedPageCacheFtraceEvent
named_events results [] = []
named_events results (e ∷ events) = elim (first_name (inode_of e) results) [
  | none ↦ named_events results events
  | some filename ↦ record { filename = filename; event = e } ∷ named_events results events
]

abbrev or_old : Option Text → Option Text → Option Text
or_old (some old) new = some old
or_old none new = new

find-insert_data :
    (i j : Inode) (answer : Option Text) (m : InodeMap)
    → find j (insert_data i answer m) ≡ or_old (find j m) (or_first (same_inode i j) answer none)
unfolding at_or
find-insert_data i j none m = ground arith
find-insert_data i j (some f) m = ground (arith, find-insert i j f m, same_inode_iff i j)

find-reduce :
    (j : Inode) (results : List InodeResult) (m : InodeMap)
    → find j (reduce_resolved_inodes_to_map results m) ≡ or_old (find j m) (first_name j results)
unfolding reduce_resolved_inodes_to_map
find-reduce j [] m = ground arith
find-reduce j (r ∷ results) m =
    find-reduce j results (insert_data r.inode r.filename m)
    ∙ rw (find-insert_data r.inode j r.filename m)
        (regroup (find j m) (same_inode r.inode j) r.filename (first_name j results))
  where
    regroup :
        (o : Option Text) (b : Bool) (answer rest : Option Text)
        → or_old (or_old o (or_first b answer none)) rest ≡ or_old o (or_first b answer rest)
    regroup (some x) b answer rest = refl
    regroup none true none rest = refl
    regroup none true (some f) rest = refl
    regroup none false answer rest = refl

map_resolved-scan_states :
    (results : List InodeResult) (last : Option PageCacheFtraceEvent)
    (events : List PageCacheFtraceEvent)
    → map_resolved (
        filter_all (
          scan_states
            (record {
              inode_map = some (reduce_resolved_inodes_to_map results []);
              ftrace_event = last;
            })
            (map with_event events)))
      ≡ ok (named_events results events)
unfolding map_resolved filter_all scan_states find
map_resolved-scan_states results last [] = refl
map_resolved-scan_states results last (e ∷ events) =
    rw (find-reduce (inode_of e) results [], map_resolved-scan_states results (some e) events)
      (last_step (first_name (inode_of e) results))
  where
    last_step :
        (o : Option Text)
        → ok (keep_value (name_event e o) (named_events results events))
          ≡ ok (elim o [
            | none ↦ named_events results events
            | some f ↦ record { filename = f; event = e } ∷ named_events results events
          ])
    last_step none = refl
    last_step (some f) = refl

-- The concatenated and scanned chains of inode map and events name exactly the events for whose inode
-- the resolver's results have a filename, each by the first of these, in the order of the traces; a
-- DCHECK of the combined states fails for none. The result is that of the selection of the events.
pub resolve_page_cache_entries_from_protos-named :
    (distinct : List Inode → List Inode) (find_filenames : List Inode → List InodeResult)
    (traces : List PerfettoTracePtrInfo)
    → resolve_page_cache_entries_from_protos distinct find_filenames traces ≡ (
        select_from_traces traces >>= λ events.
        ok (named_events (find_filenames (distinct (map inode_of events))) events))
unfolding resolve_page_cache_entries_from_protos filter_all scan_states
resolve_page_cache_entries_from_protos-named distinct find_filenames traces =
    cases (select_from_traces traces)
  where
    cases :
        (o : Outcome (List PageCacheFtraceEvent))
        → ((o >>= λ events. ok (distinct (map inode_of events))) >>= λ inodes. o >>= λ events.
            resolve_events (reduce_resolved_inodes_to_map (find_filenames inodes) []) events)
          ≡ (o >>= λ events.
              ok (named_events (find_filenames (distinct (map inode_of events))) events))
    cases fatal = refl
    cases stalled = refl
    cases (ok events) =
        map_resolved-scan_states (find_filenames (distinct (map inode_of events))) none events
