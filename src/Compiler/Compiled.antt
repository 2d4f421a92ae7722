-- ===== src/Compiler/Compiled.antt =====
-- CompilePageCacheEvents of src/compiler/compiler.cc against what it promises.
use android_system_iorap.Prelude.{ℕ, ◌≡◌, ◌↔◌, Bool, List, [], map, true, some, text_key, nat_key}
use android_system_iorap.Prelude.Order.{
  nat_order, text_order, bool_order, bool_key, pair_key, pair_order,
}
use android_system_iorap.Prelude.OrderedSet.{IsAscending, set_merge-IsAscending}
use android_system_iorap.Compiler.Resolve.{ResolvedPageCacheFtraceEvent}
use android_system_iorap.Compiler.Merge.{
  CompilerPageCacheEvent, of_resolved, ignoring_timestamp, with_timestamp, add_events,
  compile_page_cache_events,
}
use android_system_iorap.Compiler.Earliest.{earliest, is_in, two_passes}

abbrev pub relative_time : CompilerPageCacheEvent → ℕ
relative_time e = e.timestamp_relative

-- Does the list hold the event with these fields?
abbrev pub holds : CompilerPageCacheEvent → List CompilerPageCacheEvent → Bool
holds e events =
    is_in ignoring_timestamp relative_time e.timestamp_relative (ignoring_timestamp e) events

-- The compiled events stand in strictly ascending order of their timestamps, with the filename, the
-- kind and the index to decide between equal ones. For each filename, kind and index there is an
-- event just if one was resolved, and its timestamp is the least of those resolved.
pub compile_page_cache_events-earliest :
    (resolved_events : List ResolvedPageCacheFtraceEvent)
    → let compiled = compile_page_cache_events resolved_events in
      IsAscending with_timestamp compiled
      × ((e : CompilerPageCacheEvent)
          → (holds e compiled ≡ true) ↔ (
              earliest ignoring_timestamp relative_time
                (ignoring_timestamp e)
                (map of_resolved resolved_events)
              ≡ some e.timestamp_relative))
unfolding compile_page_cache_events
compile_page_cache_events-earliest resolved_events =
    let events = map of_resolved resolved_events in
    (
      set_merge-IsAscending with_timestamp (add_events ignoring_timestamp relative_time [] events)
          [] tt,
      λ e.
          two_passes ignoring_timestamp relative_time e.timestamp_relative (ignoring_timestamp e)
            events,
    )
