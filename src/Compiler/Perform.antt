-- ===== src/Compiler/Perform.antt =====
-- PerformCompilation of src/compiler/compiler.cc as a whole.
use android_system_iorap.Prelude.{
  ◌≡◌, refl, ap, ◌≢◌, ◌↔◌, ◌⊎◌, ℕ, Bool, true, false, List, [], ◌∷◌, ◌++◌, Option, none, some,
  arith, All, Text, map, inl, inr, if◌then◌else◌, Bool-cases, subst, same, same_text_iff, nat_key,
  text_key,
}
use android_system_iorap.Prelude.Outcome.{Outcome, ok}
use android_system_iorap.Prelude.Order.{
  nat_order, text_order, bool_order, bool_key, pair_key, pair_order,
}
use android_system_iorap.Prelude.OrderedSet.{IsAscending}
use android_system_iorap.Session.{TraceFile}
use android_system_iorap.Compiler.{PageCacheFtraceEvent}
use android_system_iorap.Compiler.Select.{is_malformed, select_page_cache_ftrace_events_cases}
use android_system_iorap.Compiler.Resolve.{
  inode_of, PerfettoTracePtrInfo, ResolvedPageCacheFtraceEvent, select_from_traces,
  filter_blacklist, is_expression, apply_blacklist_to_page_cache_events,
}
use android_system_iorap.Compiler.Resolved.{
  named_events, resolve_page_cache_entries_from_protos-named,
}
use android_system_iorap.Compiler.Merge.{
  CompilerPageCacheEvent, of_resolved, ignoring_timestamp, with_timestamp,
  compile_page_cache_events,
}
use android_system_iorap.Compiler.Earliest.{earliest}
use android_system_iorap.Compiler.Compiled.{
  holds, relative_time, compile_page_cache_events-earliest,
}
use android_system_iorap.Compiler.Output.{
  CompilationInput, CompilerHost, CompilationOutput, proto_output, no_output,
  read_perfetto_trace_protos, compiled_events, write_proto, trace_file_of, perform_compilation,
}
use android_system_iorap.Compiler.Decode.{spans, pages, spans-trace_file_of}

select_from_traces_total :
    (traces : List PerfettoTracePtrInfo)
    → All (λ t. is_malformed t.trace ≡ false) traces
    → (events : List PageCacheFtraceEvent) × (select_from_traces traces ≡ ok events)
unfolding select_from_traces
select_from_traces_total [] a = ([], refl)
select_from_traces_total (t ∷ traces) (a, later) =
    elim (select_page_cache_ftrace_events_cases t.trace t.timestamp_limit_ns) [
      | inl (bad, _) ↦ absurd (ground arith)
      | inr (_, (here, e)) ↦
          let (there, e') = select_from_traces_total traces later in
          (here ++ there, rw (e, e') refl)
    ]

-- The filter matches in the filename.
abbrev pub is_blacklisted : (Text → Text → Bool) → Option Text → Text → Bool
is_blacklisted regex_search none filename = false
is_blacklisted regex_search (some re) filename = regex_search filename re

same-filename :
    (e : CompilerPageCacheEvent) (j : Text × (Bool × ℕ)) (f : Text → Bool)
    → f e.filename ≢ f j.0
    → same (ignoring_timestamp e) j ≡ false
same-filename e j f h = elim (Bool-cases (same (ignoring_timestamp e) j)) [
  | inl alike ↦ absurd (h (ap f (ground (arith, same_text_iff e.filename j.0))))
  | inr other ↦ other
]

-- Events of other filenames do not matter to the earliest time of a page.
earliest-filter_blacklist :
    (regex_search : Text → Text → Bool) (blacklist_filter : Option Text) (j : Text × (Bool × ℕ))
    (events : List ResolvedPageCacheFtraceEvent)
    → earliest ignoring_timestamp relative_time j
        (map of_resolved (filter_blacklist regex_search blacklist_filter events))
      ≡ (if is_blacklisted regex_search blacklist_filter j.0
          then none
          else earliest ignoring_timestamp relative_time j (map of_resolved events))
unfolding filter_blacklist
earliest-filter_blacklist regex_search none j [] = refl
earliest-filter_blacklist regex_search (some re) j [] = ground arith
earliest-filter_blacklist regex_search none j (e ∷ events) =
    rw (earliest-filter_blacklist regex_search none j events) refl
earliest-filter_blacklist regex_search (some re) j (e ∷ events) = ground (
  arith,
  earliest-filter_blacklist regex_search (some re) j events,
  same-filename (of_resolved e) j (λ f. regex_search f re),
)

unless_blacklisted :
    {P : Type 0} (blacklisted : Bool) (o : Option ℕ) (t : ℕ)
    → P ↔ ((if blacklisted then none else o) ≡ some t)
    → P ↔ ((blacklisted ≡ false) × (o ≡ some t))
unless_blacklisted true o t (to, from) = (λ p. absurd (cc (to p)), λ (e, _). absurd (ground arith))
unless_blacklisted false o t (to, from) = (λ p. (refl, to p), λ (_, e). from e)

-- The result tells whether the file was written.
abbrev pub IsWritten : CompilerHost → Text → TraceFile → Outcome (Bool × CompilationOutput) → Type 0
IsWritten host name file result =
    ((host.write_fully file name ≡ true) × (result ≡ ok (true, proto_output name file)))
    ⊎ ((host.write_fully file name ≡ false) × (result ≡ ok (false, no_output)))

write_proto_cases :
    (host : CompilerHost) (name : Text) (file : TraceFile)
    → IsWritten host name file (ok (write_proto host name file))
write_proto_cases host name file = elim (Bool-cases (host.write_fully file name)) [
  | inl written ↦ rw written (inl (refl, refl))
  | inr failed ↦ rw failed (inr (refl, refl))
]

-- If no packet with a timestamp of a readable trace holds an ftrace event without one, and the blacklist
-- filter is a regular expression if there is one, a compilation to a protobuf ends. It returns true and
-- the file is written, or it could not be written and it returns false. The file, read back, is the list
-- of the pages of events that stand in strictly ascending order of their timestamps; there is such an
-- event just if the filter does not match in its filename, and its timestamp is the least of those of
-- its filename, kind and index among the events that were selected from the readable traces and are
-- named by the resolver.
pub perform_compilation-pages :
    (host : CompilerHost) (inputs : List CompilationInput) (name : Text) (blacklist : Option Text)
    → All (λ t. is_malformed t.trace ≡ false) (read_perfetto_trace_protos host.read_trace inputs)
    → is_expression host.is_regex blacklist ≡ true
    → (events : List PageCacheFtraceEvent) × (select_from_traces
          (read_perfetto_trace_protos host.read_trace inputs)
        ≡ ok events)
      × ((compiled : List CompilerPageCacheEvent) × (file : TraceFile) × IsWritten host name file
            (perform_compilation host inputs name true blacklist)
          × (spans file.index file.list ≡ pages compiled)
          × IsAscending with_timestamp compiled
          × ((e : CompilerPageCacheEvent)
              → (holds e compiled ≡ true) ↔ (
                  (is_blacklisted host.regex_search blacklist e.filename ≡ false)
                  × (earliest ignoring_timestamp relative_time (ignoring_timestamp e) (
                        map of_resolved (
                          named_events
                            (host.find_filenames (host.distinct (map inode_of events)))
                            events))
                      ≡ some e.timestamp_relative))))
unfolding perform_compilation compiled_events apply_blacklist_to_page_cache_events
perform_compilation-pages host inputs name blacklist a expression =
    let traces = read_perfetto_trace_protos host.read_trace inputs in
    let (events, e) = select_from_traces_total traces a in
    let named = named_events (host.find_filenames (host.distinct (map inode_of events))) events in
    let filtered = filter_blacklist host.regex_search blacklist named in
    let compiled = compile_page_cache_events filtered in
    let (ascending, iff) = compile_page_cache_events-earliest filtered in
    (
      events,
      e,
      (
        compiled,
        trace_file_of compiled,
        rw
            (
              expression,
              resolve_page_cache_entries_from_protos-named host.distinct host.find_filenames traces,
              e,
            )
            (write_proto_cases host name (trace_file_of compiled)),
        (spans-trace_file_of compiled).0,
        ascending,
        λ x. unless_blacklisted _ _ x.timestamp_relative (
            subst (λ o. (holds x compiled ≡ true) ↔ (o ≡ some x.timestamp_relative))
              (earliest-filter_blacklist host.regex_search blacklist (ignoring_timestamp x) named)
              (iff x)),
      ),
    )
