-- ===== src/Compiler/Decode.antt =====
-- The trace file that PerformCompilation of src/compiler/compiler.cc fills, read back.
use android_system_iorap.Prelude.{
  ℕ, ◌+◌, ◌≡◌, ◌<◌, refl, sym, ◌∙◌, ap, subst, Bool, true, false, List, [], ◌∷◌, ◌++◌, Option, none,
  some, arith, if◌then◌else◌, Bool-cases, inl, inr, Text, text_key, ℤ, pos, same_int, Option-cases,
  All, All-append, append_assoc, append-nil, length, length-append, same_text_iff,
}
use android_system_iorap.Prelude.Assoc.{find, find-assign}
use android_system_iorap.Session.{TraceFileIndexEntry, TraceFileEntry}
use android_system_iorap.Compiler.Merge.{CompilerPageCacheEvent}
use android_system_iorap.Compiler.Output.{
  TraceFileBuilder, empty_builder, file_offset_of, new_entry, add_page, tap_event, tap_events,
  trace_file_of,
}

-- The name that the index has for an id.
abbrev pub file_name_of : ℤ → List TraceFileIndexEntry → Option Text
file_name_of id [] = none
file_name_of id (i ∷ index) = if same_int i.id id then some i.file_name else file_name_of id index

-- A span of a file: its name, offset and length.
abbrev pub Span : Type 0
Span = Option Text × (ℤ × ℤ)

-- What the entries of a trace file mean, in order.
abbrev pub spans : List TraceFileIndexEntry → List TraceFileEntry → List Span
spans index [] = []
spans index (e ∷ list) =
    (file_name_of e.index_id index, (e.file_offset, e.file_length)) ∷ spans index list

-- The pages of the events that add to the page cache.
abbrev pub pages : List CompilerPageCacheEvent → List Span
pages [] = []
pages (e ∷ events) =
    if e.add_to_page_cache
    then (some e.filename, (file_offset_of e.index, pos 4096)) ∷ pages events
    else pages events

-- The ids count up from a number.
abbrev pub IsNumbered : ℕ → List TraceFileIndexEntry → Type 0
IsNumbered n [] = Unit
IsNumbered n (i ∷ index) = (i.id ≡ pos n) × IsNumbered (n + 1) index

abbrev pub is_known : Option Text → Bool
is_known none = false
is_known (some name) = true

-- Every span has a name.
abbrev AllNamed : List Span → Type 0
AllNamed l = All (λ s. is_known s.0 ≡ true) l

file_name_of-append :
    (id : ℤ) (index more : List TraceFileIndexEntry)
    → file_name_of id (index ++ more)
      ≡ (elim (file_name_of id index) [ none ↦ file_name_of id more | some name ↦ some name ])
file_name_of-append id [] more = refl
file_name_of-append id (i ∷ index) more = ground (arith, file_name_of-append id index more)

spans-append :
    (index : List TraceFileIndexEntry) (list more : List TraceFileEntry)
    → spans index (list ++ more) ≡ spans index list ++ spans index more
spans-append index [] more = refl
spans-append index (e ∷ list) more = rw (spans-append index list more) refl

-- More index entries do not change spans that have a name.
spans_grown :
    (index more : List TraceFileIndexEntry) (list : List TraceFileEntry)
    → AllNamed (spans index list)
    → spans (index ++ more) list ≡ spans index list
spans_grown index more [] a = refl
spans_grown index more (e ∷ list) (a, later) = rw (spans_grown index more list later) (
    ap (λ n. (n, (e.file_offset, e.file_length)) ∷ spans index list)
      (ground (arith, file_name_of-append e.index_id index more)))

-- What holds of the builder behind some events.
abbrev Built : List Span → TraceFileBuilder → Type 0
Built done b =
    (spans b.trace_file.index b.trace_file.list ≡ done)
    × AllNamed done
    × ((name : Text) (h : ℕ)
        → find name b.file_path_map ≡ some h
        → file_name_of (pos h) b.trace_file.index ≡ some name)
    × ((h : ℕ) → is_known (file_name_of (pos h) b.trace_file.index) ≡ true → h < b.file_handle_id)
    × IsNumbered 0 b.trace_file.index
    × (length b.trace_file.index ≡ b.file_handle_id)

abbrev page : CompilerPageCacheEvent → Span
page e = (some e.filename, (file_offset_of e.index, pos 4096))

IsNumbered-snoc :
    (n : ℕ) (index : List TraceFileIndexEntry) (i : TraceFileIndexEntry)
    → IsNumbered n index
    → i.id ≡ pos (n + length index)
    → IsNumbered n (index ++ i ∷ [])
IsNumbered-snoc n [] i a h = (ground (arith, h), tt)
IsNumbered-snoc n (j ∷ index) i (a, later) h =
    (a, IsNumbered-snoc (n + 1) index i later (ground (arith, h)))

-- An entry with a handle of the index.
old_page :
    (done : List Span) (e : CompilerPageCacheEvent) (h : ℕ) (b : TraceFileBuilder)
    → find e.filename b.file_path_map ≡ some h
    → Built done b
    → Built (done ++ page e ∷ []) (add_page (some h) e b)
old_page done e h b found (decoded, named, known, low, numbered, size) = (
  spans-append b.trace_file.index b.trace_file.list (new_entry h e ∷ [])
      ∙ rw (decoded, known e.filename h found) refl,
  All-append _ done (page e ∷ []) named (refl, tt),
  known,
  low,
  numbered,
  size,
)

-- An entry with a new handle.
new_page :
    (done : List Span) (e : CompilerPageCacheEvent) (b : TraceFileBuilder)
    → find e.filename b.file_path_map ≡ none
    → Built done b
    → Built (done ++ page e ∷ []) (add_page none e b)
new_page done e b missing (decoded, named, known, low, numbered, size) =
    let n = b.file_handle_id in
    let index = b.trace_file.index in
    let fresh : TraceFileIndexEntry = record { id = pos n; file_name = e.filename } in
    let grown = file_name_of-append in
    (
      spans-append (index ++ fresh ∷ []) b.trace_file.list (new_entry n e ∷ [])
          ∙ rw
              (
                spans_grown index (fresh ∷ []) b.trace_file.list
                    (subst AllNamed (sym decoded) named),
                decoded,
              )
              (ap (λ o. done ++ (o, (file_offset_of e.index, pos 4096)) ∷ [])
                (ground (arith, low n, file_name_of-append (pos n) index (fresh ∷ [])))),
      All-append _ done (page e ∷ []) named (refl, tt),
      (λ name h f. ground (
        arith,
        find-assign e.filename name n b.file_path_map,
        known name h,
        low n,
        same_text_iff e.filename name,
        file_name_of-append (pos h) index (fresh ∷ []),
      )),
      (λ h f. ground (arith, low h, file_name_of-append (pos h) index (fresh ∷ []))),
      IsNumbered-snoc 0 index fresh numbered (ap pos (omega (arith, size))),
      omega (arith, size, length-append index (fresh ∷ [])),
    )

tap_event-Built :
    (done : List Span) (e : CompilerPageCacheEvent) (b : TraceFileBuilder)
    → Built done b
    → Built (done ++ pages (e ∷ [])) (tap_event e b)
unfolding tap_event
tap_event-Built done e b built = elim (Bool-cases e.add_to_page_cache) [
  | inl adds ↦ elim (Option-cases (find e.filename b.file_path_map)) [
    | inl missing ↦ rw (adds, missing) (new_page done e b missing built)
    | inr (h, found) ↦ rw (adds, found) (old_page done e h b found built)
  ]
  | inr deletes ↦ rw (deletes, append-nil done) built
]

pages-cons :
    (e : CompilerPageCacheEvent) (events : List CompilerPageCacheEvent)
    → pages (e ∷ []) ++ pages events ≡ pages (e ∷ events)
pages-cons e events = ground arith

tap_events-Built :
    (done : List Span) (events : List CompilerPageCacheEvent) (b : TraceFileBuilder)
    → Built done b
    → Built (done ++ pages events) (tap_events events b)
unfolding tap_events
tap_events-Built done [] b built = rw (append-nil done) built
tap_events-Built done (e ∷ events) b built =
    subst (λ d. Built d (tap_events events (tap_event e b)))
      (append_assoc done (pages (e ∷ [])) (pages events)
        ∙ ap (λ p. done ++ p) (pages-cons e events))
      (tap_events-Built (done ++ pages (e ∷ [])) events (tap_event e b)
        (tap_event-Built done e b built))

-- Read back by the ids of its index, the trace file that is filled from compiled events is the list
-- of the pages of those events that add to the page cache, in their order, each with the name of its
-- file; and the ids of the index are 0, 1, 2 and so on.
pub spans-trace_file_of :
    (events : List CompilerPageCacheEvent)
    → (spans (trace_file_of events).index (trace_file_of events).list ≡ pages events)
      × IsNumbered 0 (trace_file_of events).index
unfolding find
spans-trace_file_of events =
    let (decoded, named, known, low, numbered, size) =
      tap_events-Built [] events empty_builder
        (refl, tt, (λ name h f. absurd (ground arith)), (λ h f. absurd (ground arith)), tt, refl) in
    (decoded, numbered)
