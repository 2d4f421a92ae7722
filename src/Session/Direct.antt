-- ===== src/Session/Direct.antt =====
-- The operations of SessionDirect on one path, in src/prefetcher/session.cc.
use android_system_iorap.Prelude.{
  ℕ, Bool, true, false, not, ◌&&◌, List, [], ◌∷◌, ◌++◌, Option, none, some, if◌then◌else◌, ◌==◌,
  Text, is_negative, nat_key,
}
use android_system_iorap.Prelude.Assoc.{find, erase, assign, insert, at_or}
use android_system_iorap.Prelude.Outcome.{Outcome, ok, fatal}
use android_system_iorap.Session.{
  Entry, EntryMapping, SessionDirect, Kernel, World, note, note_opened, close, mapped, unmapped,
  asked,
}

-- `entry_list_map_[path_id]` creates the list where there is none.
abbrev pub touch : ℕ → SessionDirect → SessionDirect
touch path_id s = record s { entry_list_map = insert path_id [] s.entry_list_map }

abbrev pub entries_of : ℕ → SessionDirect → List EntryMapping
entries_of path_id s = at_or path_id [] s.entry_list_map

abbrev pub is_empty {ℓ} : {A : Type ℓ} → List A → Bool
is_empty [] = true
is_empty (x ∷ xs) = false

-- The maps behind the open; `insert` keeps what a map has for the path. The number of the
-- descriptor for a path that has one already is dropped: whether the map's insert makes a unique_fd of
-- it, which would close it, is up to the C++ library.
abbrev pub registered : ℕ → Text → Option ℕ → SessionDirect → SessionDirect
registered path_id file_path fd s = touch path_id (record s {
  path_map = insert path_id file_path s.path_map;
  path_fd_map = insert path_id fd s.path_fd_map;
})

-- SessionDirect::RegisterFilePath; the DCHECK wants no entries yet.
unfoldable pub register_file_path :
    Kernel → ℕ → Text → SessionDirect → World → Outcome (Bool × SessionDirect × World)
register_file_path k path_id file_path s w =
    let fd = k.open_file w.calls file_path in
    if is_empty (entries_of path_id s)
    then ok (true, registered path_id file_path fd s, note_opened fd w)
    else fatal

-- UnmapWithoutErase
abbrev pub unmap_without_erase : EntryMapping → World → World
unmap_without_erase m w = note (unmapped m.address m.entry.length) w

abbrev pub is_mapping_kind : ℕ → Bool
is_mapping_kind kind = if kind == 1 then true else kind == 2

-- The switch over the kind of an entry.
abbrev pub unmap_if : Bool → EntryMapping → World → World
unmap_if true m w = unmap_without_erase m w
unmap_if false m w = w

-- The loop of UnregisterFilePath over the entries.
unfoldable pub unmap_entries : List EntryMapping → World → World
unmap_entries [] w = w
unmap_entries (m ∷ list) w = unmap_entries list (unmap_if (is_mapping_kind m.entry.kind) m w)

-- The rest of UnregisterFilePath, with the descriptor of the path; `none` is undefined behaviour.
abbrev pub unregister_with :
    ℕ → Option (Option ℕ) → SessionDirect → World → Outcome (Bool × SessionDirect × World)
unregister_with path_id none s w = fatal
unregister_with path_id (some fd) s w = ok (
  true,
  record s {
    entry_list_map = erase path_id s.entry_list_map;
    path_fd_map = erase path_id s.path_fd_map;
  },
  close fd (unmap_entries (entries_of path_id s) w),
)

abbrev pub unregister_found :
    ℕ → Option Text → SessionDirect → World → Outcome (Bool × SessionDirect × World)
unregister_found path_id none s w = ok (false, s, w)
unregister_found path_id (some path) s w =
    unregister_with path_id (find path_id s.path_fd_map)
      (record s { path_map = erase path_id s.path_map }) w

-- SessionDirect::UnregisterFilePath
unfoldable pub unregister_file_path :
    ℕ → SessionDirect → World → Outcome (Bool × SessionDirect × World)
unregister_file_path path_id s w = unregister_found path_id (find path_id s.path_map) s w

-- mmap(2) has answered; kMlock locks what is mapped.
abbrev pub map_performed : Kernel → ℕ → ℕ → World → ℕ × Bool × World
map_performed k kind address w =
    if address == 0
    then (address, false, w)
    else if kind == 2
    then (address, not (is_negative (k.mlock w.calls)), note asked w)
    else (address, true, w)

-- The switch of ReadAhead: the address, the success and the calls. Another kind does nothing.
unfoldable pub perform : Kernel → ℕ → ℕ → World → ℕ × Bool × World
perform k kind length w =
    if kind == 0
    then (0, not (is_negative (k.fadvise w.calls)), note asked w)
    else if is_mapping_kind kind
    then map_performed k kind (k.mmap w.calls) (note (mapped (k.mmap w.calls) length) w)
    else (0, true, w)

-- `list.push_back`, where the list is there already.
abbrev pub push : ℕ → EntryMapping → SessionDirect → SessionDirect
push path_id m s = record s {
  entry_list_map = assign path_id (entries_of path_id s ++ m ∷ []) s.entry_list_map;
}

abbrev pub push_performed :
    Entry → ℕ × Bool × World → SessionDirect → Outcome (Bool × SessionDirect × World)
push_performed e (address, success, w) s =
    ok (success, push e.path_id (record { entry = e; address = address; success = success }) s, w)

-- With the path's descriptor, and the path: without the path a DCHECK fails.
abbrev pub read_ahead_with :
    Kernel
    → Entry
    → Option (Option ℕ)
    → Option Text
    → SessionDirect
    → World
    → Outcome (Bool × SessionDirect × World)
read_ahead_with k e none path s w = ok (false, s, w)
read_ahead_with k e (some fd) none s w = fatal
read_ahead_with k e (some none) (some path) s w =
    ok (false, push e.path_id (record { entry = e; address = 0; success = false }) s, w)
read_ahead_with k e (some (some fd)) (some path) s w =
    push_performed e (perform k e.kind e.length w) s

-- SessionDirect::ReadAhead
unfoldable pub read_ahead :
    Kernel → Entry → SessionDirect → World → Outcome (Bool × SessionDirect × World)
read_ahead k e s w =
    read_ahead_with k e (find e.path_id s.path_fd_map) (find e.path_id s.path_map)
      (touch e.path_id s) w

abbrev pub same_entry : Entry → Entry → Bool
same_entry d e =
    (d.path_id == e.path_id && d.kind == e.kind) && (d.length == e.length && d.offset == e.offset)

unfoldable pub find_entry : Entry → List EntryMapping → Option EntryMapping
find_entry e [] = none
find_entry e (m ∷ list) = if same_entry e m.entry then some m else find_entry e list

-- The rest of UnreadAhead. Its list is a copy, so what it erases stays in the map.
abbrev pub unread_found :
    Entry → Option EntryMapping → SessionDirect → World → Bool × SessionDirect × World
unread_found e none s w = (false, s, w)
unread_found e (some m) s w = (true, s, unmap_if (is_mapping_kind e.kind) m w)

-- SessionDirect::UnreadAhead
unfoldable pub unread_ahead : Entry → SessionDirect → World → Bool × SessionDirect × World
unread_ahead e s w = unread_found e (find_entry e (entries_of e.path_id s)) (touch e.path_id s) w
