-- ===== src/Session/Files.antt =====
-- SessionDirect::ProcessFd and the destructor, in src/prefetcher/session.cc.
use android_system_iorap.Prelude.{
  ℕ, ◌-◌, ◌^◌, Bool, true, false, ◌||◌, List, [], ◌∷◌, Option, none, some, if◌then◌else◌, ℤ, pos,
  negsuc, is_negative, map,
}
use android_system_iorap.Prelude.Outcome.{Outcome, ok, ◌>>=◌}
use android_system_iorap.Prelude.Assoc.{Assoc}
use android_system_iorap.Session.{
  Entry, close, SessionDirect, Kernel, World, note, asked, TraceFile, TraceFileIndexEntry,
  TraceFileEntry,
}
use android_system_iorap.Session.Direct.{register_file_path, unregister_file_path, read_ahead}

-- The conversion of an int64_t to size_t.
abbrev pub to_size : ℤ → ℕ
to_size (pos n) = n
to_size (negsuc n) = 2 ^ 64 - 1 - n

-- The loop over the index.
unfoldable pub register_index :
    Kernel → List TraceFileIndexEntry → SessionDirect → World → Outcome (SessionDirect × World)
register_index k [] s w = ok (s, w)
register_index k (e ∷ es) s w =
    (if is_negative e.id
      then ok (false, s, w)
      else register_file_path k (to_size e.id) e.file_name s w)
    >>= λ (result, s', w'). register_index k es s' w'

-- Every entry is read ahead by kFadvise.
abbrev pub fadvise_entry : TraceFileEntry → Entry
fadvise_entry e = record {
  path_id = to_size e.index_id;
  kind = 0;
  length = to_size e.file_length;
  offset = to_size e.file_offset;
}

-- The loop over the list.
unfoldable pub read_ahead_list :
    Kernel → List TraceFileEntry → SessionDirect → World → Outcome (SessionDirect × World)
read_ahead_list k [] s w = ok (s, w)
read_ahead_list k (e ∷ es) s w =
    (if is_negative e.file_length || is_negative e.file_offset
      then ok (false, s, w)
      else read_ahead k (fadvise_entry e) s w)
    >>= λ (result, s', w'). read_ahead_list k es s' w'

abbrev pub process_trace :
    Kernel → Option TraceFile → SessionDirect → World → Outcome (Bool × SessionDirect × World)
process_trace k none s w = ok (false, s, w)
process_trace k (some trace) s w = register_index k trace.index s w >>= λ (s', w').
    read_ahead_list k trace.list s' w' >>= λ (s'', w''). ok (true, s'', w'')

-- SessionDirect::ProcessFd
unfoldable pub process_fd :
    Kernel → ℕ → SessionDirect → World → Outcome (Bool × SessionDirect × World)
process_fd k fd s w = process_trace k (k.open_trace w.calls fd) s (note asked w)

unfoldable pub unregister_all : List ℕ → SessionDirect → World → Outcome (SessionDirect × World)
unregister_all [] s w = ok (s, w)
unregister_all (path_id ∷ ids) s w =
    unregister_file_path path_id s w >>= λ (result, s', w'). unregister_all ids s' w'

unfoldable pub close_all : Assoc ℕ (Option ℕ) → World → World
close_all [] w = w
close_all ((path_id, fd) ∷ fds) w = close_all fds (close fd w)

-- ~SessionDirect: every path that has a list of entries is unregistered; then the maps go, and with
-- them the descriptors that are left.
unfoldable pub destroy : SessionDirect → World → Outcome World
destroy s w = unregister_all (map (λ e. e.0) s.entry_list_map) s w >>= λ (s', w').
    ok (close_all s'.path_fd_map w')
