-- ===== src/Tasks.antt =====
-- The readahead tasks of src/prefetcher/read_ahead.cc: a task is a session that reads the pages of
-- one trace file ahead. No result of a session's operation changes what a task does, so the calls to
-- the session manager and its sessions are recorded in order, and which sessions the manager has is
-- read off them. The cookies of the trace events are left out.
pub mod Calls
pub mod Life
use android_system_iorap.Prelude.{
  ℕ, ◌+◌, ◌%◌, ◌^◌, Bool, false, ◌==◌, ◌||◌, ◌&&◌, not, List, [], ◌∷◌, ◌++◌, Option, none, some,
  if◌then◌else◌, Text, same_text, nat_key, ltb, is_negative, length,
}
use android_system_iorap.Prelude.Outcome.{Outcome, ok}
use android_system_iorap.Prelude.Assoc.{Assoc, find, erase, assign}
use android_system_iorap.Launch.State.{TaskId, dcheck}
use android_system_iorap.Session.{TraceFile, TraceFileIndexEntry, TraceFileEntry, Entry}
use android_system_iorap.Session.Files.{to_size}

-- A call to the session manager, or to the session of a task.
pub data SessionCall : Type 0 where
  create : (session_id : ℕ) (description : Text) → SessionCall
  create_from : (session_id : ℕ) (description : Text) (fd : ℕ) → SessionCall
  register : (session_id path_id : ℕ) (file_name : Text) → SessionCall
  prefetch : (session_id : ℕ) → Entry → SessionCall
  destroy : (session_id : ℕ) → SessionCall

pub record RecentData : Type 0 where
  pub task_id : TaskId
  pub file_lengths_sum : ℕ

-- ReadAhead::Impl, and the recent data keeper.
pub record ReadAhead : Type 0 where
  pub use_sockets : Bool
  pub read_ahead_file_map : Assoc ℕ TaskId
  pub recents : List RecentData
  pub calls : List SessionCall

abbrev pub mmap_name : Text
mmap_name = b'm' ∷ b'm' ∷ b'a' ∷ b'p' ∷ []

abbrev pub mlock_name : Text
mlock_name = b'm' ∷ b'l' ∷ b'o' ∷ b'c' ∷ b'k' ∷ []

-- GetPrefetchStrategy of the property's value, as the number of the kind.
unfoldable pub get_prefetch_strategy : Text → ℕ
get_prefetch_strategy prefetch_env =
    if same_text prefetch_env mmap_name
    then 1
    else if same_text prefetch_env mlock_name
    then 2
    else 0

-- `while (recents_.size() > kRecentDataCount) recents_.pop_front();`
unfoldable pub pop_recents : List RecentData → List RecentData
pop_recents [] = []
pop_recents (r ∷ recents) =
    let rest = pop_recents recents in if ltb 5 (length (r ∷ recents)) then rest else r ∷ recents

-- RecordRecent
unfoldable pub record_recent : TaskId → ℕ → List RecentData → List RecentData
record_recent id file_lengths_sum recents =
    pop_recents recents ++ record { task_id = id; file_lengths_sum = file_lengths_sum } ∷ []

-- The loop over the index.
unfoldable pub register_calls : ℕ → List TraceFileIndexEntry → List SessionCall
register_calls session_id [] = []
register_calls session_id (e ∷ es) =
    let rest = register_calls session_id es in
    if is_negative e.id then rest else register session_id (to_size e.id) e.file_name ∷ rest

abbrev pub is_illegal : TraceFileEntry → Bool
is_illegal e = is_negative e.file_length || is_negative e.file_offset

abbrev pub prefetch_call : ℕ → ℕ → TraceFileEntry → SessionCall
prefetch_call session_id kind e = prefetch session_id (record {
  path_id = to_size e.index_id;
  kind = kind;
  length = to_size e.file_length;
  offset = to_size e.file_offset;
})

-- The loop over the list, with `length_sum`, a size_t.
unfoldable pub prefetch_list :
    ℕ → ℕ → List TraceFileEntry → List SessionCall → ℕ → List SessionCall × ℕ
prefetch_list session_id kind [] calls length_sum = (calls, length_sum)
prefetch_list session_id kind (e ∷ es) calls length_sum =
    if is_illegal e
    then prefetch_list session_id kind es calls length_sum
    else prefetch_list session_id kind es (calls ++ prefetch_call session_id kind e ∷ [])
        ((length_sum + to_size e.file_length) % 2 ^ 64)

-- Does the session manager have a session of the id behind some calls, if it had one before or not?
abbrev pub open_after : ℕ → Bool → List SessionCall → Bool
open_after session_id was_open [] = was_open
open_after session_id was_open (create i description ∷ calls) =
    open_after session_id (was_open || i == session_id) calls
open_after session_id was_open (create_from i description fd ∷ calls) =
    open_after session_id (was_open || i == session_id) calls
open_after session_id was_open (destroy i ∷ calls) =
    open_after session_id (was_open && not (i == session_id)) calls
open_after session_id was_open (register i path_id file_name ∷ calls) =
    open_after session_id was_open calls
open_after session_id was_open (prefetch i entry ∷ calls) = open_after session_id was_open calls

abbrev pub has_session : ℕ → ReadAhead → Bool
has_session session_id s = open_after session_id false s.calls

-- CreateSession, whose DCHECK wants no session of the id yet, and what comes behind it.
abbrev pub creating : TaskId → ReadAhead → ReadAhead → Outcome ReadAhead
creating id s behind = dcheck (not (has_session id.id s)) (ok behind)

-- BeginTaskForSockets, with the descriptor that open(2) gives for the path, if it does.
abbrev pub begin_task_for_sockets : TaskId → Option ℕ → ReadAhead → Outcome ReadAhead
begin_task_for_sockets id none s = ok s
begin_task_for_sockets id (some fd) s = creating id s (record s {
  calls = s.calls ++ create_from id.id id.path fd ∷ [];
  read_ahead_file_map = assign id.id id s.read_ahead_file_map;
})

abbrev pub finish_begin : TaskId → List SessionCall × ℕ → ReadAhead → ReadAhead
finish_begin id (calls, length_sum) s = record s {
  calls = calls;
  read_ahead_file_map = assign id.id id s.read_ahead_file_map;
  recents = record_recent id length_sum s.recents;
}

-- BeginTask without sockets, with the trace file of the path, if there is one.
abbrev pub begin_with : TaskId → ℕ → Option TraceFile → ReadAhead → ReadAhead
begin_with id kind none s = record s { calls = s.calls ++ create id.id id.path ∷ [] }
begin_with id kind (some trace) s =
    finish_begin id
      (prefetch_list id.id kind trace.list
        (s.calls ++ create id.id id.path ∷ register_calls id.id trace.index) 0)
      s

-- BeginTask, where `prefetch_env` is the property of the strategy.
unfoldable pub begin_task :
    TaskId → Text → (Text → Option TraceFile) → (Text → Option ℕ) → ReadAhead → Outcome ReadAhead
begin_task id prefetch_env open_trace open_file s =
    if s.use_sockets
    then begin_task_for_sockets id (open_file id.path) s
    else creating id s (begin_with id (get_prefetch_strategy prefetch_env) (open_trace id.path) s)

abbrev pub finish_found : Option TaskId → TaskId → ReadAhead → ReadAhead
finish_found none id s = s
finish_found (some task) id s = record s {
  calls = s.calls ++ destroy task.id ∷ [];
  read_ahead_file_map = erase id.id s.read_ahead_file_map;
}

-- FinishTask
unfoldable pub finish_task : TaskId → ReadAhead → ReadAhead
finish_task id s = finish_found (find id.id s.read_ahead_file_map) id s

-- The loop of PrefetchSizeInBytes.
unfoldable pub sum_lengths : List TraceFileEntry → ℕ → ℕ
sum_lengths [] length_sum = length_sum
sum_lengths (e ∷ es) length_sum =
    if is_illegal e
    then sum_lengths es length_sum
    else sum_lengths es ((length_sum + to_size e.file_length) % 2 ^ 64)

-- PrefetchSizeInBytes
unfoldable pub prefetch_size_in_bytes : (Text → Option TraceFile) → Text → Option ℕ
prefetch_size_in_bytes open_trace file_path = elim (open_trace file_path) [
  | none ↦ none
  | some trace ↦ some (sum_lengths trace.list 0)
]
