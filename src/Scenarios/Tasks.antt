-- ===== src/Scenarios/Tasks.antt =====
-- A readahead task on a concrete trace file.
use android_system_iorap.Prelude.{
  ℕ, ◌≡◌, refl, false, List, [], ◌∷◌, Option, none, some, Text, pos, negsuc, length, nat_key,
}
use android_system_iorap.Prelude.Outcome.{ok, fatal, ◌>>=◌}
use android_system_iorap.Prelude.Assoc.{find}
use android_system_iorap.Launch.State.{TaskId}
use android_system_iorap.Session.{TraceFile}
use android_system_iorap.Tasks.{
  ReadAhead, RecentData, create, register, prefetch, destroy, has_session, begin_task, finish_task,
  record_recent, pop_recents, get_prefetch_strategy, prefetch_size_in_bytes, sum_lengths,
}
use android_system_iorap.Tasks.Life.{IsRemembered, finish_task-begin_task}

abbrev task : TaskId
task = record { id = 8; path = b't' ∷ [] }

-- The second path has a negative id, the second entry a negative length and the last a negative offset.
abbrev trace : TraceFile
trace = record {
  index =
      record { id = pos 1; file_name = b'a' ∷ [] }
      ∷ record { id = negsuc 0; file_name = b'b' ∷ [] }
      ∷ [];
  list =
      record { index_id = pos 1; file_offset = pos 0; file_length = pos 64 }
      ∷ record { index_id = pos 1; file_offset = pos 0; file_length = negsuc 3 }
      ∷ record { index_id = pos 1; file_offset = pos 64; file_length = pos 32 }
      ∷ record { index_id = pos 1; file_offset = negsuc 9; file_length = pos 16 }
      ∷ [];
}

abbrev idle : ReadAhead
idle = record { use_sockets = false; read_ahead_file_map = []; recents = []; calls = [] }

abbrev no_fd : Text → Option ℕ
no_fd path = none

size_of_trace : prefetch_size_in_bytes (λ path. some trace) (b't' ∷ []) ≡ some 96
unfolding prefetch_size_in_bytes sum_lengths
size_of_trace = refl

-- Without its trace file a task leaves a session behind, which FinishTask does not find.
abbrev no_trace : Text → Option TraceFile
no_trace path = none

left_behind :
    (begin_task task [] no_trace no_fd idle >>= λ s. ok (finish_task task s).calls)
    ≡ ok (create 8 (b't' ∷ []) ∷ [])
unfolding begin_task finish_task find
left_behind = refl

-- Then a DCHECK fails when a task of the same id begins.
begin_again :
    (begin_task task [] no_trace no_fd idle >>= λ s.
    begin_task task [] no_trace no_fd (finish_task task s))
    ≡ fatal
unfolding begin_task finish_task find
begin_again = refl

-- Six tasks are remembered, not five.
abbrev remember : List RecentData → List RecentData
remember recents = record_recent task 1 recents

six : length (remember (remember (remember (remember (remember (remember (remember []))))))) ≡ 6
unfolding record_recent pop_recents
six = refl

finish_task-begin_task_example :
    (s' : ReadAhead) × (n : ℕ) × ((begin_task task [] (λ path. some trace) no_fd idle >>= λ begun.
    ok (finish_task task begun))
      ≡ ok s')
    × (s'.calls
        ≡ create 8 (b't' ∷ [])
          ∷ register 8 1 (b'a' ∷ [])
          ∷ prefetch 8 (record { path_id = 1; kind = 0; length = 64; offset = 0 })
          ∷ prefetch 8 (record { path_id = 1; kind = 0; length = 32; offset = 64 })
          ∷ destroy 8
          ∷ [])
    × (has_session 8 s' ≡ false)
    × ((j : ℕ) → find j s'.read_ahead_file_map ≡ find j idle.read_ahead_file_map)
    × IsRemembered (record { task_id = task; file_lengths_sum = n }) [] s'.recents
    × (prefetch_size_in_bytes (λ path. some trace) (b't' ∷ []) ≡ some n)
unfolding find get_prefetch_strategy
finish_task-begin_task_example =
    finish_task-begin_task task [] (λ path. some trace) no_fd idle trace refl refl refl refl
