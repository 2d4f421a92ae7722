-- ===== src/Tasks/Life.antt =====
-- The life of a readahead task of src/prefetcher/read_ahead.cc.
use android_system_iorap.Prelude.{
  ℕ, ◌≤◌, ◌≡◌, refl, ◌∙◌, ap, not, false, List, [], ◌∷◌, ◌++◌, Option, none, some, Text, nat_key,
  arith, length, ◌⊎◌, subst, ltb, Bool-cases, inl, inr, ==_iff, if_false, append_assoc,
}
use android_system_iorap.Prelude.Outcome.{ok, ◌>>=◌}
use android_system_iorap.Prelude.Assoc.{find, assign, find-erase, find-assign}
use android_system_iorap.Launch.State.{TaskId, dcheck}
use android_system_iorap.Session.{TraceFile}
use android_system_iorap.Tasks.{
  SessionCall, create, has_session, creating, destroy, RecentData, ReadAhead, pop_recents,
  record_recent, register_calls, finish_begin, begin_with, begin_task, finish_found, finish_task,
  sum_lengths, prefetch_size_in_bytes, get_prefetch_strategy,
}
use android_system_iorap.Tasks.Calls.{
  prefetch_calls, prefetch_list_lem, path_calls, page_calls, register_calls-path_calls,
  prefetch_calls-page_calls, open_after-destroy,
}

begin_task-trace :
    (id : TaskId) (env : Text) (open_trace : Text → Option TraceFile) (open_file : Text → Option ℕ)
    (s : ReadAhead) (t : TraceFile)
    → s.use_sockets ≡ false
    → has_session id.id s ≡ false
    → open_trace id.path ≡ some t
    → begin_task id env open_trace open_file s
      ≡ ok (
          finish_begin id
            (
              (s.calls ++ create id.id id.path ∷ register_calls id.id t.index)
                  ++ prefetch_calls id.id (get_prefetch_strategy env) t.list,
              sum_lengths t.list 0,
            )
            s)
unfolding begin_task
begin_task-trace id env open_trace open_file s t pipes new found =
    if_false pipes _ _
    ∙ ap (λ o. creating id s (begin_with id (get_prefetch_strategy env) o s)) found
    ∙ ap (λ b. dcheck (not b) (ok (begin_with id (get_prefetch_strategy env) (some t) s))) new
    ∙ ap (λ r. ok (finish_begin id r s))
        (prefetch_list_lem id.id (get_prefetch_strategy env) t.list
          (s.calls ++ create id.id id.path ∷ register_calls id.id t.index) 0)

-- The loop drops tasks from the front as long as more than five are left.
pop_recents_split :
    (recents : List RecentData)
    → (dropped : List RecentData) × (recents ≡ dropped ++ pop_recents recents)
      × ((dropped ≡ []) ⊎ (5 ≤ length (pop_recents recents)))
unfolding pop_recents
pop_recents_split [] = ([], refl, inl refl)
pop_recents_split (r ∷ recents) = elim (Bool-cases (ltb 5 (length (r ∷ recents)))) [
  | inl more ↦ rw more (
      let (dropped, e, c) = pop_recents_split recents in
      (
        r ∷ dropped,
        ap (λ l. r ∷ l) e,
        inr (elim c [
          | inl none_yet ↦
              subst (λ l. 5 ≤ length l) (e ∙ ap (λ d. d ++ pop_recents recents) none_yet)
                (ground arith)
          | inr five ↦ five
        ]),
      ))
  | inr few ↦ rw few ([], refl, inl refl)
]

-- The task is remembered behind all the earlier ones, or at least the last five of them.
abbrev pub IsRemembered : RecentData → List RecentData → List RecentData → Type 0
IsRemembered new before after =
    (dropped kept : List RecentData) × (before ≡ dropped ++ kept)
    × (after ≡ kept ++ new ∷ [])
    × ((dropped ≡ []) ⊎ (5 ≤ length kept))

record_recent-IsRemembered :
    (id : TaskId) (n : ℕ) (recents : List RecentData)
    → IsRemembered
        (record { task_id = id; file_lengths_sum = n })
        recents
        (record_recent id n recents)
unfolding record_recent
record_recent-IsRemembered id n recents =
    let (dropped, e, c) = pop_recents_split recents in (dropped, pop_recents recents, e, refl, c)

finish_task-found :
    (id task : TaskId) (s : ReadAhead)
    → find id.id s.read_ahead_file_map ≡ some task
    → finish_task id s ≡ finish_found (some task) id s
unfolding finish_task
finish_task-found id task s e = ap (λ o. finish_found o id s) e

-- The calls of a whole task.
abbrev pub task_calls : TaskId → ℕ → TraceFile → List SessionCall
task_calls id kind t =
    create id.id id.path
    ∷ (path_calls id.id t.index ++ (page_calls id.id kind t.list ++ destroy id.id ∷ []))

-- A task without sockets that is new, whose id no session has, and that has a trace file begins and
-- is finished: it has created a session; registered each path of the index whose id is not negative, and
-- read ahead each entry of the list whose offset and length are not negative, in their order; and
-- destroyed that session, so that no session has the id. The map of tasks is as before; and the task is
-- remembered with the size that PrefetchSizeInBytes says, behind the earlier ones, of which at least the
-- last five stay.
pub finish_task-begin_task :
    (id : TaskId) (env : Text) (open_trace : Text → Option TraceFile) (open_file : Text → Option ℕ)
    (s : ReadAhead) (t : TraceFile)
    → s.use_sockets ≡ false
    → has_session id.id s ≡ false
    → open_trace id.path ≡ some t
    → find id.id s.read_ahead_file_map ≡ none
    → (s' : ReadAhead) × (n : ℕ) × ((begin_task id env open_trace open_file s >>= λ begun.
          ok (finish_task id begun))
        ≡ ok s')
      × (s'.calls ≡ s.calls ++ task_calls id (get_prefetch_strategy env) t)
      × (has_session id.id s' ≡ false)
      × ((j : ℕ) → find j s'.read_ahead_file_map ≡ find j s.read_ahead_file_map)
      × IsRemembered (record { task_id = id; file_lengths_sum = n }) s.recents s'.recents
      × (prefetch_size_in_bytes open_trace id.path ≡ some n)
unfolding prefetch_size_in_bytes
finish_task-begin_task id env open_trace open_file s t pipes none_yet found new =
    let calls =
      (s.calls ++ create id.id id.path ∷ register_calls id.id t.index)
      ++ prefetch_calls id.id (get_prefetch_strategy env) t.list in
    let begun = finish_begin id (calls, sum_lengths t.list 0) s in
    (
      finish_found (some id) id begun,
      sum_lengths t.list 0,
      ap (λ m. m >>= λ b. ok (finish_task id b))
            (begin_task-trace id env open_trace open_file s t pipes none_yet found)
          ∙ ap ok (
              finish_task-found id id begun (
                ground
                  (arith, find-assign id.id id.id id s.read_ahead_file_map, ==_iff id.id id.id))),
      rw
          (
            append_assoc,
            append_assoc,
            register_calls-path_calls id.id t.index,
            prefetch_calls-page_calls id.id (get_prefetch_strategy env) t.list,
          )
          refl,
      open_after-destroy id.id false calls,
      λ j. ground (
        arith,
        new,
        find-erase id.id j (assign id.id id s.read_ahead_file_map),
        find-assign id.id j id s.read_ahead_file_map,
        ==_iff id.id j,
      ),
      record_recent-IsRemembered id (sum_lengths t.list 0) s.recents,
      ap (λ o. elim o [ none ↦ none | some trace ↦ some (sum_lengths trace.list 0) ]) found,
    )
