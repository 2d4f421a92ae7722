-- ===== src/Scenarios/Perfetto.antt =====
-- Runs of the perfetto consumer.
use android_system_iorap.Prelude.{◌+◌, ◌≡◌, refl, false, List, [], ◌∷◌, none, some}
use android_system_iorap.Prelude.Outcome.{Outcome, ok, ◌>>=◌}
use android_system_iorap.Perfetto.{
  PerfettoCall, raw_start_tracing, raw_read_trace, raw_destroy, started_tracing, send_message,
  trace_failed, atrace_begin, atrace_end, ConsumerState, new_consumer, create_handle,
  start_tracing_of, read_trace, destroy_handle, destroy_all, find_handle, put_handle, erase_handle,
  insert_handle,
}
use android_system_iorap.Perfetto.Messages.{
  ConsumerCall, create_call, start_tracing_call, read_trace_call, destroy_call, trace_message,
  run_consumer, on_trace_message, prune_all, first_entries,
}
use android_system_iorap.Perfetto.Sections.{begins, ends, opened}
use android_system_iorap.Perfetto.Runs.{run_consumer-balance}
use android_system_iorap.Prelude.{ℕ, nat_key}
use android_system_iorap.Prelude.Assoc.{find, assign, erase}
use android_system_iorap.Perfetto.Subject.{
  PerfettoState, connecting, tracing, connection_error, on_next, on_error, new_subject,
  StateSubjects, run_callbacks, callback_on_state_changed, on_state_changed,
  is_valid_state_transition,
}
use android_system_iorap.Perfetto.Stream.{IsStream, run_callbacks-IsStream}

-- The second handle is started and not yet read.
abbrev two_traces : List ConsumerCall
two_traces =
    create_call 1 1 71
    ∷ start_tracing_call 2 1
    ∷ create_call 3 2 72
    ∷ start_tracing_call 4 2
    ∷ read_trace_call 5 1
    ∷ destroy_call 6 1
    ∷ trace_message 7 1
    ∷ trace_message 8 2
    ∷ []

abbrev after : ConsumerState
after = record {
  states =
      record {
        handle = 2;
        kind = started_tracing;
        callback_arg = 72;
        started_tracing_ns = some 4;
        read_trace_ns = none;
        last_transition_ns = 4;
        trace_cookie = some 2;
        trace_ended = false;
      }
      ∷ [];
  last_created = 2;
  last_destroyed = 1;
  trace_cookie = 2;
  calls =
      raw_start_tracing 1
      ∷ atrace_begin 1
      ∷ send_message 1
      ∷ raw_start_tracing 2
      ∷ atrace_begin 2
      ∷ send_message 2
      ∷ raw_read_trace 1
      ∷ atrace_end 1
      ∷ raw_destroy 1
      ∷ [];
}

run_consumer-balance_example : ends 2 after.calls + opened 2 after.states ≡ begins 2 after.calls
unfolding run_consumer create_handle find_handle insert_handle on_trace_message first_entries
    prune_all destroy_all destroy_handle erase_handle start_tracing_of read_trace put_handle
run_consumer-balance_example =
    run_consumer-balance 1000 2 (λ handle callback_arg. handle ∷ []) two_traces after refl 2

abbrev calls_of : Outcome ConsumerState → Outcome (List PerfettoCall)
calls_of m = m >>= λ s. ok s.calls

-- Two of three handles are one too many. The callback is that of the second handle, not of the first
-- one, and it is told of the third handle, to which the message was sent.
pruned :
    calls_of (
      run_consumer 1000 2
        (λ handle callback_arg. handle ∷ [])
        (create_call 1 1 71 ∷ create_call 2 2 72 ∷ create_call 3 3 73 ∷ trace_message 4 3 ∷ [])
        new_consumer)
    ≡ ok (trace_failed 3 72 ∷ raw_destroy 3 ∷ [])
unfolding run_consumer create_handle find_handle insert_handle on_trace_message first_entries
    prune_all destroy_all destroy_handle erase_handle
pruned = refl

-- Handle 1 is tracing, handle 2 was refused.
abbrev bound : StateSubjects
bound = record {
  state_subject_map = (1, new_subject false) ∷ (2, new_subject false) ∷ [];
  emitted = [];
}

abbrev reports : List (ℕ × PerfettoState)
reports =
    (1, connecting) ∷ (2, connecting) ∷ (1, tracing) ∷ (2, connection_error) ∷ (2, connecting) ∷ []

abbrev reported : StateSubjects
reported = record {
  state_subject_map = (1, record { last_state = tracing; deferred_start = false }) ∷ [];
  emitted =
      (1, on_next connecting) ∷ (2, on_next connecting) ∷ (1, on_next tracing) ∷ (2, on_error) ∷ [];
}

run_callbacks-IsStream_example : IsStream 2 reported
unfolding run_callbacks callback_on_state_changed on_state_changed is_valid_state_transition find
    assign erase
run_callbacks-IsStream_example =
    run_callbacks-IsStream 2 (new_subject false) reports bound reported refl refl refl
