-- ===== src/Perfetto/Messages.antt =====
-- OnTraceMessage of PerfettoConsumerImpl::Impl in src/perfetto/perfetto_consumer.cc, and sequences of the
-- calls and messages.
use android_system_iorap.Prelude.{
  ℕ, zero, suc, ◌+◌, ◌-◌, ◌%◌, ◌^◌, ltb, Bool, List, [], ◌∷◌, Option, none, some, if◌then◌else◌,
  length,
}
use android_system_iorap.Prelude.Outcome.{Outcome, ok, fatal, ◌>>=◌}
use android_system_iorap.Perfetto.{
  StateKind, uncreated, created, started_tracing, read_tracing, timed_out_destroyed, destroyed,
  HandleDescription, trace_failed, ConsumerState, called, find_handle, create_handle,
  start_tracing_of, read_trace, destroy_handle, destroy_all,
}

-- The first `n` entries.
unfoldable pub first_entries : ℕ → List HandleDescription → Outcome (List HandleDescription)
first_entries zero states = ok []
first_entries (suc n) [] = fatal
first_entries (suc n) (d ∷ states) = first_entries n states >>= λ rest. ok (d ∷ rest)

-- The loop that collects handles to prune; it steps on before it reads an entry.
abbrev pub handles_to_prune : ℕ → List HandleDescription → Outcome (List HandleDescription)
handles_to_prune zero states = ok []
handles_to_prune (suc n) [] = fatal
handles_to_prune (suc n) (d ∷ states) = first_entries (suc n) states

pub data ConsumerCall : Type 0 where
  create_call : (now handle callback_arg : ℕ) → ConsumerCall
  start_tracing_call read_trace_call destroy_call trace_message : (now handle : ℕ) → ConsumerCall

-- Parameters of OnTraceMessage: the two properties, and the handles that a callback destroys.
module _ (timeout_ns max_trace_count : ℕ) (callback : (handle callback_arg : ℕ) → List ℕ) where
  abbrev pub call_back : ℕ → ℕ → ℕ → ConsumerState → ConsumerState
  call_back now handle callback_arg s =
      destroy_all now (callback handle callback_arg) (called (trace_failed handle callback_arg) s)

  -- Whether the trace has been active for too long.
  abbrev pub is_timed_out : ℕ → ℕ → Bool
  is_timed_out now started = ltb timeout_ns ((now + 2 ^ 64 - started) % 2 ^ 64)

  abbrev pub time_out_started :
      Option ℕ → ℕ → HandleDescription → ConsumerState → Outcome ConsumerState
  time_out_started none now d s = fatal
  time_out_started (some started) now d s =
      ok (if is_timed_out now started then call_back now d.handle d.callback_arg s else s)

  abbrev pub time_out_kind :
      StateKind → ℕ → HandleDescription → ConsumerState → Outcome ConsumerState
  time_out_kind started_tracing now d s = time_out_started d.started_tracing_ns now d s
  time_out_kind uncreated now d s = ok s
  time_out_kind created now d s = ok s
  time_out_kind read_tracing now d s = ok s
  time_out_kind timed_out_destroyed now d s = ok s
  time_out_kind destroyed now d s = ok s

  -- The callbacks of the pruned entries, with the handle of the message.
  unfoldable pub prune_all : ℕ → ℕ → List HandleDescription → ConsumerState → ConsumerState
  prune_all now handle [] s = s
  prune_all now handle (d ∷ handle_list) s =
      prune_all now handle handle_list (call_back now handle d.callback_arg s)

  abbrev pub prune : ℕ → ℕ → ConsumerState → Outcome ConsumerState
  prune now handle s =
      handles_to_prune (length s.states - max_trace_count) s.states >>= λ handle_list.
      ok (prune_all now handle handle_list s)

  abbrev pub message_found :
      Option HandleDescription → ℕ → ℕ → ConsumerState → Outcome ConsumerState
  message_found none now handle s = ok s
  message_found (some d) now handle s = time_out_kind d.kind now d s >>= prune now handle

  -- OnTraceMessage
  unfoldable pub on_trace_message : ℕ → ℕ → ConsumerState → Outcome ConsumerState
  on_trace_message now handle s = message_found (find_handle handle s.states) now handle s

  -- The calls of the rx chains and of the looper, one after another.
  unfoldable pub run_consumer : List ConsumerCall → ConsumerState → Outcome ConsumerState
  run_consumer [] s = ok s
  run_consumer (create_call now handle callback_arg ∷ calls) s =
      create_handle now handle callback_arg s >>= run_consumer calls
  run_consumer (start_tracing_call now handle ∷ calls) s =
      start_tracing_of now handle s >>= run_consumer calls
  run_consumer (read_trace_call now handle ∷ calls) s = run_consumer calls (read_trace now handle s)
  run_consumer (destroy_call now handle ∷ calls) s =
      run_consumer calls (destroy_handle now handle s)
  run_consumer (trace_message now handle ∷ calls) s =
      on_trace_message now handle s >>= run_consumer calls
