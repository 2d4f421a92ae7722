-- ===== src/Perfetto/Runs.antt =====
-- Messages of the looper and whole runs of PerfettoConsumerImpl::Impl of src/perfetto/perfetto_consumer.cc.
use android_system_iorap.Prelude.{
  ℕ, ◌+◌, ◌-◌, ◌≡◌, refl, subst, List, [], ◌∷◌, Option, none, some, Bool-cases, inl, inr,
  Option-cases, length,
}
use android_system_iorap.Prelude.Outcome.{Outcome, ok, fatal, stalled, ◌>>=◌}
use android_system_iorap.Perfetto.{
  StateKind, uncreated, created, started_tracing, read_tracing, timed_out_destroyed, destroyed,
  HandleDescription, trace_failed, ConsumerState, new_consumer, called, find_handle,
}
use android_system_iorap.Perfetto.Messages.{
  ConsumerCall, create_call, start_tracing_call, read_trace_call, destroy_call, trace_message,
  run_consumer, handles_to_prune, call_back, is_timed_out, time_out_started, time_out_kind,
  prune_all, on_trace_message,
}
use android_system_iorap.Perfetto.Sections.{begins, ends, opened}
use android_system_iorap.Perfetto.Balance.{IsBalanced, called-IsBalanced}
use android_system_iorap.Perfetto.Balanced.{
  KeepsBalance, then-KeepsBalance, create_handle-KeepsBalance, start_tracing_of-KeepsBalance,
  read_trace-IsBalanced, destroy_handle-IsBalanced, destroy_all-IsBalanced,
}

module _ (timeout_ns max_trace_count : ℕ) (callback : (handle callback_arg : ℕ) → List ℕ) where
  call_back-IsBalanced :
      (now handle arg : ℕ) (s : ConsumerState)
      → IsBalanced s
      → IsBalanced (call_back timeout_ns max_trace_count callback now handle arg s)
  call_back-IsBalanced now handle arg s i =
      destroy_all-IsBalanced now (callback handle arg) (called (trace_failed handle arg) s)
        (called-IsBalanced (trace_failed handle arg) s (λ c. refl) (λ c. refl) i)

  prune_all-IsBalanced :
      (now handle : ℕ) (handle_list : List HandleDescription) (s : ConsumerState)
      → IsBalanced s
      → IsBalanced (prune_all timeout_ns max_trace_count callback now handle handle_list s)
  unfolding prune_all
  prune_all-IsBalanced now handle [] s i = i
  prune_all-IsBalanced now handle (d ∷ handle_list) s i =
      prune_all-IsBalanced now handle handle_list _
        (call_back-IsBalanced now handle d.callback_arg s i)

  prune-KeepsBalance :
      (now handle : ℕ) (o : Outcome (List HandleDescription)) (s : ConsumerState)
      → IsBalanced s
      → KeepsBalance (
          o >>= λ handle_list.
          ok (prune_all timeout_ns max_trace_count callback now handle handle_list s))
  prune-KeepsBalance now handle fatal s i = tt
  prune-KeepsBalance now handle stalled s i = tt
  prune-KeepsBalance now handle (ok handle_list) s i =
      prune_all-IsBalanced now handle handle_list s i

  time_out_started-KeepsBalance :
      (o : Option ℕ) (now : ℕ) (d : HandleDescription) (s : ConsumerState)
      → IsBalanced s
      → KeepsBalance (time_out_started timeout_ns max_trace_count callback o now d s)
  time_out_started-KeepsBalance none now d s i = tt
  time_out_started-KeepsBalance (some started) now d s i =
      elim (Bool-cases (is_timed_out timeout_ns max_trace_count callback now started)) [
        | inl late ↦ rw late (call_back-IsBalanced now d.handle d.callback_arg s i)
        | inr early ↦ rw early i
      ]

  time_out_kind-KeepsBalance :
      (kind : StateKind) (now : ℕ) (d : HandleDescription) (s : ConsumerState)
      → IsBalanced s
      → KeepsBalance (time_out_kind timeout_ns max_trace_count callback kind now d s)
  time_out_kind-KeepsBalance started_tracing now d s i =
      time_out_started-KeepsBalance d.started_tracing_ns now d s i
  time_out_kind-KeepsBalance uncreated now d s i = i
  time_out_kind-KeepsBalance created now d s i = i
  time_out_kind-KeepsBalance read_tracing now d s i = i
  time_out_kind-KeepsBalance timed_out_destroyed now d s i = i
  time_out_kind-KeepsBalance destroyed now d s i = i

  on_trace_message-KeepsBalance :
      (now handle : ℕ) (s : ConsumerState)
      → IsBalanced s
      → KeepsBalance (on_trace_message timeout_ns max_trace_count callback now handle s)
  unfolding on_trace_message
  on_trace_message-KeepsBalance now handle s i = elim (Option-cases (find_handle handle s.states)) [
    | inl missing ↦ rw missing i
    | inr (d, found) ↦ rw found (
        then-KeepsBalance _ _ (time_out_kind-KeepsBalance d.kind now d s i) (λ s' i'.
          prune-KeepsBalance now handle
            (handles_to_prune (length s'.states - max_trace_count) s'.states) s' i'))
  ]

  run_consumer-KeepsBalance :
      (calls : List ConsumerCall) (s : ConsumerState)
      → IsBalanced s
      → KeepsBalance (run_consumer timeout_ns max_trace_count callback calls s)
  unfolding run_consumer
  run_consumer-KeepsBalance [] s i = i
  run_consumer-KeepsBalance (create_call now handle arg ∷ calls) s i =
      then-KeepsBalance _ _ (create_handle-KeepsBalance now handle arg s i)
        (run_consumer-KeepsBalance calls)
  run_consumer-KeepsBalance (start_tracing_call now handle ∷ calls) s i =
      then-KeepsBalance _ _ (start_tracing_of-KeepsBalance now handle s i)
        (run_consumer-KeepsBalance calls)
  run_consumer-KeepsBalance (read_trace_call now handle ∷ calls) s i =
      run_consumer-KeepsBalance calls _ (read_trace-IsBalanced now handle s i)
  run_consumer-KeepsBalance (destroy_call now handle ∷ calls) s i =
      run_consumer-KeepsBalance calls _ (destroy_handle-IsBalanced now handle s i)
  run_consumer-KeepsBalance (trace_message now handle ∷ calls) s i =
      then-KeepsBalance _ _ (on_trace_message-KeepsBalance now handle s i)
        (run_consumer-KeepsBalance calls)

  -- After any calls of a new consumer and messages to it that do not abort, whatever the callbacks
  -- destroy, the sections of each cookie that were begun are those that were ended and those that are
  -- open for a tracked handle.
  pub run_consumer-balance :
      (calls : List ConsumerCall) (s : ConsumerState)
      → run_consumer timeout_ns max_trace_count callback calls new_consumer ≡ ok s
      → (c : ℕ) → ends c s.calls + opened c s.states ≡ begins c s.calls
  run_consumer-balance calls s e c =
      let i : IsBalanced s = subst KeepsBalance e (
        run_consumer-KeepsBalance calls new_consumer (record { fits = tt; balance = λ k. refl })) in
      i.balance c
