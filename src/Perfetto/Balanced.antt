-- ===== src/Perfetto/Balanced.antt =====
-- The operations of PerfettoConsumerImpl::Impl of src/perfetto/perfetto_consumer.cc on balanced states.
use android_system_iorap.Prelude.{
  ℕ, ◌+◌, ◌^◌, ◌≡◌, refl, ◌==◌, ltb, Bool, true, false, List, [], ◌∷◌, Option, none, some, arith,
  Bool-cases, inl, inr, Option-cases,
}
use android_system_iorap.Prelude.Outcome.{Outcome, ok, fatal, stalled, ◌>>=◌}
use android_system_iorap.Launch.State.{has_value}
use android_system_iorap.Perfetto.{
  StateKind, created, started_tracing, read_tracing, destroyed, HandleDescription,
  raw_start_tracing, raw_read_trace, raw_destroy, send_message, ConsumerState, called, find_handle,
  end_trace, update_handle_description, updated, new_handle, create_handle, start_tracing_of,
  read_trace, destroy_handle, destroy_all,
}
use android_system_iorap.Perfetto.Sections.{open_of, erase_handle-opened, insert_handle-opened}
use android_system_iorap.Perfetto.Balance.{
  Fits, update_kind-Moves, IsBalanced, find_handle-All, erase_handle-All, insert_handle-All,
  called-IsBalanced, updated-IsBalanced,
}

abbrev pub KeepsBalance : Outcome ConsumerState → Type 0
KeepsBalance fatal = Unit
KeepsBalance stalled = Unit
KeepsBalance (ok s) = IsBalanced s

pub then-KeepsBalance :
    (m : Outcome ConsumerState) (k : ConsumerState → Outcome ConsumerState)
    → KeepsBalance m
    → ((s : ConsumerState) → IsBalanced s → KeepsBalance (k s))
    → KeepsBalance (m >>= k)
then-KeepsBalance fatal k i f = tt
then-KeepsBalance stalled k i f = tt
then-KeepsBalance (ok s) k i f = f s i

update-IsBalanced :
    (now h : ℕ) (kind : StateKind) (d : HandleDescription) (s : ConsumerState)
    → find_handle h s.states ≡ some d
    → IsBalanced s
    → IsBalanced (updated (update_handle_description now kind d s))
update-IsBalanced now h kind d s f i =
    updated-IsBalanced h d s _ f
      (update_kind-Moves kind (record d { kind = kind; last_transition_ns = now }) s
        (find_handle-All Fits h s.states d f i.fits))
      i

pub create_handle-KeepsBalance :
    (now handle arg : ℕ) (s : ConsumerState)
    → IsBalanced s
    → KeepsBalance (create_handle now handle arg s)
unfolding create_handle
create_handle-KeepsBalance now handle arg s i = elim (Bool-cases (s.last_created + 1 == handle)) [
  | inr other ↦ rw other tt
  | inl next ↦ elim (Bool-cases (has_value (find_handle handle s.states))) [
    | inl there ↦ rw (next, there) tt
    | inr missing ↦
        rw (next, missing)
          (record {
            fits = insert_handle-All Fits _ s.states (inr (refl, refl)) i.fits;
            balance = λ c. omega (
              arith,
              i.balance c,
              insert_handle-opened c
                  (record (new_handle handle arg) { kind = created; last_transition_ns = now })
                  s.states,
            );
          })
  ]
]

pub start_tracing_of-KeepsBalance :
    (now handle : ℕ) (s : ConsumerState)
    → IsBalanced s
    → KeepsBalance (start_tracing_of now handle s)
unfolding start_tracing_of
start_tracing_of-KeepsBalance now handle s i = elim (Option-cases (find_handle handle s.states)) [
  | inl missing ↦ rw missing i
  | inr (d, found) ↦ rw found (elim (Bool-cases (ltb handle (2 ^ 31))) [
    | inr large ↦ rw large tt
    | inl small ↦ rw small (
        called-IsBalanced (send_message handle) _ (λ c. refl) (λ c. refl)
          (update-IsBalanced now handle started_tracing d (called (raw_start_tracing handle) s)
            found (called-IsBalanced (raw_start_tracing handle) s (λ c. refl) (λ c. refl) i)))
  ])
]

pub read_trace-IsBalanced :
    (now handle : ℕ) (s : ConsumerState) → IsBalanced s → IsBalanced (read_trace now handle s)
unfolding read_trace
read_trace-IsBalanced now handle s i = elim (Option-cases (find_handle handle s.states)) [
  | inl missing ↦ rw missing i
  | inr (d, found) ↦ rw found (
      update-IsBalanced now handle read_tracing d (called (raw_read_trace handle) s) found
        (called-IsBalanced (raw_read_trace handle) s (λ c. refl) (λ c. refl) i))
]

-- Nothing is open behind the end of a section.
end_trace-closed :
    (o : Option ℕ) (ended : Bool) (d : HandleDescription) (s : ConsumerState) (c : ℕ)
    → d.trace_cookie ≡ o
    → d.trace_ended ≡ ended
    → open_of c (end_trace o ended d s).0 ≡ 0
end_trace-closed none ended d s c eo ee = rw eo refl
end_trace-closed (some cookie) true d s c eo ee = rw (eo, ee) (ground arith)
end_trace-closed (some cookie) false d s c eo ee = rw eo (ground arith)

pub destroy_handle-IsBalanced :
    (now handle : ℕ) (s : ConsumerState) → IsBalanced s → IsBalanced (destroy_handle now handle s)
unfolding destroy_handle
destroy_handle-IsBalanced now handle s i = elim (Option-cases (find_handle handle s.states)) [
  | inl missing ↦ rw missing i
  | inr (d, found) ↦
      let s1 = called (raw_destroy handle) s in
      let i1 = called-IsBalanced (raw_destroy handle) s (λ c. refl) (λ c. refl) i in
      let d1 : HandleDescription = record d { kind = destroyed; last_transition_ns = now } in
      let (fit, eh, es, moves) =
        update_kind-Moves destroyed d1 s1 (find_handle-All Fits handle s.states d found i.fits) in
      rw (found, es)
        (record {
          fits = erase_handle-All Fits handle s.states i.fits;
          balance = λ c. omega (
            arith,
            moves c,
            i1.balance c,
            erase_handle-opened c handle d s.states found,
            end_trace-closed d.trace_cookie d.trace_ended d1 s1 c refl refl,
          );
        })
]

pub destroy_all-IsBalanced :
    (now : ℕ) (handles : List ℕ) (s : ConsumerState)
    → IsBalanced s
    → IsBalanced (destroy_all now handles s)
unfolding destroy_all
destroy_all-IsBalanced now [] s i = i
destroy_all-IsBalanced now (h ∷ handles) s i =
    destroy_all-IsBalanced now handles _ (destroy_handle-IsBalanced now h s i)
