-- ===== src/Perfetto/Balance.antt =====
-- The atrace sections that PerfettoConsumerImpl::Impl of src/perfetto/perfetto_consumer.cc begins and ends.
use android_system_iorap.Prelude.{
  ℕ, ◌+◌, ◌%◌, ◌^◌, ◌≡◌, refl, subst, ◌∙◌, ◌==◌, ltb, Bool, true, false, List, [], ◌∷◌, Option,
  none, some, arith, Bool-cases, inl, inr, ◌⊎◌, All,
}
use android_system_iorap.Launch.State.{has_value}
use android_system_iorap.Perfetto.{
  StateKind, uncreated, created, started_tracing, read_tracing, timed_out_destroyed, destroyed,
  HandleDescription, PerfettoCall, atrace_begin, atrace_end, ConsumerState, called, find_handle,
  put_handle, erase_handle, insert_handle, end_trace, begin_trace, read_first, update_kind, updated,
}
use android_system_iorap.Perfetto.Sections.{
  begins, ends, begins-append, ends-append, open_of, opened, put_handle-opened,
}

-- A handle has a cookie once its trace was started.
abbrev pub Fits : HandleDescription → Type 0
Fits d =
    (has_value d.started_tracing_ns ≡ true) ⊎ ((d.trace_cookie ≡ none) × (d.trace_ended ≡ false))

-- An update of `d` moves sections from open to ended, or begins open ones.
abbrev pub Moves : HandleDescription → ConsumerState → HandleDescription × ConsumerState → Type 0
Moves d s (d', s') =
    Fits d'
    × (d'.handle ≡ d.handle)
    × (s'.states ≡ s.states)
    × ((c : ℕ)
        → (ends c s'.calls + open_of c d') + begins c s.calls
          ≡ (ends c s.calls + open_of c d) + begins c s'.calls)

end_trace-Moves :
    (o : Option ℕ) (ended : Bool) (d : HandleDescription) (s : ConsumerState)
    → d.trace_cookie ≡ o
    → d.trace_ended ≡ ended
    → Fits d
    → Moves d s (end_trace o ended d s)
end_trace-Moves none ended d s eo ee f = (f, refl, refl, λ c. refl)
end_trace-Moves (some cookie) true d s eo ee f = (f, refl, refl, λ c. refl)
end_trace-Moves (some cookie) false d s eo ee f = (
  elim f [ inl has ↦ inl has | inr (n, w) ↦ absurd (ground arith) ],
  refl,
  refl,
  λ c.
      rw
        (
          ends-append c s.calls (atrace_end cookie ∷ []),
          begins-append c s.calls (atrace_end cookie ∷ []),
          eo,
          ee,
        )
        (ground arith),
)

begin_trace-Moves :
    (o : Option ℕ) (d : HandleDescription) (s : ConsumerState)
    → d.started_tracing_ns ≡ o
    → Fits d
    → Moves d s (begin_trace o d s)
begin_trace-Moves (some started) d s eo f = (f, refl, refl, λ c. refl)
begin_trace-Moves none d s eo (inl has) = absurd (ground arith)
begin_trace-Moves none d s eo (inr (n, w)) =
    let cookie = (s.trace_cookie + 1) % 2 ^ 64 in
    (
      inl refl,
      refl,
      refl,
      λ c.
          rw
            (
              ends-append c s.calls (atrace_begin cookie ∷ []),
              begins-append c s.calls (atrace_begin cookie ∷ []),
              n,
              w,
            )
            (ground arith),
    )

read_first-Moves :
    (o : Option ℕ) (d : HandleDescription) (s : ConsumerState)
    → Fits d
    → Moves d s (read_first o d s)
read_first-Moves (some read) d s f = (f, refl, refl, λ c. refl)
read_first-Moves none d s f =
    end_trace-Moves d.trace_cookie d.trace_ended
      (record d { read_trace_ns = some d.last_transition_ns }) s refl refl f

pub update_kind-Moves :
    (kind : StateKind) (d : HandleDescription) (s : ConsumerState)
    → Fits d
    → Moves d s (update_kind kind d s)
update_kind-Moves started_tracing d s f = begin_trace-Moves d.started_tracing_ns d s refl f
update_kind-Moves read_tracing d s f = read_first-Moves d.read_trace_ns d s f
update_kind-Moves destroyed d s f = end_trace-Moves d.trace_cookie d.trace_ended d s refl refl f
update_kind-Moves uncreated d s f = (f, refl, refl, λ c. refl)
update_kind-Moves created d s f = (f, refl, refl, λ c. refl)
update_kind-Moves timed_out_destroyed d s f = (f, refl, refl, λ c. refl)

-- Each section that was begun was ended or is open.
pub record IsBalanced (s : ConsumerState) : Type 0 where
  pub fits : All Fits s.states
  pub balance : (c : ℕ) → ends c s.calls + opened c s.states ≡ begins c s.calls

find_handle-handle :
    (h : ℕ) (states : List HandleDescription) (d : HandleDescription)
    → find_handle h states ≡ some d
    → d.handle ≡ h
unfolding find_handle
find_handle-handle h [] d f = absurd (ground arith)
find_handle-handle h (x ∷ states) d f = ground (arith, find_handle-handle h states d)

module _ {κ} (P : HandleDescription → Type κ) where
  pub find_handle-All :
      (h : ℕ) (states : List HandleDescription) (d : HandleDescription)
      → find_handle h states ≡ some d
      → All P states
      → P d
  unfolding find_handle
  find_handle-All h [] d f a = absurd (ground arith)
  find_handle-All h (x ∷ states) d f (a, later) = elim (Bool-cases (x.handle == h)) [
    | inl here ↦ subst P (ground arith) a
    | inr there ↦ find_handle-All h states d (ground arith) later
  ]

  put_handle-All :
      (d : HandleDescription) (states : List HandleDescription)
      → P d
      → All P states
      → All P (put_handle d states)
  unfolding put_handle
  put_handle-All d [] h a = tt
  put_handle-All d (x ∷ states) h (a, later) = elim (Bool-cases (x.handle == d.handle)) [
    | inl here ↦ rw here (h, later)
    | inr there ↦ rw there (a, put_handle-All d states h later)
  ]

  pub erase_handle-All :
      (k : ℕ) (states : List HandleDescription) → All P states → All P (erase_handle k states)
  unfolding erase_handle
  erase_handle-All k [] a = tt
  erase_handle-All k (x ∷ states) (a, later) = elim (Bool-cases (x.handle == k)) [
    | inl here ↦ rw here later
    | inr there ↦ rw there (a, erase_handle-All k states later)
  ]

  pub insert_handle-All :
      (d : HandleDescription) (states : List HandleDescription)
      → P d
      → All P states
      → All P (insert_handle d states)
  unfolding insert_handle
  insert_handle-All d [] h a = (h, tt)
  insert_handle-All d (x ∷ states) h (a, later) = elim (Bool-cases (ltb d.handle x.handle)) [
    | inl here ↦ rw here (h, (a, later))
    | inr there ↦ rw there (a, insert_handle-All d states h later)
  ]

-- Calls that are no sections of atrace change nothing.
pub called-IsBalanced :
    (x : PerfettoCall) (s : ConsumerState)
    → ((c : ℕ) → ends c (x ∷ []) ≡ 0)
    → ((c : ℕ) → begins c (x ∷ []) ≡ 0)
    → IsBalanced s
    → IsBalanced (called x s)
called-IsBalanced x s e b i = record {
  fits = i.fits;
  balance = λ c. omega (
    arith,
    ends-append c s.calls (x ∷ []),
    begins-append c s.calls (x ∷ []),
    e c,
    b c,
    i.balance c,
  );
}

pub updated-IsBalanced :
    (h : ℕ) (d : HandleDescription) (s : ConsumerState) (r : HandleDescription × ConsumerState)
    → find_handle h s.states ≡ some d
    → Moves d s r
    → IsBalanced s
    → IsBalanced (updated r)
updated-IsBalanced h d s (d', s') f (fit, eh, es, moves) i = record {
  fits = put_handle-All Fits d' s'.states fit (rw es i.fits);
  balance = λ c. rw es (
      omega (
        arith,
        moves c,
        i.balance c,
        put_handle-opened c h d d' s.states f (eh ∙ find_handle-handle h s.states d f),
      ));
}
