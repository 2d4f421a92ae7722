-- ===== src/Compiler/Select.antt =====
-- SelectPageCacheFtraceEvents of src/compiler/compiler.cc: when it aborts, and what it emits.
use android_system_iorap.Prelude.{
  ℕ, ◌≡◌, refl, subst, ◌⊎◌, ltb, Bool, true, false, not, ◌&&◌, ◌||◌, List, [], ◌∷◌, ◌++◌, Option,
  none, some, Bool-cases, inl, inr, if◌then◌else◌,
}
use android_system_iorap.Prelude.Outcome.{Outcome, ok, fatal, ◌>>=◌}
use android_system_iorap.Launch.State.{has_value}
use android_system_iorap.Compiler.{
  FtraceEvent, FtraceEventBundle, Trace, PageCacheFtraceEvent, emit_payload, select_event,
  timestamp_or_zero, select_events, select_bundle, value_or_packet, select_packets,
  select_page_cache_ftrace_events, get_start_timestamp,
}
use android_system_iorap.Compiler.Start.{}

-- Has an event no timestamp?
abbrev pub lacks_stamp : List FtraceEvent → Bool
lacks_stamp [] = false
lacks_stamp (e ∷ events) = not (has_value e.timestamp) || lacks_stamp events

abbrev pub lacks_in_bundle : Option FtraceEventBundle → Bool
lacks_in_bundle none = false
lacks_in_bundle (some bundle) = lacks_stamp bundle.event

-- A packet with a timestamp holds an event without one.
abbrev pub is_malformed : Trace → Bool
is_malformed [] = false
is_malformed (p ∷ trace) =
    has_value p.timestamp && lacks_in_bundle p.ftrace_events || is_malformed trace

abbrev FailsAt : Bool → Outcome (List PageCacheFtraceEvent) → Type 0
FailsAt true o = o ≡ fatal
FailsAt false o = (out : List PageCacheFtraceEvent) × (o ≡ ok out)

push-FailsAt :
    (malformed : Bool) (o : Outcome (List PageCacheFtraceEvent))
    (f : List PageCacheFtraceEvent → List PageCacheFtraceEvent)
    → FailsAt malformed o
    → FailsAt malformed (o >>= λ out. ok (f out))
push-FailsAt true o f h = rw h refl
push-FailsAt false o f (out, h) = (f out, rw h refl)

if-FailsAt :
    (b malformed : Bool) (x y : Outcome (List PageCacheFtraceEvent))
    → FailsAt malformed x
    → FailsAt malformed y
    → FailsAt malformed (if b then x else y)
if-FailsAt true malformed x y p q = p
if-FailsAt false malformed x y p q = q

select_event-FailsAt :
    (limit : ℕ) (start packet : Option ℕ) (cpu ts : ℕ) (o : Option ℕ) (e : FtraceEvent)
    (rest : ℕ → Outcome (List PageCacheFtraceEvent)) (lacks : Bool)
    → ((t : ℕ) → FailsAt (has_value packet && lacks) (rest t))
    → FailsAt
        (has_value packet && (not (has_value o) || lacks))
        (select_event limit start packet cpu ts o e rest)
select_event-FailsAt limit start packet cpu ts (some t) e rest lacks h =
    if-FailsAt (ltb limit t) (has_value packet && lacks) (rest t)
      (rest t >>= λ out. ok (emit_payload start cpu t e.pid e.payload ++ out)) (h t)
      (push-FailsAt (has_value packet && lacks) (rest t)
        (λ out. emit_payload start cpu t e.pid e.payload ++ out) (h t))
select_event-FailsAt limit start (some p) cpu ts none e rest lacks h = refl
select_event-FailsAt limit start none cpu ts none e rest lacks h =
    push-FailsAt false (rest ts) (λ out. emit_payload start cpu ts e.pid e.payload ++ out) (h ts)

select_events-FailsAt :
    (limit : ℕ) (start packet : Option ℕ) (cpu ts : ℕ) (events : List FtraceEvent)
    → FailsAt
        (has_value packet && lacks_stamp events)
        (select_events limit start packet cpu ts events)
unfolding select_events
select_events-FailsAt limit start none cpu ts [] = ([], refl)
select_events-FailsAt limit start (some p) cpu ts [] = ([], refl)
select_events-FailsAt limit start packet cpu ts (e ∷ events) =
    select_event-FailsAt limit start packet cpu ts e.timestamp e
      (λ t. select_events limit start packet cpu t events) (lacks_stamp events)
      (λ t. select_events-FailsAt limit start packet cpu t events)

select_bundle-FailsAt :
    (limit : ℕ) (start packet : Option ℕ) (b : Option FtraceEventBundle)
    → FailsAt (has_value packet && lacks_in_bundle b) (select_bundle limit start packet b)
select_bundle-FailsAt limit start none none = ([], refl)
select_bundle-FailsAt limit start (some p) none = ([], refl)
select_bundle-FailsAt limit start packet (some b) =
    select_events-FailsAt limit start packet b.cpu (timestamp_or_zero packet) b.event

join-FailsAt :
    (m n : Bool) (x y : Outcome (List PageCacheFtraceEvent))
    → FailsAt m x
    → FailsAt n y
    → FailsAt (m || n) (x >>= λ out. y >>= λ later. ok (out ++ later))
join-FailsAt true n x y p q = rw p refl
join-FailsAt false true x y (out, p) q = rw (p, q) refl
join-FailsAt false false x y (out, p) (later, q) = (out ++ later, rw (p, q) refl)

select_packets-FailsAt :
    (limit : ℕ) (start : Option ℕ) (trace : Trace)
    → FailsAt (is_malformed trace) (select_packets limit start trace)
unfolding select_packets
select_packets-FailsAt limit start [] = ([], refl)
select_packets-FailsAt limit start (p ∷ trace) =
    let start' = value_or_packet start p.timestamp in
    join-FailsAt (has_value p.timestamp && lacks_in_bundle p.ftrace_events) (is_malformed trace)
      (select_bundle limit start' p.timestamp p.ftrace_events) (select_packets limit start' trace)
      (select_bundle-FailsAt limit start' p.timestamp p.ftrace_events)
      (select_packets-FailsAt limit start' trace)

-- The selection of the page cache events aborts if a packet with a timestamp holds an ftrace event
-- without one, and in every other case it ends and emits events.
pub select_page_cache_ftrace_events_cases :
    (trace : Trace) (limit : ℕ)
    → ((is_malformed trace ≡ true) × (select_page_cache_ftrace_events trace limit ≡ fatal))
      ⊎ ((is_malformed trace ≡ false)
          × ((out : List PageCacheFtraceEvent) × (select_page_cache_ftrace_events trace limit
                ≡ ok out)))
unfolding select_page_cache_ftrace_events
select_page_cache_ftrace_events_cases trace limit = elim (Bool-cases (is_malformed trace)) [
  | inl bad ↦ inl (
    bad,
    subst (λ m. FailsAt m (select_packets limit (get_start_timestamp trace) trace)) bad
        (select_packets-FailsAt limit (get_start_timestamp trace) trace),
  )
  | inr good ↦ inr (
    good,
    subst (λ m. FailsAt m (select_packets limit (get_start_timestamp trace) trace)) good
        (select_packets-FailsAt limit (get_start_timestamp trace) trace),
  )
]
