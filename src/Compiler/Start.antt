-- ===== src/Compiler/Start.antt =====
-- GetStartTimestamp of src/compiler/compiler.cc as a minimum.
use android_system_iorap.Prelude.{
  ℕ, ◌≡◌, ◌≤◌, refl, ◌==◌, Bool, true, false, ◌||◌, List, [], ◌∷◌, ◌++◌, Option, none, some, arith,
  All,
}
use android_system_iorap.Compiler.{
  FtraceEvent, FtraceEventBundle, Trace, min, earlier, start_of_events, start_of_bundle,
  start_of_packets, get_start_timestamp,
}

abbrev pub stamp : Option ℕ → List ℕ
stamp none = []
stamp (some t) = t ∷ []

abbrev pub event_stamps : List FtraceEvent → List ℕ
event_stamps [] = []
event_stamps (e ∷ events) = stamp e.timestamp ++ event_stamps events

abbrev pub bundle_stamps : Option FtraceEventBundle → List ℕ
bundle_stamps none = []
bundle_stamps (some bundle) = event_stamps bundle.event

-- All timestamps of a trace.
abbrev pub stamps : Trace → List ℕ
stamps [] = []
stamps (p ∷ trace) = stamp p.timestamp ++ (bundle_stamps p.ftrace_events ++ stamps trace)

abbrev pub is_listed : ℕ → List ℕ → Bool
is_listed t [] = false
is_listed t (x ∷ xs) = x == t || is_listed t xs

-- `start` is the least of the numbers, if there are any.
abbrev pub IsLeast : Option ℕ → List ℕ → Type 0
IsLeast none xs = xs ≡ []
IsLeast (some s) xs = All (λ t. s ≤ t) xs × (is_listed s xs ≡ true)

-- The fold that the loops make.
abbrev earliest_of : List ℕ → Option ℕ → Option ℕ
earliest_of [] start = start
earliest_of (t ∷ xs) start = earliest_of xs (earlier start (some t))

earliest_of-append :
    (xs ys : List ℕ) (start : Option ℕ)
    → earliest_of (xs ++ ys) start ≡ earliest_of ys (earliest_of xs start)
earliest_of-append [] ys start = refl
earliest_of-append (x ∷ xs) ys start = earliest_of-append xs ys (earlier start (some x))

earlier-stamp : (o start : Option ℕ) → earlier start o ≡ earliest_of (stamp o) start
earlier-stamp none none = refl
earlier-stamp none (some s) = refl
earlier-stamp (some t) none = refl
earlier-stamp (some t) (some s) = refl

start_of_events-stamps :
    (events : List FtraceEvent) (start : Option ℕ)
    → start_of_events events start ≡ earliest_of (event_stamps events) start
unfolding start_of_events
start_of_events-stamps [] start = refl
start_of_events-stamps (e ∷ events) start =
    rw
      (
        earliest_of-append (stamp e.timestamp) (event_stamps events) start,
        earlier-stamp e.timestamp start,
      )
      (start_of_events-stamps events (earliest_of (stamp e.timestamp) start))

start_of_bundle-stamps :
    (b : Option FtraceEventBundle) (start : Option ℕ)
    → start_of_bundle b start ≡ earliest_of (bundle_stamps b) start
start_of_bundle-stamps none start = refl
start_of_bundle-stamps (some b) start = start_of_events-stamps b.event start

start_of_packets-stamps :
    (trace : Trace) (start : Option ℕ)
    → start_of_packets trace start ≡ earliest_of (stamps trace) start
unfolding start_of_packets
start_of_packets-stamps [] start = refl
start_of_packets-stamps (p ∷ trace) start =
    let first = earliest_of (stamp p.timestamp) start in
    rw
      (
        earliest_of-append (stamp p.timestamp) (bundle_stamps p.ftrace_events ++ stamps trace)
            start,
        earliest_of-append (bundle_stamps p.ftrace_events) (stamps trace) first,
        earlier-stamp p.timestamp start,
        start_of_bundle-stamps p.ftrace_events first,
      )
      (start_of_packets-stamps trace (earliest_of (bundle_stamps p.ftrace_events) first))

earliest_of-some :
    (xs : List ℕ) (s : ℕ)
    → (m : ℕ) × (earliest_of xs (some s) ≡ some m)
      × (m ≤ s)
      × All (λ t. m ≤ t) xs
      × ((s == m || is_listed m xs) ≡ true)
earliest_of-some [] s = (s, refl, omega arith, tt, ground arith)
earliest_of-some (t ∷ xs) s =
    let (m, e, low, all, here) = earliest_of-some xs (min s t) in
    (m, e, ground arith, (ground arith, all), ground arith)

-- GetStartTimestamp is none if the trace has no timestamp at all, and else the least of all
-- timestamps of its packets and of their ftrace events.
pub get_start_timestamp-IsLeast :
    (trace : Trace) → IsLeast (get_start_timestamp trace) (stamps trace)
get_start_timestamp-IsLeast trace = rw (start_of_packets-stamps trace none) (least (stamps trace))
  where
    least : (xs : List ℕ) → IsLeast (earliest_of xs none) xs
    least [] = refl
    least (t ∷ xs) = let (m, e, low, all, here) = earliest_of-some xs t in rw e ((low, all), here)
