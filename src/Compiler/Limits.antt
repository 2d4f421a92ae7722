-- ===== src/Compiler/Limits.antt =====
-- What SelectPageCacheFtraceEvents of src/compiler/compiler.cc emits for a trace with timestamps.
use android_system_iorap.Prelude.{
  ℕ, ◌+◌, ◌^◌, ◌≡◌, ◌≤◌, ◌<◌, refl, sym, ltb, Bool, true, false, ◌||◌, List, [], ◌∷◌, ◌++◌, Option,
  none, some, arith, All, All-append, All-split, length, length-append, Bool-cases, inl, inr,
  if_true, if_false, if◌then◌else◌,
}
use android_system_iorap.Prelude.Outcome.{Outcome, ok}
use android_system_iorap.Launch.State.{has_value}
use android_system_iorap.Compiler.{
  FtraceEvent, FtraceEventBundle, FtracePayload, other_event, mm_filemap_add_to_page_cache,
  mm_filemap_delete_from_page_cache, Trace, PageCacheFtraceEvent, emit_payload, select_event,
  timestamp_or_zero, select_events, select_bundle, value_or_packet, select_packets,
  select_page_cache_ftrace_events, get_start_timestamp,
}
use android_system_iorap.Compiler.Start.{
  stamp, event_stamps, bundle_stamps, stamps, IsLeast, get_start_timestamp-IsLeast,
}
use android_system_iorap.Compiler.Select.{lacks_stamp, lacks_in_bundle}

abbrev pub lacks_in_trace : Trace → Bool
lacks_in_trace [] = false
lacks_in_trace (p ∷ trace) = lacks_in_bundle p.ftrace_events || lacks_in_trace trace

-- One for an event of the page cache, none for others.
abbrev pub is_wanted : FtracePayload → ℕ
is_wanted (mm_filemap_add_to_page_cache mm) = 1
is_wanted (mm_filemap_delete_from_page_cache mm) = 1
is_wanted other_event = 0

abbrev pub wanted_at : ℕ → Option ℕ → FtracePayload → ℕ
wanted_at limit none payload = is_wanted payload
wanted_at limit (some t) payload = if ltb limit t then 0 else is_wanted payload

abbrev pub wanted_events : ℕ → List FtraceEvent → ℕ
wanted_events limit [] = 0
wanted_events limit (e ∷ events) =
    wanted_at limit e.timestamp e.payload + wanted_events limit events

abbrev pub wanted_in_bundle : ℕ → Option FtraceEventBundle → ℕ
wanted_in_bundle limit none = 0
wanted_in_bundle limit (some bundle) = wanted_events limit bundle.event

-- How many events of the page cache are not behind the limit.
abbrev pub wanted : ℕ → Trace → ℕ
wanted limit [] = 0
wanted limit (p ∷ trace) = wanted_in_bundle limit p.ftrace_events + wanted limit trace

abbrev pub IsSelected : ℕ → ℕ → PageCacheFtraceEvent → Type 0
IsSelected limit start e = (e.timestamp ≤ limit) × (start + e.timestamp_relative ≡ e.timestamp)

abbrev Selects : ℕ → ℕ → ℕ → Outcome (List PageCacheFtraceEvent) → Type 0
Selects limit start n o =
    (out : List PageCacheFtraceEvent) × (o ≡ ok out)
    × All (IsSelected limit start) out
    × (length out ≡ n)

-- From the start on, in 64 bits.
abbrev InRange : ℕ → ℕ → Type 0
InRange start t = (start ≤ t) × (t < 2 ^ 64)

emit_payload-IsSelected :
    (limit s cpu t pid : ℕ) (payload : FtracePayload)
    → t ≤ limit
    → InRange s t
    → All (IsSelected limit s) (emit_payload (some s) cpu t pid payload)
emit_payload-IsSelected limit s cpu t pid (mm_filemap_add_to_page_cache mm) h r =
    ((h, omega arith), tt)
emit_payload-IsSelected limit s cpu t pid (mm_filemap_delete_from_page_cache mm) h r =
    ((h, omega arith), tt)
emit_payload-IsSelected limit s cpu t pid other_event h r = tt

length-emit_payload :
    (start : Option ℕ) (cpu t pid : ℕ) (payload : FtracePayload)
    → length (emit_payload start cpu t pid payload) ≡ is_wanted payload
length-emit_payload start cpu t pid (mm_filemap_add_to_page_cache mm) = refl
length-emit_payload start cpu t pid (mm_filemap_delete_from_page_cache mm) = refl
length-emit_payload start cpu t pid other_event = refl

select_event-Selects :
    (limit s : ℕ) (packet : Option ℕ) (cpu ts : ℕ) (o : Option ℕ) (e : FtraceEvent)
    (rest : ℕ → Outcome (List PageCacheFtraceEvent)) (n : ℕ)
    → has_value o ≡ true
    → All (InRange s) (stamp o)
    → ((t : ℕ) → Selects limit s n (rest t))
    → Selects limit s
        (wanted_at limit o e.payload + n)
        (select_event limit (some s) packet cpu ts o e rest)
select_event-Selects limit s packet cpu ts none e rest n has r h = absurd (ground arith)
select_event-Selects limit s packet cpu ts (some t) e rest n has (r, _) h =
    let (out, k, all, size) = h t in
    elim (Bool-cases (ltb limit t)) [
      | inl beyond ↦ rw (if_true beyond, beyond) (out, k, all, omega (arith, size))
      | inr within ↦
          rw (if_false within, within, k)
            (
              emit_payload (some s) cpu t e.pid e.payload ++ out,
              refl,
              All-append _ (emit_payload (some s) cpu t e.pid e.payload) out
                  (emit_payload-IsSelected limit s cpu t e.pid e.payload (ground arith) r) all,
              ground (
                arith,
                size,
                length-append (emit_payload (some s) cpu t e.pid e.payload) out,
                length-emit_payload (some s) cpu t e.pid e.payload,
              ),
            )
    ]

select_events-Selects :
    (limit s : ℕ) (packet : Option ℕ) (cpu ts : ℕ) (events : List FtraceEvent)
    → lacks_stamp events ≡ false
    → All (InRange s) (event_stamps events)
    → Selects limit s
        (wanted_events limit events)
        (select_events limit (some s) packet cpu ts events)
unfolding select_events
select_events-Selects limit s packet cpu ts [] lacks r = ([], refl, tt, refl)
select_events-Selects limit s packet cpu ts (e ∷ events) lacks r =
    let (here, later) = All-split _ (stamp e.timestamp) (event_stamps events) r in
    select_event-Selects limit s packet cpu ts e.timestamp e
      (λ t. select_events limit (some s) packet cpu t events) (wanted_events limit events)
      (ground arith) here
      (λ t. select_events-Selects limit s packet cpu t events (ground arith) later)

select_bundle-Selects :
    (limit s : ℕ) (packet : Option ℕ) (b : Option FtraceEventBundle)
    → lacks_in_bundle b ≡ false
    → All (InRange s) (bundle_stamps b)
    → Selects limit s (wanted_in_bundle limit b) (select_bundle limit (some s) packet b)
select_bundle-Selects limit s packet none lacks r = ([], refl, tt, refl)
select_bundle-Selects limit s packet (some b) lacks r =
    select_events-Selects limit s packet b.cpu (timestamp_or_zero packet) b.event lacks r

select_packets-Selects :
    (limit s : ℕ) (trace : Trace)
    → lacks_in_trace trace ≡ false
    → All (InRange s) (stamps trace)
    → Selects limit s (wanted limit trace) (select_packets limit (some s) trace)
unfolding select_packets
select_packets-Selects limit s [] lacks r = ([], refl, tt, refl)
select_packets-Selects limit s (p ∷ trace) lacks r =
    let r' = All-split _ (stamp p.timestamp) (bundle_stamps p.ftrace_events ++ stamps trace) r in
    let (here, there) = All-split _ (bundle_stamps p.ftrace_events) (stamps trace) r'.1 in
    let (out, k, all, size) =
      select_bundle-Selects limit s p.timestamp p.ftrace_events (ground arith) here in
    let (later, k', all', size') = select_packets-Selects limit s trace (ground arith) there in
    rw (k, k')
      (
        out ++ later,
        refl,
        All-append _ out later all all',
        omega (arith, size, size', length-append out later),
      )

append-empty {ℓ} : {A : Type ℓ} (xs ys : List A) → xs ++ ys ≡ [] → (xs ≡ []) × (ys ≡ [])
append-empty [] ys h = (refl, h)
append-empty (x ∷ xs) ys h = absurd (ground arith)

stamped {ℓ} : {A : Type ℓ} (o : Option ℕ) → has_value o ≡ true → stamp o ≡ [] → A
stamped none has h = absurd (ground arith)
stamped (some t) has h = absurd (ground arith)

-- Without any timestamp there is no event.
no_events :
    (limit : ℕ) (packet : Option ℕ) (cpu ts : ℕ) (events : List FtraceEvent)
    → lacks_stamp events ≡ false
    → event_stamps events ≡ []
    → (select_events limit none packet cpu ts events ≡ ok []) × (wanted_events limit events ≡ 0)
unfolding select_events
no_events limit packet cpu ts [] lacks h = (refl, refl)
no_events limit packet cpu ts (e ∷ events) lacks h =
    stamped e.timestamp (ground arith) (append-empty (stamp e.timestamp) (event_stamps events) h).0

no_bundle :
    (limit : ℕ) (packet : Option ℕ) (b : Option FtraceEventBundle)
    → lacks_in_bundle b ≡ false
    → bundle_stamps b ≡ []
    → (select_bundle limit none packet b ≡ ok []) × (wanted_in_bundle limit b ≡ 0)
no_bundle limit packet none lacks h = (refl, refl)
no_bundle limit packet (some b) lacks h =
    no_events limit packet b.cpu (timestamp_or_zero packet) b.event lacks h

no_packets :
    (limit : ℕ) (trace : Trace)
    → lacks_in_trace trace ≡ false
    → stamps trace ≡ []
    → (select_packets limit none trace ≡ ok []) × (wanted limit trace ≡ 0)
unfolding select_packets
no_packets limit [] lacks h = (refl, refl)
no_packets limit (p ∷ trace) lacks h =
    let (no_stamp, h') =
      append-empty (stamp p.timestamp) (bundle_stamps p.ftrace_events ++ stamps trace) h in
    let (here, there) = append-empty (bundle_stamps p.ftrace_events) (stamps trace) h' in
    let (k, z) = no_bundle limit none p.ftrace_events (ground arith) here in
    let (k', z') = no_packets limit trace (ground arith) there in
    rw (unstamped p.timestamp no_stamp, k, k') (refl, omega (arith, z, z'))
  where
    unstamped : (o : Option ℕ) → stamp o ≡ [] → value_or_packet none o ≡ none
    unstamped none h = refl
    unstamped (some t) h = absurd (ground arith)

-- Bounds of the selection against the trace's start, where it has one.
abbrev pub IsSelectedFrom : ℕ → Option ℕ → PageCacheFtraceEvent → Type 0
IsSelectedFrom limit none e = ⊥
IsSelectedFrom limit (some start) e = IsSelected limit start e

All-zip :
    (s : ℕ) (xs : List ℕ) → All (λ t. s ≤ t) xs → All (λ t. t < 2 ^ 64) xs → All (InRange s) xs
All-zip s [] p q = tt
All-zip s (x ∷ xs) (p, ps) (q, qs) = ((p, q), All-zip s xs ps qs)

-- If every ftrace event of a trace has a timestamp, of 64 bits like those of the packets, the
-- selection ends; it emits as many events as there are events of the page cache that are not behind
-- the limit, and the timestamp of each is not behind the limit and is its relative timestamp past
-- the start of the trace, without wrapping around.
pub select_page_cache_ftrace_events-bounds :
    (trace : Trace) (limit : ℕ)
    → lacks_in_trace trace ≡ false
    → All (λ t. t < 2 ^ 64) (stamps trace)
    → (out : List PageCacheFtraceEvent) × (select_page_cache_ftrace_events trace limit ≡ ok out)
      × All (IsSelectedFrom limit (get_start_timestamp trace)) out
      × (length out ≡ wanted limit trace)
unfolding select_page_cache_ftrace_events
select_page_cache_ftrace_events-bounds trace limit lacks r =
    go (get_start_timestamp trace) (get_start_timestamp-IsLeast trace)
  where
    go :
        (start : Option ℕ)
        → IsLeast start (stamps trace)
        → (out : List PageCacheFtraceEvent) × (select_packets limit start trace ≡ ok out)
          × All (IsSelectedFrom limit start) out
          × (length out ≡ wanted limit trace)
    go none h = let (k, z) = no_packets limit trace lacks h in ([], k, tt, sym z)
    go (some s) (low, here) =
        select_packets-Selects limit s trace lacks (All-zip s (stamps trace) low r)
