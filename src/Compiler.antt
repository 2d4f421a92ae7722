-- ===== src/Compiler.antt =====
-- The trace compiler of src/compiler/compiler.cc: the page cache events of a perfetto trace. The
-- protobuf messages are read up to the fields that the code reads; an observable is the list of what
-- it emits, to a subscriber that stays until its end.
pub mod Start
pub mod Select
pub mod Limits
pub mod Resolve
pub mod Resolved
pub mod Merge
pub mod Earliest
pub mod Output
pub mod Decode
pub mod Compiled
pub mod Perform
pub mod Arguments
use android_system_iorap.Prelude.{
  ℕ, ◌+◌, ◌-◌, ◌*◌, ◌%◌, ◌^◌, ltb, Bool, true, false, not, List, [], ◌∷◌, ◌++◌, Option, none, some,
  if◌then◌else◌, Text,
}
use android_system_iorap.Prelude.Outcome.{Outcome, ok, fatal, ◌>>=◌}
use android_system_iorap.Launch.State.{dcheck, has_value}

-- The fields that MmFilemapAddToPageCacheFtraceEvent and its counterpart share.
pub record MmFilemap : Type 0 where
  pub pfn : ℕ
  pub i_ino : ℕ
  pub index : ℕ
  pub s_dev : ℕ
  pub page : ℕ

-- The event proper, of which the page cache's are read.
pub data FtracePayload : Type 0 where
  mm_filemap_add_to_page_cache mm_filemap_delete_from_page_cache : MmFilemap → FtracePayload
  other_event : FtracePayload

pub record FtraceEvent : Type 0 where
  pub timestamp : Option ℕ
  pub pid : ℕ
  pub payload : FtracePayload

pub record FtraceEventBundle : Type 0 where
  pub cpu : ℕ
  pub event : List FtraceEvent

pub record TracePacket : Type 0 where
  pub timestamp : Option ℕ
  pub ftrace_events : Option FtraceEventBundle

abbrev pub Trace : Type 0
Trace = List TracePacket

pub record PageCacheFtraceEvent : Type 0 where
  pub cpu : ℕ
  pub timestamp : ℕ
  pub pid : ℕ
  pub timestamp_relative : ℕ
  pub add_to_page_cache : Bool
  pub pfn : ℕ
  pub i_ino : ℕ
  pub index : ℕ
  pub s_dev : ℕ
  pub page : ℕ

abbrev pub min : ℕ → ℕ → ℕ
min a b = if ltb b a then b else a

-- One timestamp of GetStartTimestamp.
abbrev pub earlier : Option ℕ → Option ℕ → Option ℕ
earlier start none = start
earlier none (some t) = some t
earlier (some s) (some t) = some (min s t)

unfoldable pub start_of_events : List FtraceEvent → Option ℕ → Option ℕ
start_of_events [] start = start
start_of_events (e ∷ events) start = start_of_events events (earlier start e.timestamp)

abbrev pub start_of_bundle : Option FtraceEventBundle → Option ℕ → Option ℕ
start_of_bundle none start = start
start_of_bundle (some bundle) start = start_of_events bundle.event start

unfoldable pub start_of_packets : Trace → Option ℕ → Option ℕ
start_of_packets [] start = start
start_of_packets (p ∷ trace) start =
    start_of_packets trace (start_of_bundle p.ftrace_events (earlier start p.timestamp))

abbrev pub get_start_timestamp : Trace → Option ℕ
get_start_timestamp trace = start_of_packets trace none

-- uint64_t subtraction
abbrev pub minus_64 : ℕ → ℕ → ℕ
minus_64 a b = (a + (2 ^ 64 - b)) % 2 ^ 64

abbrev pub relative_to : Option ℕ → ℕ → ℕ
relative_to none timestamp = 0
relative_to (some start) timestamp = minus_64 timestamp start

-- on_next_page_cache_event
abbrev pub page_cache_event : ℕ → ℕ → ℕ → ℕ → Bool → MmFilemap → PageCacheFtraceEvent
page_cache_event cpu timestamp pid timestamp_relative add_to_page_cache mm = record {
  cpu = cpu;
  timestamp = timestamp;
  pid = pid;
  timestamp_relative = timestamp_relative;
  add_to_page_cache = add_to_page_cache;
  pfn = mm.pfn;
  i_ino = mm.i_ino;
  index = mm.index;
  s_dev = mm.s_dev;
  page = mm.page;
}

abbrev pub emit_payload : Option ℕ → ℕ → ℕ → ℕ → FtracePayload → List PageCacheFtraceEvent
emit_payload start cpu timestamp pid (mm_filemap_add_to_page_cache mm) =
    page_cache_event cpu timestamp pid (relative_to start timestamp) true mm ∷ []
emit_payload start cpu timestamp pid (mm_filemap_delete_from_page_cache mm) =
    page_cache_event cpu timestamp pid (relative_to start timestamp) false mm ∷ []
emit_payload start cpu timestamp pid other_event = []

-- One event; `rest` are the later ones, for the value of the variable `timestamp` that they find.
abbrev pub select_event :
    ℕ
    → Option ℕ
    → Option ℕ
    → ℕ
    → ℕ
    → Option ℕ
    → FtraceEvent
    → (ℕ → Outcome (List PageCacheFtraceEvent))
    → Outcome (List PageCacheFtraceEvent)
select_event limit start packet_timestamp cpu timestamp (some t) e rest =
    if ltb limit t
    then rest t
    else rest t >>= λ out. ok (emit_payload start cpu t e.pid e.payload ++ out)
select_event limit start packet_timestamp cpu timestamp none e rest =
    dcheck (not (has_value packet_timestamp))
      (rest timestamp >>= λ out. ok (emit_payload start cpu timestamp e.pid e.payload ++ out))

-- The loop over a bundle's events.
unfoldable pub select_events :
    ℕ → Option ℕ → Option ℕ → ℕ → ℕ → List FtraceEvent → Outcome (List PageCacheFtraceEvent)
select_events limit start packet_timestamp cpu timestamp [] = ok []
select_events limit start packet_timestamp cpu timestamp (e ∷ events) =
    select_event limit start packet_timestamp cpu timestamp e.timestamp e
      (λ t. select_events limit start packet_timestamp cpu t events)

abbrev pub timestamp_or_zero : Option ℕ → ℕ
timestamp_or_zero none = 0
timestamp_or_zero (some t) = t

abbrev pub select_bundle :
    ℕ → Option ℕ → Option ℕ → Option FtraceEventBundle → Outcome (List PageCacheFtraceEvent)
select_bundle limit start packet_timestamp none = ok []
select_bundle limit start packet_timestamp (some bundle) =
    select_events limit start packet_timestamp bundle.cpu (timestamp_or_zero packet_timestamp)
      bundle.event

-- `timestamp_relative_start.value_or(packet.timestamp())`, where the packet has one.
abbrev pub value_or_packet : Option ℕ → Option ℕ → Option ℕ
value_or_packet (some start) packet_timestamp = some start
value_or_packet none packet_timestamp = packet_timestamp

unfoldable pub select_packets : ℕ → Option ℕ → Trace → Outcome (List PageCacheFtraceEvent)
select_packets limit start [] = ok []
select_packets limit start (p ∷ trace) =
    let start' = value_or_packet start p.timestamp in
    select_bundle limit start' p.timestamp p.ftrace_events >>= λ out.
    select_packets limit start' trace >>= λ later. ok (out ++ later)

-- SelectPageCacheFtraceEvents
unfoldable pub select_page_cache_ftrace_events : Trace → ℕ → Outcome (List PageCacheFtraceEvent)
select_page_cache_ftrace_events trace timestamp_limit_ns =
    select_packets timestamp_limit_ns (get_start_timestamp trace) trace
