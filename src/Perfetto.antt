-- ===== src/Perfetto.antt =====
-- PerfettoConsumerImpl::Impl of src/perfetto/perfetto_consumer.cc, which tracks the handles of perfetto.
-- Its methods run under its mutex. The state of a handle that perfetto reports, which is only dumped, is
-- left out.
pub mod Sections
pub mod Balance
pub mod Balanced
pub mod Messages
pub mod Runs
pub mod Subject
pub mod Emissions
pub mod Stream
use android_system_iorap.Prelude.{
  ℕ, zero, suc, ◌+◌, ◌-◌, ◌%◌, ◌^◌, ◌==◌, ltb, Bool, true, false, not, List, [], ◌∷◌, ◌++◌, Option,
  none, some, if◌then◌else◌, length,
}
use android_system_iorap.Prelude.Outcome.{Outcome, ok, fatal, ◌>>=◌}
use android_system_iorap.Launch.State.{has_value}

pub data StateKind : Type 0 where
  uncreated created started_tracing read_tracing timed_out_destroyed destroyed : StateKind

pub record HandleDescription : Type 0 where
  pub handle : ℕ
  pub kind : StateKind
  pub callback_arg : ℕ
  pub started_tracing_ns : Option ℕ
  pub read_trace_ns : Option ℕ
  pub last_transition_ns : ℕ
  pub trace_cookie : Option ℕ
  pub trace_ended : Bool

-- The calls of libperfetto, of atrace, of the looper, and of a handle's callback with kTraceFailed.
pub data PerfettoCall : Type 0 where
  raw_start_tracing raw_read_trace raw_destroy : ℕ → PerfettoCall
  atrace_begin atrace_end : ℕ → PerfettoCall
  send_message : ℕ → PerfettoCall
  trace_failed : (handle callback_arg : ℕ) → PerfettoCall

-- `states` is in the order of the handles, as a std::map is.
pub record ConsumerState : Type 0 where
  pub states : List HandleDescription
  pub last_created : ℕ
  pub last_destroyed : ℕ
  pub trace_cookie : ℕ
  pub calls : List PerfettoCall

abbrev pub new_consumer : ConsumerState
new_consumer = record {
  states = [];
  last_created = 0;
  last_destroyed = 0;
  trace_cookie = 0;
  calls = [];
}

abbrev pub called : PerfettoCall → ConsumerState → ConsumerState
called c s = record s { calls = s.calls ++ c ∷ [] }

-- states_.find
unfoldable pub find_handle : ℕ → List HandleDescription → Option HandleDescription
find_handle h [] = none
find_handle h (d ∷ states) = if d.handle == h then some d else find_handle h states

-- What the reference to an entry that was found refers to is changed.
unfoldable pub put_handle : HandleDescription → List HandleDescription → List HandleDescription
put_handle d' [] = []
put_handle d' (d ∷ states) = if d.handle == d'.handle then d' ∷ states else d ∷ put_handle d' states

unfoldable pub erase_handle : ℕ → List HandleDescription → List HandleDescription
erase_handle h [] = []
erase_handle h (d ∷ states) = if d.handle == h then states else d ∷ erase_handle h states

-- states_.insert of a handle that is not there
unfoldable pub insert_handle : HandleDescription → List HandleDescription → List HandleDescription
insert_handle d' [] = d' ∷ []
insert_handle d' (d ∷ states) =
    if ltb d'.handle d.handle then d' ∷ d ∷ states else d ∷ insert_handle d' states

-- The end of the atrace section, if it has begun and not ended.
abbrev pub end_trace :
    Option ℕ → Bool → HandleDescription → ConsumerState → HandleDescription × ConsumerState
end_trace none ended d s = (d, s)
end_trace (some cookie) true d s = (d, s)
end_trace (some cookie) false d s = (record d { trace_ended = true }, called (atrace_end cookie) s)

abbrev pub begin_trace :
    Option ℕ → HandleDescription → ConsumerState → HandleDescription × ConsumerState
begin_trace (some started) d s = (d, s)
begin_trace none d s =
    let cookie = (s.trace_cookie + 1) % 2 ^ 64 in
    (
      record d { started_tracing_ns = some d.last_transition_ns; trace_cookie = some cookie },
      called (atrace_begin cookie) (record s { trace_cookie = cookie }),
    )

abbrev pub read_first :
    Option ℕ → HandleDescription → ConsumerState → HandleDescription × ConsumerState
read_first (some read) d s = (d, s)
read_first none d s =
    end_trace d.trace_cookie d.trace_ended (record d { read_trace_ns = some d.last_transition_ns })
      s

-- The cases of UpdateHandleDescription.
abbrev pub update_kind :
    StateKind → HandleDescription → ConsumerState → HandleDescription × ConsumerState
update_kind started_tracing d s = begin_trace d.started_tracing_ns d s
update_kind read_tracing d s = read_first d.read_trace_ns d s
update_kind destroyed d s = end_trace d.trace_cookie d.trace_ended d s
update_kind uncreated d s = (d, s)
update_kind created d s = (d, s)
update_kind timed_out_destroyed d s = (d, s)

-- UpdateHandleDescription
abbrev pub update_handle_description :
    ℕ → StateKind → HandleDescription → ConsumerState → HandleDescription × ConsumerState
update_handle_description now kind d s =
    update_kind kind (record d { kind = kind; last_transition_ns = now }) s

-- A tracked handle after an update of its entry.
abbrev pub updated : HandleDescription × ConsumerState → ConsumerState
updated (d, s) = record s { states = put_handle d s.states }

abbrev pub new_handle : ℕ → ℕ → HandleDescription
new_handle handle callback_arg = record {
  handle = handle;
  kind = uncreated;
  callback_arg = callback_arg;
  started_tracing_ns = none;
  read_trace_ns = none;
  last_transition_ns = 0;
  trace_cookie = none;
  trace_ended = false;
}

-- Create, where libperfetto gives the handle.
unfoldable pub create_handle : ℕ → ℕ → ℕ → ConsumerState → Outcome ConsumerState
create_handle now handle callback_arg s =
    let (d, s') = update_handle_description now created (new_handle handle callback_arg) s in
    if s.last_created + 1 == handle
    then (if has_value (find_handle handle s.states)
        then fatal
        else ok
            (record s' { states = insert_handle d s'.states; last_created = s.last_created + 1 }))
    else fatal

abbrev pub start_found : Option HandleDescription → ℕ → ℕ → ConsumerState → Outcome ConsumerState
start_found none now handle s = ok s
start_found (some d) now handle s =
    let s' =
      updated
        (update_handle_description now started_tracing d (called (raw_start_tracing handle) s)) in
    if ltb handle (2 ^ 31) then ok (called (send_message handle) s') else fatal

-- StartTracing
unfoldable pub start_tracing_of : ℕ → ℕ → ConsumerState → Outcome ConsumerState
start_tracing_of now handle s = start_found (find_handle handle s.states) now handle s

abbrev pub read_found : Option HandleDescription → ℕ → ℕ → ConsumerState → ConsumerState
read_found none now handle s = s
read_found (some d) now handle s =
    updated (update_handle_description now read_tracing d (called (raw_read_trace handle) s))

-- ReadTrace
unfoldable pub read_trace : ℕ → ℕ → ConsumerState → ConsumerState
read_trace now handle s = read_found (find_handle handle s.states) now handle s

abbrev pub destroy_tracked : Option HandleDescription → ℕ → ℕ → ConsumerState → ConsumerState
destroy_tracked none now handle s = s
destroy_tracked (some d) now handle s =
    let s' = (update_handle_description now destroyed d (called (raw_destroy handle) s)).1 in
    record s' { last_destroyed = handle; states = erase_handle handle s'.states }

-- Destroy
unfoldable pub destroy_handle : ℕ → ℕ → ConsumerState → ConsumerState
destroy_handle now handle s = destroy_tracked (find_handle handle s.states) now handle s

unfoldable pub destroy_all : ℕ → List ℕ → ConsumerState → ConsumerState
destroy_all now [] s = s
destroy_all now (h ∷ handles) s = destroy_all now handles (destroy_handle now h s)
