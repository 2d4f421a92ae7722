-- ===== src/Launch/Quiet.antt =====
-- The operations of AppLaunchEventState in src/manager/event_manager.cc that end no history chain.
use android_system_iorap.Prelude.{
  ℕ, ◌≡◌, refl, ◌∙◌, Bool, true, false, not, ◌&&◌, [], ◌∷◌, ◌++◌, Option, none, some, arith,
  if◌then◌else◌, ◌==◌, Text, ℤ,
}
use android_system_iorap.Prelude.Outcome.{Outcome, ok, fatal, stalled, ◌>>=◌}
use android_system_iorap.Prelude.Totals.{count, count-snoc}
use android_system_iorap.Component.{AppComponentName}
use android_system_iorap.Versions.{PackageVersionMap, get_or_query}
use android_system_iorap.Launch.{Temperature, AppLaunchEvent}
use android_system_iorap.Launch.State.{
  Env, AppLaunchEventState, Effect, begin_task, finish_task, start_trace, unsubscribe, history_next,
  history_error, insert_launch, update_fully_drawn, TaskId, dcheck, is_read_ahead, begin_read_ahead,
  get_compiled_trace, start_read_ahead, finish_task_of, finish_read_ahead,
}
use android_system_iorap.Launch.Trace.{
  subscribe_trace, trace_named, start_tracing, abort_of, abort_trace, pending_of,
  mark_pending_trace,
}
use android_system_iorap.Launch.History.{
  insert_row, insert_versioned, insert_named, insert_db_launch_history,
}
use android_system_iorap.Launch.Handler.{start_both, start_late, drawn_of}

-- Does the call end the chain, with an id or with an error?
abbrev pub ends : ℕ → Effect → Bool
ends c (history_next d id) = d == c
ends c (history_error d) = d == c
ends c (begin_task t) = false
ends c (finish_task t) = false
ends c (start_trace l d n v) = false
ends c (unsubscribe l) = false
ends c (insert_launch r) = false
ends c (update_fully_drawn i t) = false

-- How often the chain was ended.
abbrev pub ended : ℕ → AppLaunchEventState → ℕ
ended c s = count (ends c) s.effects

abbrev pub Quiet : AppLaunchEventState → AppLaunchEventState → Type 0
Quiet s s' =
    (s'.history_id_subscriber ≡ s.history_id_subscriber)
    × (s'.chains ≡ s.chains)
    × ((c : ℕ) → ended c s' ≡ ended c s)

abbrev pub Quietly : AppLaunchEventState → Outcome AppLaunchEventState → Type 0
Quietly s fatal = Unit
Quietly s stalled = Unit
Quietly s (ok s') = Quiet s s'

still : (s : AppLaunchEventState) → Quiet s s
still s = (refl, refl, λ c. refl)

pub Quiet-trans : (s t u : AppLaunchEventState) → Quiet s t → Quiet t u → Quiet s u
Quiet-trans s t u (a, b, f) (p, q, g) = (p ∙ a, q ∙ b, λ c. g c ∙ f c)

-- A call that ends no chain.
quiet_call :
    (e : Effect) (s : AppLaunchEventState) (c : ℕ)
    → ends c e ≡ false
    → count (ends c) (s.effects ++ e ∷ []) ≡ ended c s
quiet_call e s c h = ground (arith, count-snoc (ends c) s.effects e)

dcheck-Quietly :
    (b : Bool) (s : AppLaunchEventState) (o : Outcome AppLaunchEventState)
    → Quietly s o
    → Quietly s (dcheck b o)
dcheck-Quietly true s o q = q
dcheck-Quietly false s o q = tt

pub if-Quietly :
    (b : Bool) (s : AppLaunchEventState) (x y : Outcome AppLaunchEventState)
    → Quietly s x
    → Quietly s y
    → Quietly s (if b then x else y)
if-Quietly true s x y p q = p
if-Quietly false s x y p q = q

pub >>=-Quietly :
    (s : AppLaunchEventState) (o : Outcome AppLaunchEventState)
    (f : AppLaunchEventState → Outcome AppLaunchEventState)
    → Quietly s o
    → ((t : AppLaunchEventState) → Quietly t (f t))
    → Quietly s (o >>= f)
>>=-Quietly s fatal f q g = tt
>>=-Quietly s stalled f q g = tt
>>=-Quietly s (ok t) f q g = go (f t) (g t)
  where
    go : (o : Outcome AppLaunchEventState) → Quietly t o → Quietly s o
    go fatal h = tt
    go stalled h = tt
    go (ok u) h = Quiet-trans s t u q h

begin_read_ahead-Quiet :
    (id : ℕ) (r : Option Text × PackageVersionMap) (s : AppLaunchEventState)
    → Quiet s (begin_read_ahead id r s)
begin_read_ahead-Quiet id (none, m) s = still s
begin_read_ahead-Quiet id (some p, m) s = (refl, refl, λ c. quiet_call _ s c refl)

start_read_ahead-Quietly :
    (env : Env) (id : ℕ) (n : AppComponentName) (s : AppLaunchEventState)
    → Quietly s (start_read_ahead env id n s)
unfolding start_read_ahead
start_read_ahead-Quietly env id n s = dcheck-Quietly s.allowed_readahead s _ (
    dcheck-Quietly (not (is_read_ahead s)) s _
      (begin_read_ahead-Quiet id (get_compiled_trace env n s.version_map) s))

subscribe_trace-Quiet :
    (env : Env) (n : AppComponentName) (r : Option ℤ × PackageVersionMap) (s : AppLaunchEventState)
    → Quiet s (subscribe_trace env n r s)
subscribe_trace-Quiet env n (none, m) s = still s
subscribe_trace-Quiet env n (some v, m) s = (refl, refl, λ c. quiet_call _ s c refl)

trace_named-Quietly :
    (env : Env) (n : AppComponentName) (o : Option AppComponentName) (s : AppLaunchEventState)
    → Quietly s (trace_named env n o s)
trace_named-Quietly env n none s = tt
trace_named-Quietly env n (some m) s =
    subscribe_trace-Quiet env n (get_or_query env.get_package_version m.package_name s.version_map)
      s

start_tracing-Quietly :
    (env : Env) (n : AppComponentName) (s : AppLaunchEventState) → Quietly s (start_tracing env n s)
unfolding start_tracing
start_tracing-Quietly env n s =
    dcheck-Quietly s.allowed_tracing s _
      (dcheck-Quietly (not s.is_tracing) s _ (trace_named-Quietly env n s.component_name s))

pub start_both-Quietly :
    (env : Env) (n : AppComponentName) (s : AppLaunchEventState) → Quietly s (start_both env n s)
unfolding start_both
start_both-Quietly env n s =
    >>=-Quietly s _ _
      (if-Quietly s.allowed_readahead s _ (ok s) (start_read_ahead-Quietly env s.sequence_id n s)
        (still s))
      (λ t.
        if-Quietly (t.allowed_tracing && not (is_read_ahead t)) t _ (ok t)
          (start_tracing-Quietly env n t) (still t))

pub start_late-Quietly :
    (env : Env) (n : AppComponentName) (s : AppLaunchEventState) → Quietly s (start_late env n s)
unfolding start_late
start_late-Quietly env n s =
    >>=-Quietly s _ _
      (if-Quietly (s.allowed_readahead && not (is_read_ahead s)) s _ (ok s)
        (start_read_ahead-Quietly env s.sequence_id n s) (still s))
      (λ t.
        if-Quietly (t.allowed_tracing && (not t.is_tracing && not (is_read_ahead t))) t _ (ok t)
          (start_tracing-Quietly env n t) (still t))

finish_task_of-Quiet : (o : Option TaskId) (s : AppLaunchEventState) → Quiet s (finish_task_of o s)
finish_task_of-Quiet none s = still s
finish_task_of-Quiet (some t) s = (refl, refl, λ c. quiet_call _ s c refl)

pub finish_read_ahead-Quiet : (s : AppLaunchEventState) → Quiet s (finish_read_ahead s)
unfolding finish_read_ahead
finish_read_ahead-Quiet s = finish_task_of-Quiet s.read_ahead_task s

abort_of-Quiet : (b : Bool) (l : Option ℕ) (s : AppLaunchEventState) → Quiet s (abort_of b l s)
abort_of-Quiet false l s = still s
abort_of-Quiet true none s = still s
abort_of-Quiet true (some l) s = (refl, refl, λ c. quiet_call _ s c refl)

-- A launch that is given up.
pub aborted-Quiet : (s : AppLaunchEventState) → Quiet s (finish_read_ahead (abort_trace s))
unfolding abort_trace
aborted-Quiet s =
    Quiet-trans s (abort_trace s) (finish_read_ahead (abort_trace s))
      (abort_of-Quiet s.is_tracing s.rx_lifetime s) (finish_read_ahead-Quiet (abort_trace s))

pending_of-Quietly : (l : Option ℕ) (s : AppLaunchEventState) → Quietly s (pending_of l s)
pending_of-Quietly none s = tt
pending_of-Quietly (some l) s = still s

pub mark_pending_trace-Quietly : (s : AppLaunchEventState) → Quietly s (mark_pending_trace s)
unfolding mark_pending_trace
mark_pending_trace-Quietly s = dcheck-Quietly s.is_tracing s _ (pending_of-Quietly s.rx_lifetime s)

insert_row-Quiet :
    (env : Env) (o : Option ℕ) (t : Temperature) (s : AppLaunchEventState)
    → Quiet s (insert_row env o t s).1
insert_row-Quiet env none t s = still s
insert_row-Quiet env (some i) t s = (refl, refl, λ c. quiet_call _ s c refl)

insert_versioned-Quiet :
    (env : Env) (n : AppComponentName) (t : Temperature) (r : Option ℤ × PackageVersionMap)
    (s : AppLaunchEventState)
    → Quiet s (insert_versioned env n t r s).1
insert_versioned-Quiet env n t (none, m) s = still s
insert_versioned-Quiet env n t (some v, m) s =
    insert_row-Quiet env _ t (record s { version_map = m })

insert_named-Quiet :
    (env : Env) (n : Option AppComponentName) (t : Option Temperature) (s : AppLaunchEventState)
    → Quiet s (insert_named env n t s).1
insert_named-Quiet env none t s = still s
insert_named-Quiet env (some n) none s = still s
insert_named-Quiet env (some n) (some t) s = insert_versioned-Quiet env n t _ s

pub insert_db_launch_history-Quiet :
    (env : Env) (s : AppLaunchEventState) → Quiet s (insert_db_launch_history env s).1
unfolding insert_db_launch_history
insert_db_launch_history-Quiet env s = insert_named-Quiet env s.component_name s.temperature s

pub drawn_of-Quiet :
    (o : Option ℕ) (e : AppLaunchEvent) (s : AppLaunchEventState) → Quiet s (drawn_of o e s)
drawn_of-Quiet none e s = still s
drawn_of-Quiet (some id) e s = (refl, refl, λ c. quiet_call _ s c refl)
