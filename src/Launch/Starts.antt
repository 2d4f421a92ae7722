-- ===== src/Launch/Starts.antt =====
-- What StartReadAhead and StartTracing of src/manager/event_manager.cc do to the invariant.
use android_system_iorap.Prelude.{
  ℕ, ◌≡◌, refl, ◌∙◌, ap, Bool, true, false, not, ◌&&◌, Option, none, some, arith, Text, ℤ,
  if◌then◌else◌,
}
use android_system_iorap.Prelude.Outcome.{Outcome, ok}
use android_system_iorap.Component.{AppComponentName}
use android_system_iorap.Versions.{PackageVersionMap, get_or_query}
use android_system_iorap.Launch.State.{
  Env, AppLaunchEventState, TaskId, has_value, is_read_ahead, begin_read_ahead, get_compiled_trace,
  start_read_ahead, dcheck,
}
use android_system_iorap.Launch.Trace.{subscribe_trace, trace_named, start_tracing}
use android_system_iorap.Launch.Handler.{start_both, start_late}
use android_system_iorap.Launch.Ready.{activity, ignored, busy, Sound}

pub dcheck-true {ℓ} : {A : Type ℓ} {b : Bool} → b ≡ true → (k : Outcome A) → dcheck b k ≡ k
dcheck-true e k = rw e

-- The outcome is a sound state with the same blacklist.
abbrev pub Settles : AppLaunchEventState → Outcome AppLaunchEventState → Type 0
Settles s o =
    (s' : AppLaunchEventState) × (o ≡ ok s') × Sound (activity s') × (s'.blacklist ≡ s.blacklist)

-- The outcome differs from `s` in the readahead task only.
abbrev pub Prefetches : AppLaunchEventState → Outcome AppLaunchEventState → Type 0
Prefetches s o =
    (s' : AppLaunchEventState) × (o ≡ ok s')
    × (t : Option TaskId) × (activity s' ≡ record (activity s) { task = t })

begin_read_ahead-Prefetches :
    (id : ℕ) (r : Option Text × PackageVersionMap) (s : AppLaunchEventState)
    → Prefetches s (ok (begin_read_ahead id r s))
begin_read_ahead-Prefetches id (none, m) s = (_, refl, s.read_ahead_task, refl)
begin_read_ahead-Prefetches id (some p, m) s = (_, refl, _, refl)

start_read_ahead-Prefetches :
    (env : Env) (id : ℕ) (c : AppComponentName) (s : AppLaunchEventState)
    → s.allowed_readahead ≡ true
    → is_read_ahead s ≡ false
    → Prefetches s (start_read_ahead env id c s)
unfolding start_read_ahead
start_read_ahead-Prefetches env id c s allowed idle =
    rw (dcheck-true allowed, dcheck-true (ap not idle))
      (begin_read_ahead-Prefetches id (get_compiled_trace env c s.version_map) s)

-- Readahead that is started under some further test `b` of the caller's.
guarded-Prefetches :
    (env : Env) (c : AppComponentName) (s : AppLaunchEventState) (b : Bool)
    → (b ≡ true → s.allowed_readahead ≡ true)
    → is_read_ahead s ≡ false
    → Prefetches s (if b then start_read_ahead env s.sequence_id c s else ok s)
guarded-Prefetches env c s true allowed idle =
    start_read_ahead-Prefetches env s.sequence_id c s (allowed refl) idle
guarded-Prefetches env c s false allowed idle = (s, refl, s.read_ahead_task, refl)

subscribe_trace-Settles :
    (env : Env) (c : AppComponentName) (r : Option ℤ × PackageVersionMap) (s : AppLaunchEventState)
    → s.is_tracing ≡ false
    → is_read_ahead s ≡ false
    → ignored (activity s) ≡ false
    → Settles s (ok (subscribe_trace env c r s))
subscribe_trace-Settles env c (none, m) s quiet idle named =
    (_, refl, (ground arith, ground arith, ground arith), refl)
subscribe_trace-Settles env c (some v, m) s quiet idle named =
    (_, refl, (ground arith, ground arith, ground arith), refl)

trace_named-Settles :
    (env : Env) (c : AppComponentName) (n : Option AppComponentName) (s : AppLaunchEventState)
    → has_value n ≡ true
    → s.is_tracing ≡ false
    → is_read_ahead s ≡ false
    → ignored (activity s) ≡ false
    → Settles s (trace_named env c n s)
trace_named-Settles env c none s has = absurd (ground arith)
trace_named-Settles env c (some n) s has =
    subscribe_trace-Settles env c
      (get_or_query env.get_package_version n.package_name s.version_map) s

-- Tracing that is started under a test `b` of the caller's.
guarded-Settles :
    (env : Env) (c : AppComponentName) (s : AppLaunchEventState) (b : Bool)
    → (b ≡ true → (s.allowed_tracing ≡ true) × (is_read_ahead s ≡ false))
    → has_value s.component_name ≡ true
    → s.is_tracing ≡ false
    → ignored (activity s) ≡ false
    → Settles s (if b then start_tracing env c s else ok s)
unfolding start_tracing
guarded-Settles env c s true allowed has quiet named =
    rw (dcheck-true (allowed refl).0, dcheck-true (ap not quiet))
      (trace_named-Settles env c s.component_name s has quiet (allowed refl).1 named)
guarded-Settles env c s false allowed has quiet named =
    (s, refl, (ground arith, ground arith, ground arith), refl)

pub start_both-Settles :
    (env : Env) (c : AppComponentName) (s : AppLaunchEventState)
    → has_value s.component_name ≡ true
    → ignored (activity s) ≡ false
    → busy (activity s) ≡ false
    → Settles s (start_both env c s)
unfolding start_both
start_both-Settles env c s has named idle =
    let (s', e, t, k) = guarded-Prefetches env c s s.allowed_readahead (λ a. a) (ground arith) in
    let (s'', d, sound, same) =
      guarded-Settles env c s' (s'.allowed_tracing && not (is_read_ahead s'))
        (λ b. (ground arith, ground arith)) (ap (λ a. has_value a.name) k ∙ has)
        (ap (λ a. a.tracing) k ∙ ground arith) (ap ignored k ∙ named) in
    (s'', rw e d, sound, same ∙ ap (λ a. a.blacklist) k)

pub start_late-Settles :
    (env : Env) (c : AppComponentName) (s : AppLaunchEventState)
    → has_value s.component_name ≡ true
    → ignored (activity s) ≡ false
    → busy (activity s) ≡ false
    → Settles s (start_late env c s)
unfolding start_late
start_late-Settles env c s has named idle =
    let (s', e, t, k) =
      guarded-Prefetches env c s (s.allowed_readahead && not (is_read_ahead s)) (λ b. ground arith)
        (ground arith) in
    let (s'', d, sound, same) =
      guarded-Settles env c s' (s'.allowed_tracing && (not s'.is_tracing && not (is_read_ahead s')))
        (λ b. (ground arith, ground arith)) (ap (λ a. has_value a.name) k ∙ has)
        (ap (λ a. a.tracing) k ∙ ground arith) (ap ignored k ∙ named) in
    (s'', rw e d, sound, same ∙ ap (λ a. a.blacklist) k)
