-- ===== src/Launch/Runs.antt =====
-- Whole runs of EventManager::Impl::OnAppLaunchEvent of src/manager/event_manager.cc.
use android_system_iorap.Prelude.{
  ◌≡◌, refl, sym, ◌∙◌, ap, subst, Bool, true, false, not, ◌&&◌, Option, none, some, arith, Text,
  Bool-cases, inl, inr, List, [], ◌∷◌, is_negative, All,
}
use android_system_iorap.Prelude.Outcome.{ok}
use android_system_iorap.Component.{has_app_component_name}
use android_system_iorap.Launch.{
  EventType, uninitialized, intent_started, intent_failed, activity_launched,
  activity_launch_finished, activity_launch_cancelled, report_fully_drawn, AppLaunchEvent,
}
use android_system_iorap.Launch.Defender.{Result, accept, reject, overwrite, defend, delivered}
use android_system_iorap.Launch.Diagram.{
  Next, first, fail, launch, finish, cancel, draw, again_failed, again_cancelled, again_finished,
  again_drawn, Softened, defend-Answer, Behind,
}
use android_system_iorap.Launch.State.{Env, AppLaunchEventState, has_value, is_blacklisted}
use android_system_iorap.Launch.Handler.{
  on_event_type, on_intent_started, on_activity_launched, refresh, on_new_event,
}
use android_system_iorap.Launch.Manager.{EventManager, answer, on_app_launch_event, run}
use android_system_iorap.Launch.Ready.{Activity, activity, busy, Ready, active}
use android_system_iorap.Launch.Starts.{dcheck-true}
use android_system_iorap.Launch.Steps.{Fate, intent_of-Fate}
use android_system_iorap.Launch.Launched.{
  title_blacklisted, activity_of-Fate, on_intent_failed-Fate, on_activity_launch_cancelled-Fate,
  on_report_fully_drawn-Fate, on_activity_launch_finished-Fate,
}

-- What an event of type `t` carries: an intent at the start, an activity at the launch.
abbrev Carries : EventType → AppLaunchEvent → Type 0
Carries t e =
    (t ≡ intent_started → has_value e.intent_proto ≡ true)
    × (t ≡ activity_launched → has_value e.activity_title ≡ true)

-- The protocol objects of its type are there, as the binder layer ensures, and the sequence id is
-- not negative.
abbrev pub Complete : AppLaunchEvent → Type 0
Complete e = (is_negative e.sequence_id ≡ false) × Carries e.type e

-- No activity of a blacklisted package is launched while a trace or readahead runs.
abbrev pub Expected : AppLaunchEvent → Activity → Type 0
Expected e a =
    e.type ≡ activity_launched → (title_blacklisted e.activity_title a.blacklist && busy a) ≡ false

on_event_type-Fate :
    {last t : EventType} (env : Env) (e : AppLaunchEvent) (s : AppLaunchEventState)
    → Next last t
    → Carries t e
    → (t ≡ activity_launched
        → (title_blacklisted e.activity_title s.blacklist && busy (activity s)) ≡ false)
    → Ready last (activity s)
    → Fate t s (on_event_type t env e s)
unfolding on_event_type on_intent_started on_activity_launched
on_event_type-Fate env e s first (c, d) x (sound, r) =
    intent_of-Fate e.intent_proto env e s (c refl) r
on_event_type-Fate env e s again_failed (c, d) x (sound, r) =
    intent_of-Fate e.intent_proto env e s (c refl) r
on_event_type-Fate env e s again_cancelled (c, d) x (sound, r) =
    intent_of-Fate e.intent_proto env e s (c refl) r
on_event_type-Fate env e s again_finished (c, d) x (sound, r) =
    intent_of-Fate e.intent_proto env e s (c refl) r
on_event_type-Fate env e s again_drawn (c, d) x (sound, r) =
    intent_of-Fate e.intent_proto env e s (c refl) r
on_event_type-Fate env e s fail c x (sound, r) = on_intent_failed-Fate s sound
on_event_type-Fate env e s launch (c, d) x (sound, r) =
    activity_of-Fate e.activity_title env e s (d refl) sound (x refl)
on_event_type-Fate env e s finish c x (sound, r) = on_activity_launch_finished-Fate env e s sound
on_event_type-Fate env e s cancel c x (sound, r) = on_activity_launch_cancelled-Fate s sound
on_event_type-Fate env e s draw c x (sound, r) = on_report_fully_drawn-Fate e s r

-- One legal event is handled without an abort, and leaves the state ready.
pub on_new_event-Fate :
    (last : EventType) (env : Env) (e : AppLaunchEvent) (s : AppLaunchEventState)
    → Next last e.type
    → Complete e
    → Expected e (activity s)
    → Ready last (activity s)
    → Fate e.type s (on_new_event env e s)
unfolding on_new_event
on_new_event-Fate last env e s n (id, c) x r =
    rw (dcheck-true (ap not id)) (on_event_type-Fate env e (refresh env e s) n c x r)

-- The defender's change of an event's type leaves the event complete and expected.
Softened-Complete : (e d : AppLaunchEvent) → Softened e d → Complete e → Complete d
Softened-Complete e d (inl h) c = subst Complete (sym h) c
Softened-Complete e d (inr (inl h)) (id, c) =
    subst Complete (sym h) (id, ((λ t. absurd (ground arith)), (λ t. absurd (ground arith))))
Softened-Complete e d (inr (inr h)) (id, c) =
    subst Complete (sym h) (id, ((λ t. absurd (ground arith)), (λ t. absurd (ground arith))))

Softened-Expected :
    (e d : AppLaunchEvent) (a : Activity) → Softened e d → Expected e a → Expected d a
Softened-Expected e d a (inl h) x = subst (λ f. Expected f a) (sym h) x
Softened-Expected e d a (inr (inl h)) x =
    subst (λ f. Expected f a) (sym h) (λ t. absurd (ground arith))
Softened-Expected e d a (inr (inr h)) x =
    subst (λ f. Expected f a) (sym h) (λ t. absurd (ground arith))

the_event : (e d : AppLaunchEvent) → some e ≡ some d → e ≡ d
the_event e d h = ground arith

answer-delivered :
    (env : Env) (e d : AppLaunchEvent) (r : Result) (s s' : AppLaunchEventState)
    → delivered e r ≡ some d
    → on_new_event env d s ≡ ok s'
    → (b : Bool) × (answer env e r s ≡ ok (b, s'))
unfolding answer
answer-delivered env e d accept s s' h k = (true, rw (the_event e d h, k))
answer-delivered env e d (overwrite f) s s' h k = (false, rw (the_event f d h, k))
answer-delivered env e d reject s s' h k = absurd (ground arith)

answer-dropped :
    (env : Env) (e : AppLaunchEvent) (r : Result) (s : AppLaunchEventState)
    → delivered e r ≡ none
    → answer env e r s ≡ ok (false, s)
unfolding answer
answer-dropped env e accept s h = absurd (ground arith)
answer-dropped env e (overwrite f) s h = absurd (ground arith)
answer-dropped env e reject s h = refl

-- The invariant of the event manager.
abbrev pub IsReady : EventManager → Type 0
IsReady m = Ready m.last_event_type (activity m.launch)

-- Nothing runs where the defender drops events.
Behind-idle :
    (last : EventType) (a : Activity)
    → Behind last uninitialized
    → Ready last a
    → Ready uninitialized a
Behind-idle last a b (sound, r) = (sound, idle_there last (b intent_started first) r)
  where
    idle_there :
        (t : EventType)
        → Next t intent_started
        → (not (active t) && busy a) ≡ false
        → busy a ≡ false
    idle_there uninitialized n q = q
    idle_there intent_started n q = elim n [ ]
    idle_there activity_launched n q = elim n [ ]
    idle_there intent_failed n q = q
    idle_there activity_launch_finished n q = q
    idle_there activity_launch_cancelled n q = q
    idle_there report_fully_drawn n q = q

-- Any reported event, legal or not, is handled without an abort and leaves the manager ready, if it
-- is complete and no activity of a blacklisted package is launched while a trace or readahead runs.
pub on_app_launch_event-IsReady :
    (env : Env) (e : AppLaunchEvent) (m : EventManager)
    → Complete e
    → Expected e (activity m.launch)
    → IsReady m
    → (b : Bool) × (m' : EventManager) × (on_app_launch_event env e m ≡ ok (b, m'))
      × IsReady m'
      × (m'.launch.blacklist ≡ m.launch.blacklist)
unfolding on_app_launch_event
on_app_launch_event-IsReady env e m c x r = elim (defend-Answer m.last_event_type e) [
  | inl (d, given, new, n, soft) ↦
      let (s', k, ready, same) =
        on_new_event-Fate m.last_event_type env d m.launch n (Softened-Complete e d soft c)
          (Softened-Expected e d (activity m.launch) soft x) r in
      let (b, a) = answer-delivered env e d (defend m.last_event_type e).1 m.launch s' given k in
      (b, record { last_event_type = d.type; launch = s' }, rw (a, new), ready, same)
  | inr (dropped, new, back) ↦ (
    false,
    record { last_event_type = uninitialized; launch = m.launch },
    rw (answer-dropped env e (defend m.last_event_type e).1 m.launch dropped, new),
    Behind-idle m.last_event_type (activity m.launch) back r,
    refl,
  )
]

title_blacklisted_none :
    (o : Option Text) (blacklist : List Text)
    → blacklist ≡ []
    → title_blacklisted o blacklist ≡ false
unfolding is_blacklisted
title_blacklisted_none none blacklist h = refl
title_blacklisted_none (some t) blacklist h =
    rw h (elim (Bool-cases (has_app_component_name t)) [ inl e ↦ rw e | inr e ↦ rw e ])

-- Without a blacklist, every sequence of complete events, in any order and with any answers of the
-- system, is handled without an abort: no DCHECK of the tracing and readahead operations fails, a
-- launch is never both traced and prefetched, and nothing runs when no launch is under way.
pub run-IsReady :
    (events : List (Env × AppLaunchEvent)) (m : EventManager)
    → All (λ x. Complete x.1) events
    → m.launch.blacklist ≡ []
    → IsReady m
    → (m' : EventManager) × (run events m ≡ ok m') × IsReady m'
unfolding run
run-IsReady [] m c b r = (m, refl, r)
run-IsReady ((env, e) ∷ later) m (c, cs) b r =
    let (a, m', k, ready, same) =
      on_app_launch_event-IsReady env e m c
        (λ t. rw (title_blacklisted_none e.activity_title m.launch.blacklist b)) r in
    let (m'', k', ready') = run-IsReady later m' cs (same ∙ b) ready in (m'', rw k k', ready')
