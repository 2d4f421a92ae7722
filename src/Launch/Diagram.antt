-- ===== src/Launch/Diagram.antt =====
-- The contract of ActivityMetricsLaunchObserver as a transition diagram, and the defender against it.
use android_system_iorap.Prelude.{
  ◌≡◌, refl, ◌⊎◌, inl, inr, List, [], ◌∷◌, none, some, ◌↔◌, sym, subst, ap,
}
use android_system_iorap.Launch.{
  EventType, uninitialized, intent_started, intent_failed, activity_launched,
  activity_launch_finished, activity_launch_cancelled, report_fully_drawn, AppLaunchEvent,
}
use android_system_iorap.Launch.Defender.{
  Result, accept, defend, delivered, from_terminal, from_started, from_launched, from_finished,
}

-- `Next s t`: an event of type `t` may follow one of type `s`.
pub data Next : EventType → EventType → Type 0 where
  first : Next uninitialized intent_started
  fail : Next intent_started intent_failed
  launch : Next intent_started activity_launched
  finish : Next activity_launched activity_launch_finished
  cancel : Next activity_launched activity_launch_cancelled
  draw : Next activity_launch_finished report_fully_drawn
  again_failed : Next intent_failed intent_started
  again_cancelled : Next activity_launch_cancelled intent_started
  again_finished : Next activity_launch_finished intent_started
  again_drawn : Next report_fully_drawn intent_started

-- A sequence of events that follows the diagram from `s` on.
pub data Follows : EventType → List AppLaunchEvent → Type 0 where
  stop : {s : EventType} → Follows s []
  next :
      {s : EventType} {e : AppLaunchEvent} {es : List AppLaunchEvent}
      → Next s e.type
      → Follows e.type es
      → Follows s (e ∷ es)

-- The events that the defender delivers.
unfoldable pub deliver_all : EventType → List AppLaunchEvent → List AppLaunchEvent
deliver_all last [] = []
deliver_all last (e ∷ es) = elim (delivered e (defend last e).1) [
  | none ↦ deliver_all (defend last e).0 es
  | some d ↦ d ∷ deliver_all (defend last e).0 es
]

-- What is legal from the defender's state is legal from `s`, the last event that was delivered.
abbrev pub Behind : EventType → EventType → Type 0
Behind s last = (t : EventType) → Next last t → Next s t

-- `d` is the event `e`, or `e` as a failed or cancelled launch.
abbrev pub Softened : AppLaunchEvent → AppLaunchEvent → Type 0
Softened e d =
    (d ≡ e)
    ⊎ ((d ≡ record e { type = intent_failed })
        ⊎ (d ≡ record e { type = activity_launch_cancelled }))

-- What the defender answers to one event: what is delivered is legal and becomes its state; else it
-- goes back to its first state, from which nothing new is legal.
abbrev pub Answer : EventType → AppLaunchEvent → EventType × Result → Type 0
Answer last e (new, r) =
    ((d : AppLaunchEvent) × (delivered e r ≡ some d)
      × (new ≡ d.type)
      × Next last d.type
      × Softened e d)
    ⊎ ((delivered e r ≡ none) × (new ≡ uninitialized) × Behind last uninitialized)

behind : {s : EventType} → Next s intent_started → Behind s uninitialized
behind n _ first = n

accepted :
    (last t : EventType) (e : AppLaunchEvent) → e.type ≡ t → Next last t → Answer last e (t, accept)
accepted last t e h n = inl (e, refl, sym h, subst (Next last) (sym h) n, inl refl)

terminal :
    (last t : EventType) (e : AppLaunchEvent)
    → e.type ≡ t
    → Next last intent_started
    → Answer last e (from_terminal t)
terminal last uninitialized e h n = inr (refl, refl, behind n)
terminal last intent_started e h n = accepted last intent_started e h n
terminal last intent_failed e h n = inr (refl, refl, behind n)
terminal last activity_launched e h n = inr (refl, refl, behind n)
terminal last activity_launch_finished e h n = inr (refl, refl, behind n)
terminal last activity_launch_cancelled e h n = inr (refl, refl, behind n)
terminal last report_fully_drawn e h n = inr (refl, refl, behind n)

started :
    (t : EventType) (e : AppLaunchEvent) → e.type ≡ t → Answer intent_started e (from_started e t)
started uninitialized e h = inl (_, refl, refl, fail, inr (inl refl))
started intent_started e h = inl (_, refl, refl, fail, inr (inl refl))
started intent_failed e h = accepted intent_started intent_failed e h fail
started activity_launched e h = accepted intent_started activity_launched e h launch
started activity_launch_finished e h = inl (_, refl, refl, fail, inr (inl refl))
started activity_launch_cancelled e h = inl (_, refl, refl, fail, inr (inl refl))
started report_fully_drawn e h = inl (_, refl, refl, fail, inr (inl refl))

launched :
    (t : EventType) (e : AppLaunchEvent)
    → e.type ≡ t
    → Answer activity_launched e (from_launched e t)
launched uninitialized e h = inl (_, refl, refl, cancel, inr (inr refl))
launched intent_started e h = inl (_, refl, refl, cancel, inr (inr refl))
launched intent_failed e h = inl (_, refl, refl, cancel, inr (inr refl))
launched activity_launched e h = inl (_, refl, refl, cancel, inr (inr refl))
launched activity_launch_finished e h =
    accepted activity_launched activity_launch_finished e h finish
launched activity_launch_cancelled e h =
    accepted activity_launched activity_launch_cancelled e h cancel
launched report_fully_drawn e h = inl (_, refl, refl, cancel, inr (inr refl))

finished :
    (t : EventType) (e : AppLaunchEvent)
    → e.type ≡ t
    → Answer activity_launch_finished e (from_finished t)
finished uninitialized e h = inr (refl, refl, behind again_finished)
finished intent_started e h = accepted activity_launch_finished intent_started e h again_finished
finished intent_failed e h = inr (refl, refl, behind again_finished)
finished activity_launched e h = inr (refl, refl, behind again_finished)
finished activity_launch_finished e h = inr (refl, refl, behind again_finished)
finished activity_launch_cancelled e h = inr (refl, refl, behind again_finished)
finished report_fully_drawn e h = accepted activity_launch_finished report_fully_drawn e h draw

pub defend-Answer : (last : EventType) (e : AppLaunchEvent) → Answer last e (defend last e)
unfolding defend
defend-Answer uninitialized e = terminal uninitialized e.type e refl first
defend-Answer intent_failed e = terminal intent_failed e.type e refl again_failed
defend-Answer activity_launch_cancelled e =
    terminal activity_launch_cancelled e.type e refl again_cancelled
defend-Answer report_fully_drawn e = terminal report_fully_drawn e.type e refl again_drawn
defend-Answer intent_started e = started e.type e refl
defend-Answer activity_launched e = launched e.type e refl
defend-Answer activity_launch_finished e = finished e.type e refl

deliver_all-Behind :
    (s last : EventType) (es : List AppLaunchEvent)
    → Behind s last
    → Follows s (deliver_all last es)
unfolding deliver_all
deliver_all-Behind s last [] b = stop
deliver_all-Behind s last (e ∷ es) b = elim (defend-Answer last e) [
  | inl (d, given, new, n, soft) ↦
      rw (deliver_all, given, new)
        (next (b d.type n) (deliver_all-Behind d.type d.type es (λ t m. m)))
  | inr (dropped, new, back) ↦
      rw (deliver_all, dropped, new) (deliver_all-Behind s uninitialized es (λ t m. b t (back t m)))
]

-- Whatever events are reported, those that are delivered are a path of the diagram of launch
-- sequences, from its start.
pub deliver_all-Follows :
    (es : List AppLaunchEvent) → Follows uninitialized (deliver_all uninitialized es)
deliver_all-Follows es = deliver_all-Behind uninitialized uninitialized es (λ t m. m)

-- A legal event is accepted as it is.
pub defend-Next :
    (last t : EventType) (e : AppLaunchEvent)
    → e.type ≡ t
    → Next last t
    → defend last e ≡ (t, accept)
unfolding defend
defend-Next last t e h first = rw h
defend-Next last t e h fail = rw h
defend-Next last t e h launch = rw h
defend-Next last t e h finish = rw h
defend-Next last t e h cancel = rw h
defend-Next last t e h draw = rw h
defend-Next last t e h again_failed = rw h
defend-Next last t e h again_cancelled = rw h
defend-Next last t e h again_finished = rw h
defend-Next last t e h again_drawn = rw h

-- Events that follow the diagram are all delivered, as they are.
pub deliver_all_legal :
    (last : EventType) (es : List AppLaunchEvent) → Follows last es → deliver_all last es ≡ es
unfolding deliver_all
deliver_all_legal last [] f = refl
deliver_all_legal last (e ∷ es) (next n f) =
    let a = defend-Next last e.type e refl n in
    rw (deliver_all, ap (λ r. delivered e r.1) a, ap (λ r. r.0) a)
      (ap (◌∷◌ e) (deliver_all_legal e.type es f))

-- The defender delivers a sequence of reported events unchanged just if the sequence is a path of
-- the diagram of launch sequences from its start.
pub deliver_all_iff :
    (es : List AppLaunchEvent) → Follows uninitialized es ↔ (deliver_all uninitialized es ≡ es)
deliver_all_iff es = (
  deliver_all_legal uninitialized es,
  λ h. subst (Follows uninitialized) h (deliver_all-Follows es),
)
