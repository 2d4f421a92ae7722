-- ===== src/Launch/Ready.antt =====
-- The invariant of a launch sequence in AppLaunchEventState of src/manager/event_manager.cc.
use android_system_iorap.Prelude.{
  ℕ, ◌≡◌, refl, ◌∙◌, ap, Bool, true, false, not, ◌&&◌, ◌||◌, Option, none, some, Text, ℤ, List,
}
use android_system_iorap.Component.{AppComponentName}
use android_system_iorap.Versions.{PackageVersionMap}
use android_system_iorap.Launch.{
  EventType, uninitialized, intent_started, intent_failed, activity_launched,
  activity_launch_finished, activity_launch_cancelled, report_fully_drawn, Temperature,
  AppLaunchEvent,
}
use android_system_iorap.Launch.State.{
  Env, AppLaunchEventState, has_value, is_blacklisted, finish_read_ahead, TaskId, finish_task_of,
}
use android_system_iorap.Launch.Trace.{abort_of, abort_trace}
use android_system_iorap.Launch.History.{
  insert_row, insert_named, insert_versioned, insert_db_launch_history, end_chain,
  record_db_launch_history,
}
use android_system_iorap.Launch.Handler.{fail_chain, drawn_of}

-- The fields that decide what runs and what may be started.
pub record Activity : Type 0 where
  pub tracing : Bool
  pub lifetime : Option ℕ
  pub task : Option TaskId
  pub name : Option AppComponentName
  pub blacklist : List Text

abbrev pub activity : AppLaunchEventState → Activity
activity s = record {
  tracing = s.is_tracing;
  lifetime = s.rx_lifetime;
  task = s.read_ahead_task;
  name = s.component_name;
  blacklist = s.blacklist;
}

abbrev pub ignored : Activity → Bool
ignored a = elim a.name [ none ↦ false | some c ↦ is_blacklisted c.package_name a.blacklist ]

abbrev pub busy : Activity → Bool
busy a = a.tracing || has_value a.task

-- A trace that runs can be stopped, no launch is both traced and prefetched, and a launch of a
-- blacklisted package is neither.
abbrev pub Sound : Activity → Type 0
Sound a =
    ((a.tracing && not (has_value a.lifetime)) ≡ false)
    × ((a.tracing && has_value a.task) ≡ false)
    × ((ignored a && busy a) ≡ false)

-- Is a launch under way behind an event of this type?
abbrev pub active : EventType → Bool
active intent_started = true
active activity_launched = true
active uninitialized = false
active intent_failed = false
active activity_launch_finished = false
active activity_launch_cancelled = false
active report_fully_drawn = false

-- Besides, nothing runs when no launch is under way.
abbrev pub Ready : EventType → Activity → Type 0
Ready last a = Sound a × ((not (active last) && busy a) ≡ false)

pub fail_chain-activity :
    (o : Option ℕ) (s : AppLaunchEventState) → activity (fail_chain o s) ≡ activity s
fail_chain-activity none s = refl
fail_chain-activity (some c) s = refl

pub drawn_of-activity :
    (o : Option ℕ) (e : AppLaunchEvent) (s : AppLaunchEventState)
    → activity (drawn_of o e s) ≡ activity s
drawn_of-activity none e s = refl
drawn_of-activity (some c) e s = refl

end_chain-activity :
    (o h : Option ℕ) (s : AppLaunchEventState) → activity (end_chain o h s) ≡ activity s
end_chain-activity none h s = refl
end_chain-activity (some c) none s = refl
end_chain-activity (some c) (some h) s = refl

insert_row-activity :
    (env : Env) (o : Option ℕ) (t : Temperature) (s : AppLaunchEventState)
    → activity (insert_row env o t s).1 ≡ activity s
insert_row-activity env none t s = refl
insert_row-activity env (some i) t s = refl

insert_versioned-activity :
    (env : Env) (c : AppComponentName) (t : Temperature) (r : Option ℤ × PackageVersionMap)
    (s : AppLaunchEventState)
    → activity (insert_versioned env c t r s).1 ≡ activity s
insert_versioned-activity env c t (none, m) s = refl
insert_versioned-activity env c t (some v, m) s =
    insert_row-activity env _ t (record s { version_map = m })

insert_named-activity :
    (env : Env) (c : Option AppComponentName) (t : Option Temperature) (s : AppLaunchEventState)
    → activity (insert_named env c t s).1 ≡ activity s
insert_named-activity env none t s = refl
insert_named-activity env (some c) none s = refl
insert_named-activity env (some c) (some t) s = insert_versioned-activity env c t _ s

-- Recording a launch changes nothing that the invariant reads.
pub record_db_launch_history-activity :
    (env : Env) (s : AppLaunchEventState) → activity (record_db_launch_history env s) ≡ activity s
unfolding record_db_launch_history insert_db_launch_history
record_db_launch_history-activity env s =
    end_chain-activity _ _ _ ∙ insert_named-activity env s.component_name s.temperature s

finish_task_of-activity :
    (o : Option TaskId) (s : AppLaunchEventState)
    → s.read_ahead_task ≡ o
    → activity (finish_task_of o s) ≡ record (activity s) { task = none }
finish_task_of-activity none s e = ap (λ o. record (activity s) { task = o }) e
finish_task_of-activity (some t) s e = refl

pub finish_read_ahead-activity :
    (s : AppLaunchEventState) → activity (finish_read_ahead s) ≡ record (activity s) { task = none }
unfolding finish_read_ahead
finish_read_ahead-activity s = finish_task_of-activity s.read_ahead_task s refl

-- What is left of the lifetime when a trace is given up.
abbrev pub kept_lifetime : Bool → Option ℕ → Option ℕ
kept_lifetime true lifetime = none
kept_lifetime false lifetime = lifetime

abort_of-activity :
    (b : Bool) (o : Option ℕ) (s : AppLaunchEventState)
    → s.is_tracing ≡ b
    → s.rx_lifetime ≡ o
    → activity (abort_of b o s)
      ≡ record (activity s) { tracing = false; lifetime = kept_lifetime b o }
abort_of-activity false o s e d =
    ap (λ b. record (activity s) { tracing = b }) e
    ∙ ap (λ l. record (activity s) { tracing = false; lifetime = l }) d
abort_of-activity true none s e d =
    ap (λ l. record (activity s) { tracing = false; lifetime = l }) d
abort_of-activity true (some l) s e d = refl

pub abort_trace-activity :
    (s : AppLaunchEventState)
    → activity (abort_trace s)
      ≡ record (activity s) { tracing = false; lifetime = kept_lifetime s.is_tracing s.rx_lifetime }
unfolding abort_trace
abort_trace-activity s = abort_of-activity s.is_tracing s.rx_lifetime s refl refl
