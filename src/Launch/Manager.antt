-- ===== src/Launch/Manager.antt =====
-- OnAppLaunchEvent of EventManager::Impl in src/manager/event_manager.cc: the defender in front of
-- the state. The rx chain between them keeps the order of the events.
use android_system_iorap.Prelude.{Bool, true, false, List, [], ◌∷◌}
use android_system_iorap.Prelude.Outcome.{Outcome, ok, ◌>>=◌}
use android_system_iorap.Launch.{EventType, AppLaunchEvent}
use android_system_iorap.Launch.Defender.{Result, accept, reject, overwrite, defend}
use android_system_iorap.Launch.State.{Env, AppLaunchEventState}
use android_system_iorap.Launch.Handler.{on_new_event}

pub record EventManager : Type 0 where
  pub last_event_type : EventType
  pub launch : AppLaunchEventState

-- The switch over the defender's result: the returned value and the state.
unfoldable pub answer :
    Env → AppLaunchEvent → Result → AppLaunchEventState → Outcome (Bool × AppLaunchEventState)
answer env event accept s = on_new_event env event s >>= λ s'. ok (true, s')
answer env event (overwrite other) s = on_new_event env other s >>= λ s'. ok (false, s')
answer env event reject s = ok (false, s)

-- EventManager::Impl::OnAppLaunchEvent
unfoldable pub on_app_launch_event :
    Env → AppLaunchEvent → EventManager → Outcome (Bool × EventManager)
on_app_launch_event env event m =
    let (last, result) = defend m.last_event_type event in
    answer env event result m.launch >>= λ (accepted, s).
    ok (accepted, record { last_event_type = last; launch = s })

-- A sequence of events, each with the answers of the system at its time.
unfoldable pub run : List (Env × AppLaunchEvent) → EventManager → Outcome EventManager
run [] m = ok m
run ((env, event) ∷ later) m = on_app_launch_event env event m >>= λ (accepted, m'). run later m'
