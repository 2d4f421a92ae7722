-- ===== src/Launch/Defender.antt =====
-- AppLaunchEventDefender of src/manager/event_manager.cc: which reported events are delivered.
use android_system_iorap.Prelude.{Option, none, some}
use android_system_iorap.Launch.{
  EventType, uninitialized, intent_started, intent_failed, activity_launched,
  activity_launch_finished, activity_launch_cancelled, report_fully_drawn, AppLaunchEvent,
}

-- kOverwrite carries the event that `*overwrite` is set to.
pub data Result : Type 0 where
  accept reject : Result
  overwrite : AppLaunchEvent → Result

-- From a terminal state, only go to kIntentStarted.
abbrev pub from_terminal : EventType → EventType × Result
from_terminal intent_started = (intent_started, accept)
from_terminal _ = (uninitialized, reject)

abbrev pub from_started : AppLaunchEvent → EventType → EventType × Result
from_started event intent_failed = (intent_failed, accept)
from_started event activity_launched = (activity_launched, accept)
from_started event _ = (intent_failed, overwrite (record event { type = intent_failed }))

abbrev pub from_launched : AppLaunchEvent → EventType → EventType × Result
from_launched event activity_launch_finished = (activity_launch_finished, accept)
from_launched event activity_launch_cancelled = (activity_launch_cancelled, accept)
from_launched event _ =
    (activity_launch_cancelled, overwrite (record event { type = activity_launch_cancelled }))

abbrev pub from_finished : EventType → EventType × Result
from_finished intent_started = (intent_started, accept)
from_finished report_fully_drawn = (report_fully_drawn, accept)
from_finished _ = (uninitialized, reject)

-- AppLaunchEventDefender::OnAppLaunchEvent, from `last_event_type_` to the next one.
unfoldable pub defend : EventType → AppLaunchEvent → EventType × Result
defend uninitialized event = from_terminal event.type
defend intent_failed event = from_terminal event.type
defend activity_launch_cancelled event = from_terminal event.type
defend report_fully_drawn event = from_terminal event.type
defend intent_started event = from_started event event.type
defend activity_launched event = from_launched event event.type
defend activity_launch_finished event = from_finished event.type

-- The event that AppLaunchEventSubject::OnNext gets in EventManager::Impl::OnAppLaunchEvent.
abbrev pub delivered : AppLaunchEvent → Result → Option AppLaunchEvent
delivered event accept = some event
delivered event (overwrite other) = some other
delivered event reject = none
