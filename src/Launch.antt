-- ===== src/Launch.antt =====
-- The app launch sequence, as the binder service reports it: include/binder/app_launch_event.h and
-- the classes of src/manager/event_manager.cc that follow it.
pub mod Defender
pub mod Diagram
pub mod State
pub mod Trace
pub mod History
pub mod Handler
pub mod Manager
pub mod Ready
pub mod Starts
pub mod Steps
pub mod Launched
pub mod Runs
pub mod Quiet
pub mod Ending
pub mod Chains
use android_system_iorap.Prelude.{ℕ, Option, Text, ℤ, Bool, true, false}

pub data EventType : Type 0 where
  uninitialized intent_started intent_failed activity_launched : EventType
  activity_launch_finished activity_launch_cancelled report_fully_drawn : EventType

-- What the code reads of an IntentProto: has_component(), and the names of component(), which are
-- empty where it has none.
pub record IntentProto : Type 0 where
  pub has_component : Bool
  pub package_name : Text
  pub class_name : Text

-- The underlying int32_t is not checked, so a value may name no enumerator.
pub data Temperature : Type 0 where
  cold warm hot : Temperature
  other : ℤ → Temperature

-- `activity_title` is activity_record_proto->identifier().title(); `none` is a null pointer.
pub record AppLaunchEvent : Type 0 where
  pub type : EventType
  pub sequence_id : ℤ
  pub intent_proto : Option IntentProto
  pub temperature : Temperature
  pub activity_title : Option Text
  pub timestamp_nanos : ℤ
