-- ===== src/Parcels.antt =====
-- AppLaunchEvent as a parcel, in include/binder/app_launch_event.h. Of libbinder and protobuf it uses
-- the functions of ParcelLibrary; a parcel is its bytes from the position on.
pub mod RoundTrip
use android_system_iorap.Prelude.{
  ℕ, ◌==◌, Bool, true, false, List, [], ◌∷◌, ◌++◌, Option, none, some, if◌then◌else◌, Text, ℤ, pos,
  negsuc,
}
use android_system_iorap.Launch.{
  EventType, uninitialized, intent_started, intent_failed, activity_launched,
  activity_launch_finished, activity_launch_cancelled, report_fully_drawn, IntentProto, Temperature,
  cold, warm, hot, other, AppLaunchEvent,
}

-- A failed DCHECK, a status other than NO_ERROR, or the result.
pub data Transfer {ℓ} (A : Type ℓ) : Type ℓ where
  aborted : Transfer A
  rejected : ℤ → Transfer A
  done : A → Transfer A

abbrev pub and_then {ℓ κ} : {A : Type ℓ} {B : Type κ} → Transfer A → (A → Transfer B) → Transfer B
and_then aborted k = aborted
and_then (rejected status) k = rejected status
and_then (done x) k = k x

abbrev pub Reader {ℓ} : Type ℓ → Type ℓ
Reader A = List ℕ → Transfer (A × List ℕ)

abbrev pub give {ℓ} : {A : Type ℓ} → A → Reader A
give x parcel = done (x, parcel)

-- PARCEL_READ_OR_RETURN
unfoldable pub read_then {ℓ κ} : {A : Type ℓ} {B : Type κ} → Reader A → (A → Reader B) → Reader B
read_then r k parcel = and_then (r parcel) (λ x. k x.0 x.1)

-- PARCEL_WRITE_OR_RETURN: what is written is appended.
unfoldable pub write_then : Transfer (List ℕ) → Transfer (List ℕ) → Transfer (List ℕ)
write_then w v = and_then w (λ a. and_then v (λ b. done (a ++ b)))

-- The bytes that the functions of Parcel append, and what they read; and the protobufs' serialization.
pub record ParcelLibrary : Type 0 where
  pub write_int32 : ℤ → Transfer (List ℕ)
  pub write_int64 : ℤ → Transfer (List ℕ)
  pub write_bool : Bool → Transfer (List ℕ)
  pub write_byte_vector : List ℕ → Transfer (List ℕ)
  pub read_int32 : Reader ℤ
  pub read_int64 : Reader ℤ
  pub read_bool : Reader Bool
  pub read_byte_vector : Reader (List ℕ)
  pub serialize_intent : IntentProto → Option (List ℕ)
  pub parse_intent : List ℕ → Option IntentProto
  pub serialize_record : Text → Option (List ℕ)
  pub parse_record : List ℕ → Option Text
  pub bad_value : ℤ

abbrev pub type_code : EventType → ℤ
type_code uninitialized = negsuc 0
type_code intent_started = pos 0
type_code intent_failed = pos 1
type_code activity_launched = pos 2
type_code activity_launch_finished = pos 3
type_code activity_launch_cancelled = pos 4
type_code report_fully_drawn = pos 5

-- A number that is no enumerator's is refused by the switch as the uninitialized type is.
abbrev pub type_of : ℤ → EventType
type_of (negsuc n) = uninitialized
type_of (pos n) =
    if n == 0
    then intent_started
    else if n == 1
    then intent_failed
    else if n == 2
    then activity_launched
    else if n == 3
    then activity_launch_finished
    else if n == 4
    then activity_launch_cancelled
    else if n == 5
    then report_fully_drawn
    else uninitialized

abbrev pub temperature_code : Temperature → ℤ
temperature_code cold = pos 1
temperature_code warm = pos 2
temperature_code hot = pos 3
temperature_code (other c) = c

abbrev pub temperature_of : ℤ → Temperature
temperature_of (negsuc n) = other (negsuc n)
temperature_of (pos n) =
    if n == 1 then cold else if n == 2 then warm else if n == 3 then hot else other (pos n)

-- AppLaunchEvent()
abbrev pub default_event : AppLaunchEvent
default_event = record {
  type = uninitialized;
  sequence_id = negsuc 0;
  intent_proto = none;
  temperature = other (negsuc 0);
  activity_title = none;
  timestamp_nanos = negsuc 0;
}

module _ (lib : ParcelLibrary) where
  abbrev pub parsed_or_bad {ℓ} : {A : Type ℓ} → Option A → Reader A
  parsed_or_bad none parcel = rejected lib.bad_value
  parsed_or_bad (some x) parcel = done (x, parcel)

  abbrev pub read_proto {ℓ} : {A : Type ℓ} → (List ℕ → Option A) → Reader A
  read_proto parse =
      read_then lib.read_byte_vector (λ byte_vector. parsed_or_bad (parse byte_vector))

  abbrev pub read_nullable_proto {ℓ} : {A : Type ℓ} → (List ℕ → Option A) → Reader (Option A)
  read_nullable_proto parse =
      read_then lib.read_bool
        (λ value. if value then read_then (read_proto parse) (λ x. give (some x)) else give none)

  abbrev pub write_bytes_or_bad : Option (List ℕ) → Transfer (List ℕ)
  write_bytes_or_bad none = rejected lib.bad_value
  write_bytes_or_bad (some byte_vector) = lib.write_byte_vector byte_vector

  abbrev pub write_proto {ℓ} : {A : Type ℓ} → (A → Option (List ℕ)) → Option A → Transfer (List ℕ)
  write_proto serialize none = aborted
  write_proto serialize (some x) = write_bytes_or_bad (serialize x)

  abbrev pub write_nullable_proto {ℓ} :
      {A : Type ℓ} → (A → Option (List ℕ)) → Option A → Transfer (List ℕ)
  write_nullable_proto serialize none = lib.write_bool false
  write_nullable_proto serialize (some x) =
      write_then (lib.write_bool true) (write_proto serialize (some x))

  -- The cases of readFromParcel, which set fields of `e`.
  unfoldable pub read_of_type : EventType → AppLaunchEvent → Reader AppLaunchEvent
  read_of_type uninitialized e = λ parcel. rejected lib.bad_value
  read_of_type intent_started e = read_then (read_proto lib.parse_intent) (λ i.
      read_then lib.read_int64
        (λ t. give (record e { intent_proto = some i; timestamp_nanos = t })))
  read_of_type intent_failed e = give e
  read_of_type activity_launched e = read_then (read_proto lib.parse_record) (λ a.
      read_then lib.read_int32
        (λ c. give (record e { activity_title = some a; temperature = temperature_of c })))
  read_of_type activity_launch_finished e = read_then (read_proto lib.parse_record) (λ a.
      read_then lib.read_int64
        (λ t. give (record e { activity_title = some a; timestamp_nanos = t })))
  read_of_type activity_launch_cancelled e =
      read_then (read_nullable_proto lib.parse_record) (λ o. give (record e { activity_title = o }))
  read_of_type report_fully_drawn e = read_then (read_proto lib.parse_record) (λ a.
      read_then lib.read_int64
        (λ t. give (record e { activity_title = some a; timestamp_nanos = t })))

  -- readFromParcel, of a new event
  unfoldable pub read_from_parcel : Reader AppLaunchEvent
  read_from_parcel = read_then lib.read_int32 (λ c.
      read_then lib.read_int64 (λ i.
        read_of_type (type_of c) (record default_event { type = type_of c; sequence_id = i })))

  -- The cases of writeToParcel.
  unfoldable pub write_of_type : EventType → AppLaunchEvent → Transfer (List ℕ)
  write_of_type uninitialized e = aborted
  write_of_type intent_started e =
      write_then (write_proto lib.serialize_intent e.intent_proto)
        (lib.write_int64 e.timestamp_nanos)
  write_of_type intent_failed e = done []
  write_of_type activity_launched e =
      write_then (write_proto lib.serialize_record e.activity_title)
        (lib.write_int32 (temperature_code e.temperature))
  write_of_type activity_launch_finished e =
      write_then (write_proto lib.serialize_record e.activity_title)
        (lib.write_int64 e.timestamp_nanos)
  write_of_type activity_launch_cancelled e =
      write_nullable_proto lib.serialize_record e.activity_title
  write_of_type report_fully_drawn e =
      write_then (write_nullable_proto lib.serialize_record e.activity_title)
        (lib.write_int64 e.timestamp_nanos)

  -- writeToParcel
  unfoldable pub write_to_parcel : AppLaunchEvent → Transfer (List ℕ)
  write_to_parcel e =
      write_then (lib.write_int32 (type_code e.type))
        (write_then (lib.write_int64 e.sequence_id) (write_of_type e.type e))
