-- ===== src/Parcels/RoundTrip.antt =====
-- Reading back a written AppLaunchEvent of include/binder/app_launch_event.h.
use android_system_iorap.Prelude.{
  ℕ, ◌≡◌, ◌≢◌, refl, sym, ◌∙◌, ap, Bool, true, false, List, [], ◌++◌, append_assoc, Option, none,
  some, arith, Text, ℤ, Option-cases, inl, inr,
}
use android_system_iorap.Launch.{
  EventType, uninitialized, intent_started, intent_failed, activity_launched,
  activity_launch_finished, activity_launch_cancelled, report_fully_drawn, IntentProto,
  AppLaunchEvent,
}
use android_system_iorap.Parcels.{
  Transfer, aborted, rejected, done, Reader, give, read_then, write_then, ParcelLibrary, type_code,
  type_of, temperature_code, temperature_of, default_event, read_proto, read_nullable_proto,
  write_bytes_or_bad, write_proto, write_nullable_proto, read_of_type, read_from_parcel,
  write_of_type, write_to_parcel,
}

-- What is written for a value is read back, and nothing of what stands behind it.
abbrev pub ReadsBack {ℓ} : {A : Type ℓ} → Reader A → Transfer (List ℕ) → A → Type ℓ
ReadsBack r w x = (b rest : List ℕ) → w ≡ done b → r (b ++ rest) ≡ done (x, rest)

-- The functions of Parcel read back what they wrote, and protobufs parse what they serialized.
pub record IsFaithful (lib : ParcelLibrary) : Type 0 where
  pub int32 : (n : ℤ) → ReadsBack lib.read_int32 (lib.write_int32 n) n
  pub int64 : (n : ℤ) → ReadsBack lib.read_int64 (lib.write_int64 n) n
  pub bool : (v : Bool) → ReadsBack lib.read_bool (lib.write_bool v) v
  pub byte_vector :
      (bytes : List ℕ) → ReadsBack lib.read_byte_vector (lib.write_byte_vector bytes) bytes
  pub intent :
      (i : IntentProto) (bytes : List ℕ)
      → lib.serialize_intent i ≡ some bytes
      → lib.parse_intent bytes ≡ some i
  pub record_ :
      (t : Text) (bytes : List ℕ)
      → lib.serialize_record t ≡ some bytes
      → lib.parse_record bytes ≡ some t

pub done_inj : (b c : List ℕ) → done b ≡ done c → b ≡ c
done_inj b c e = ground arith

-- A write of two parts that works is that of both parts.
write_then-done :
    (w v : Transfer (List ℕ)) (c : List ℕ)
    → write_then w v ≡ done c
    → (a : List ℕ) × (b : List ℕ) × (w ≡ done a) × (v ≡ done b) × (c ≡ a ++ b)
unfolding write_then
write_then-done aborted v c e = absurd (ground arith)
write_then-done (rejected n) v c e = absurd (ground arith)
write_then-done (done a) aborted c e = absurd (ground arith)
write_then-done (done a) (rejected n) c e = absurd (ground arith)
write_then-done (done a) (done b) c e = (a, b, refl, refl, ground arith)

read_then-ReadsBack {ℓ κ} :
    {A : Type ℓ} {B : Type κ} (r : Reader A) (k : A → Reader B) (w v : Transfer (List ℕ)) (x : A)
    (y : B)
    → ReadsBack r w x
    → ReadsBack (k x) v y
    → ReadsBack (read_then r k) (write_then w v) y
unfolding read_then
read_then-ReadsBack r k w v x y first second c rest e =
    let (a, b, ew, ev, ec) = write_then-done w v c e in
    rw (ec, append_assoc a b rest, first a (b ++ rest) ew) (second b rest ev)

-- A read value is wrapped.
read_give-ReadsBack {ℓ κ} :
    {A : Type ℓ} {B : Type κ} (r : Reader A) (f : A → B) (w : Transfer (List ℕ)) (x : A)
    → ReadsBack r w x
    → ReadsBack (read_then r (λ a. give (f a))) w (f x)
unfolding read_then
read_give-ReadsBack r f w x back b rest e = rw (back b rest e) refl

-- The fields that the event's type transfers, set in `d`.
abbrev pub transferred : EventType → AppLaunchEvent → AppLaunchEvent → AppLaunchEvent
transferred uninitialized d e = d
transferred intent_started d e = record d {
  intent_proto = e.intent_proto;
  timestamp_nanos = e.timestamp_nanos;
}
transferred intent_failed d e = d
transferred activity_launched d e = record d {
  activity_title = e.activity_title;
  temperature = temperature_of (temperature_code e.temperature);
}
transferred activity_launch_finished d e = record d {
  activity_title = e.activity_title;
  timestamp_nanos = e.timestamp_nanos;
}
transferred activity_launch_cancelled d e = record d { activity_title = e.activity_title }
transferred report_fully_drawn d e = record d {
  activity_title = e.activity_title;
  timestamp_nanos = e.timestamp_nanos;
}

type_of-type_code : (t : EventType) → type_of (type_code t) ≡ t
type_of-type_code uninitialized = refl
type_of-type_code intent_started = refl
type_of-type_code intent_failed = refl
type_of-type_code activity_launched = refl
type_of-type_code activity_launch_finished = refl
type_of-type_code activity_launch_cancelled = refl
type_of-type_code report_fully_drawn = refl

module _ (lib : ParcelLibrary) (faithful : IsFaithful lib) where
  module _ {ℓ} {A : Type ℓ} (serialize : A → Option (List ℕ)) (parse : List ℕ → Option A)
      (back : (x : A) (bytes : List ℕ) → serialize x ≡ some bytes → parse bytes ≡ some x) where
    read_proto-ReadsBack :
        (x : A) → ReadsBack (read_proto lib parse) (write_proto lib serialize (some x)) x
    unfolding read_then
    read_proto-ReadsBack x b rest e = elim (Option-cases (serialize x)) [
      | inl bad ↦ absurd (ground arith)
      | inr (bytes, good) ↦
          let w : lib.write_byte_vector bytes ≡ done b =
            ap (write_bytes_or_bad lib) (sym good) ∙ e in
          rw (faithful.byte_vector bytes b rest w, back x bytes good) refl
    ]

    read_nullable_proto-ReadsBack :
        (o : Option A)
        → ReadsBack (read_nullable_proto lib parse) (write_nullable_proto lib serialize o) o
    unfolding read_then
    read_nullable_proto-ReadsBack none = λ b rest e. rw (faithful.bool false b rest e) refl
    read_nullable_proto-ReadsBack (some x) =
        read_then-ReadsBack lib.read_bool _ (lib.write_bool true) _ true (some x)
          (faithful.bool true)
          (read_give-ReadsBack (read_proto lib parse) some _ x (read_proto-ReadsBack x))

    -- A message that must be there, with what follows it.
    with_proto {κ} :
        {B : Type κ} (o : Option A) (k : A → Reader B) (v : Transfer (List ℕ)) (y : Option A → B)
        → ((x : A) → ReadsBack (k x) v (y (some x)))
        → ReadsBack
            (read_then (read_proto lib parse) k)
            (write_then (write_proto lib serialize o) v)
            (y o)
    unfolding write_then
    with_proto none k v y h = λ b rest e. absurd (ground arith)
    with_proto (some x) k v y h =
        read_then-ReadsBack (read_proto lib parse) k (write_proto lib serialize (some x)) v x
          (y (some x)) (read_proto-ReadsBack x) (h x)

  of_type-ReadsBack :
      (t : EventType) (d e : AppLaunchEvent)
      → t ≢ report_fully_drawn
      → ReadsBack (read_of_type lib t d) (write_of_type lib t e) (transferred t d e)
  unfolding read_of_type write_of_type
  of_type-ReadsBack uninitialized d e n = λ b rest h. absurd (ground arith)
  of_type-ReadsBack intent_started d e n =
      with_proto lib.serialize_intent lib.parse_intent faithful.intent e.intent_proto _ _
        (λ o. record d { intent_proto = o; timestamp_nanos = e.timestamp_nanos })
        (λ i.
          read_give-ReadsBack lib.read_int64
            (λ t. record d { intent_proto = some i; timestamp_nanos = t }) _ e.timestamp_nanos
            (faithful.int64 e.timestamp_nanos))
  of_type-ReadsBack intent_failed d e n = λ b rest h. rw (sym (done_inj [] b h)) refl
  of_type-ReadsBack activity_launched d e n =
      let c = temperature_code e.temperature in
      with_proto lib.serialize_record lib.parse_record faithful.record_ e.activity_title _ _
        (λ o. record d { activity_title = o; temperature = temperature_of c })
        (λ a.
          read_give-ReadsBack lib.read_int32
            (λ c'. record d { activity_title = some a; temperature = temperature_of c' }) _ c
            (faithful.int32 c))
  of_type-ReadsBack activity_launch_finished d e n =
      with_proto lib.serialize_record lib.parse_record faithful.record_ e.activity_title _ _
        (λ o. record d { activity_title = o; timestamp_nanos = e.timestamp_nanos })
        (λ a.
          read_give-ReadsBack lib.read_int64
            (λ t. record d { activity_title = some a; timestamp_nanos = t }) _ e.timestamp_nanos
            (faithful.int64 e.timestamp_nanos))
  of_type-ReadsBack activity_launch_cancelled d e n =
      read_give-ReadsBack (read_nullable_proto lib lib.parse_record)
        (λ o. record d { activity_title = o }) _ e.activity_title
        (read_nullable_proto-ReadsBack lib.serialize_record lib.parse_record faithful.record_
          e.activity_title)
  of_type-ReadsBack report_fully_drawn d e n = absurd (n refl)

  -- If Parcel and the protobufs read back what they wrote, an event that is not kReportFullyDrawn and is
  -- written without a failure is read from the parcel again, with the fields that its type transfers and
  -- the others as in a new event, and what stands behind it in the parcel is left.
  pub read_from_parcel-write_to_parcel :
      (e : AppLaunchEvent) (b rest : List ℕ)
      → e.type ≢ report_fully_drawn
      → write_to_parcel lib e ≡ done b
      → read_from_parcel lib (b ++ rest)
        ≡ done (
          transferred e.type
              (record default_event { type = e.type; sequence_id = e.sequence_id })
              e,
          rest,
        )
  unfolding read_from_parcel write_to_parcel
  read_from_parcel-write_to_parcel e b rest n =
      read_then-ReadsBack lib.read_int32 _ _ _ (type_code e.type) _
        (faithful.int32 (type_code e.type))
        (read_then-ReadsBack lib.read_int64 _ _ _ e.sequence_id _ (faithful.int64 e.sequence_id)
          (rw (type_of-type_code e.type) (of_type-ReadsBack e.type _ e n)))
        b rest
