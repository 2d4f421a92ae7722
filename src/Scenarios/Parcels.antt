-- ===== src/Scenarios/Parcels.antt =====
-- Events in a simple parcel: a number is its sign and its absolute value, a Boolean is a number, and a
-- byte vector its length and its bytes, as in the parcels of libbinder.
use android_system_iorap.Prelude.{
  ℕ, zero, suc, ◌≡◌, refl, ap, ◌==◌, Bool, true, false, not, List, [], ◌∷◌, ◌++◌, Option, none,
  some, arith, if◌then◌else◌, Text, ℤ, pos, negsuc, length, drop, drop-append_length, sym,
}
use android_system_iorap.Prelude.Texts.{text}
use android_system_iorap.Launch.{
  EventType, activity_launched, report_fully_drawn, IntentProto, cold, AppLaunchEvent,
}
use android_system_iorap.Parcels.{
  rejected, done, Reader, read_then, write_then, and_then, ParcelLibrary, default_event,
  read_of_type, write_of_type, read_from_parcel, write_to_parcel,
}
use android_system_iorap.Parcels.RoundTrip.{
  done_inj, IsFaithful, ReadsBack, transferred, read_from_parcel-write_to_parcel,
}

abbrev first : ℕ → List ℕ → List ℕ
first zero xs = []
first (suc n) [] = []
first (suc n) (x ∷ xs) = x ∷ first n xs

first-append : (xs ys : List ℕ) → first (length xs) (xs ++ ys) ≡ xs
first-append [] ys = refl
first-append (x ∷ xs) ys = ap (λ l. x ∷ l) (first-append xs ys)

abbrev write_number : ℤ → List ℕ
write_number (pos n) = 0 ∷ n ∷ []
write_number (negsuc n) = 1 ∷ n ∷ []

abbrev read_number : Reader ℤ
read_number (sign ∷ n ∷ parcel) = done ((if sign == 0 then pos n else negsuc n), parcel)
read_number parcel = rejected (negsuc 60)

abbrev write_vector : List ℕ → List ℕ
write_vector bytes = 0 ∷ length bytes ∷ bytes

abbrev read_vector : Reader (List ℕ)
read_vector (sign ∷ n ∷ parcel) = done (first n parcel, drop n parcel)
read_vector parcel = rejected (negsuc 60)

abbrev write_flag : Bool → List ℕ
write_flag v = 0 ∷ (if v then 1 else 0) ∷ []

abbrev read_flag : Reader Bool
read_flag (sign ∷ n ∷ parcel) = done (not (n == 0), parcel)
read_flag parcel = rejected (negsuc 60)

abbrev write_intent : IntentProto → List ℕ
write_intent i =
    (if i.has_component then 1 else 0) ∷ length i.package_name ∷ (i.package_name ++ i.class_name)

abbrev read_intent : List ℕ → Option IntentProto
read_intent (c ∷ n ∷ names) = some (record {
  has_component = not (c == 0);
  package_name = first n names;
  class_name = drop n names;
})
read_intent names = none

abbrev words : ParcelLibrary
words = record {
  write_int32 = λ n. done (write_number n);
  write_int64 = λ n. done (write_number n);
  write_bool = λ v. done (write_flag v);
  write_byte_vector = λ bytes. done (write_vector bytes);
  read_int32 = read_number;
  read_int64 = read_number;
  read_bool = read_flag;
  read_byte_vector = read_vector;
  serialize_intent = λ i. some (write_intent i);
  parse_intent = read_intent;
  serialize_record = λ title. some title;
  parse_record = λ title. some title;
  bad_value = negsuc 21;
}

reads_back {ℓ} :
    {A : Type ℓ} (r : Reader A) (a : List ℕ) (x : A)
    → ((rest : List ℕ) → r (a ++ rest) ≡ done (x, rest))
    → ReadsBack r (done a) x
reads_back r a x h b rest e = rw (sym (done_inj a b e)) (h rest)

some_inj : (b c : List ℕ) → some b ≡ some c → b ≡ c
some_inj b c e = ground arith

read_intent-write_intent :
    (c : Bool) (package_name class_name : Text)
    → let i : IntentProto = record {
      has_component = c;
      package_name = package_name;
      class_name = class_name;
    } in
      read_intent (write_intent i) ≡ some i
read_intent-write_intent true package_name class_name =
    rw (first-append package_name class_name, drop-append_length package_name class_name) refl
read_intent-write_intent false package_name class_name =
    rw (first-append package_name class_name, drop-append_length package_name class_name) refl

words-IsFaithful : IsFaithful words
words-IsFaithful = record {
  int32 = number;
  int64 = number;
  bool = flag;
  byte_vector = λ bytes.
      reads_back read_vector (write_vector bytes) bytes
        (λ rest. rw (first-append bytes rest, drop-append_length bytes rest) refl);
  intent = intent;
  record_ = λ t bytes e. sym e;
}
  where
    number : (n : ℤ) → ReadsBack read_number (done (write_number n)) n
    number (pos n) = reads_back read_number (write_number (pos n)) (pos n) (λ rest. refl)
    number (negsuc n) = reads_back read_number (write_number (negsuc n)) (negsuc n) (λ rest. refl)

    flag : (v : Bool) → ReadsBack read_flag (done (write_flag v)) v
    flag true = reads_back read_flag (write_flag true) true (λ rest. refl)
    flag false = reads_back read_flag (write_flag false) false (λ rest. refl)

    intent :
        (i : IntentProto) (bytes : List ℕ)
        → some (write_intent i) ≡ some bytes
        → read_intent bytes ≡ some i
    intent i bytes e =
        rw (sym (some_inj (write_intent i) bytes e))
          (read_intent-write_intent i.has_component i.package_name i.class_name)

abbrev event : EventType → AppLaunchEvent
event t = record {
  type = t;
  sequence_id = pos 12;
  intent_proto = none;
  temperature = cold;
  activity_title = some (text "a/b");
  timestamp_nanos = pos 99;
}

read_from_parcel-write_to_parcel_example :
    read_from_parcel words (
      write_number (pos 2)
      ++ (write_number (pos 12) ++ (write_vector (text "a/b") ++ write_number (pos 1)))
      ++ 77 ∷ [])
    ≡ done (
      transferred activity_launched
          (record default_event { type = activity_launched; sequence_id = pos 12 })
          (event activity_launched),
      77 ∷ [],
    )
unfolding write_to_parcel write_of_type write_then
read_from_parcel-write_to_parcel_example =
    read_from_parcel-write_to_parcel words words-IsFaithful (event activity_launched) _ (77 ∷ [])
      (λ h. absurd (ground arith)) refl

-- The title of a fully drawn event is written with a Boolean in front of it, and read without: the
-- length that is read is the Boolean, and the next number is taken for the title.
misread :
    and_then (write_to_parcel words (event report_fully_drawn)) (λ b. read_from_parcel words b)
    ≡ done (
      record default_event {
        type = report_fully_drawn;
        sequence_id = pos 12;
        activity_title = some (0 ∷ []);
        timestamp_nanos = negsuc 97;
      },
      47 ∷ 98 ∷ 0 ∷ 99 ∷ [],
    )
unfolding write_to_parcel write_of_type write_then read_from_parcel read_of_type read_then
misread = refl
