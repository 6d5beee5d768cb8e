-- ===== src/Commands/Schedule.antt =====
-- `build_intrusion_payload` against the message that it stands for.
use ino_a9_local_bridge.Base.{
  ◌≡◌, refl, List, [], ◌∷◌, append-nil, append_assoc, Bool, true, false, inl, inr,
}
use ino_a9_local_bridge.Base.Tests.{◌==◌, if◌then◌else◌, Bool-cases}
use ino_a9_local_bridge.Varint.{encode_varint}
use ino_a9_local_bridge.Controls.{IntrusionSchedule}
use ino_a9_local_bridge.Commands.{
  build_intrusion_payload, value_field, bytes_field, seconds, time_range,
}
use ino_a9_local_bridge.Commands.Response.{Field, varint, delimited, encode_message}

-- The two ends of the day's range; midnight is the default of the first, so it is left out.
abbrev pub range_fields : IntrusionSchedule → List Field
range_fields s =
    if seconds s.start == 0
    then varint 2 (seconds s.end) ∷ []
    else varint 1 (seconds s.start) ∷ varint 2 (seconds s.end) ∷ []

abbrev pub schedule_fields : IntrusionSchedule → List Field
schedule_fields s =
    delimited 2 s.days ∷ delimited 3 (encode_message (range_fields s)) ∷ varint 4 1 ∷ []

abbrev pub intrusion_fields : Bool → IntrusionSchedule → List Field
intrusion_fields enabled s =
    if enabled
    then varint 2 1 ∷ delimited 3 (encode_message (schedule_fields s)) ∷ []
    else delimited 3 (encode_message (schedule_fields s)) ∷ []

time_range-fields : (s : IntrusionSchedule) → time_range s ≡ encode_message (range_fields s)
unfolding time_range value_field
time_range-fields s = elim (Bool-cases (seconds s.start == 0)) [
  | inl e ↦ rw (e, append-nil (encode_varint (seconds s.end))) refl
  | inr e ↦ rw e (simp (append_assoc, append-nil) refl)
]

-- The payload is the protobuf message with the switch at field 2, left out when it is off, and the
-- schedule at field 3: the days at 2, the range in seconds at 3, whose start is left out at
-- midnight, and 1 at 4.
pub build_intrusion_payload-fields :
    (enabled : Bool) (s : IntrusionSchedule)
    → build_intrusion_payload enabled s ≡ encode_message (intrusion_fields enabled s)
unfolding build_intrusion_payload value_field bytes_field
build_intrusion_payload-fields true s = simp (append_assoc, append-nil, time_range-fields s) refl
build_intrusion_payload-fields false s = simp (append_assoc, append-nil, time_range-fields s) refl
