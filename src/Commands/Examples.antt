-- ===== src/Commands/Examples.antt =====
-- A response that holds other fields before its value, and a schedule for the weekend.
use ino_a9_local_bridge.Base.{ℕ, ◌≡◌, List, [], ◌∷◌, true, false, arith}
use ino_a9_local_bridge.Base.Except.{ok}
use ino_a9_local_bridge.Controls.{IntrusionSchedule, Time}
use ino_a9_local_bridge.Commands.{read_response_value, build_intrusion_payload}
use ino_a9_local_bridge.Commands.Response.{
  Field, varint, delimited, AreFields, encode_message, response_of,
  read_response_value-encode_message,
}
use ino_a9_local_bridge.Commands.Schedule.{intrusion_fields, build_intrusion_payload-fields}

abbrev pub reported : List Field
reported = varint 3 70 ∷ delimited 2 (1 ∷ 2 ∷ []) ∷ varint 1 4 ∷ []

pub reported-AreFields : AreFields reported
reported-AreFields =
    (omega arith, omega arith, (omega arith, omega arith, (omega arith, omega arith, tt)))

read_response_value-encode_message_example :
    read_response_value (encode_message reported) ≡ ok (response_of reported)
read_response_value-encode_message_example =
    read_response_value-encode_message reported reported-AreFields

abbrev clock : ℕ → ℕ → Time
clock hour minute = record {
  hour = hour;
  minute = minute;
  second = 0;
  microsecond = 0;
  aware = false;
}

abbrev weekend : IntrusionSchedule
weekend = record { days = 5 ∷ 6 ∷ []; start = clock 0 0; end = clock 23 59 }

build_intrusion_payload-fields_example :
    build_intrusion_payload true weekend ≡ encode_message (intrusion_fields true weekend)
build_intrusion_payload-fields_example = build_intrusion_payload-fields true weekend
