-- ===== src/Commands.antt =====
-- The payload builders of ino_a9_bridge/src/wificam_bridge/commands.py.
pub mod Response
pub mod Schedule
pub mod Examples
use Prim.Native.String.{String}
use text.Mathlib.Text.{◌==◌ as str_eq}
use ino_a9_local_bridge.Base.{
  ℕ, zero, suc, ◌+◌, ◌*◌, ◌/◌, bit_and, bit_or, List, [], ◌∷◌, ◌++◌, Option, none, some, Bool, true,
  false, not,
}
use ino_a9_local_bridge.Base.Tests.{ltb, leb, ◌==◌, if◌then◌else◌}
use ino_a9_local_bridge.Base.Lists.{length}
use ino_a9_local_bridge.Base.Except.{
  Result, ok, err, value_error, out_of_fuel, require, ◌>>=◌, ◌>>◌,
}
use ino_a9_local_bridge.Value.{Value, str}
use ino_a9_local_bridge.Controls.{Time, IntrusionSchedule}
use ino_a9_local_bridge.Varint.{encode_varint, decode_varint, max_varint_bytes}

abbrev pub status_led_command : ℕ
status_led_command = 2633

abbrev pub night_set_command : ℕ
night_set_command = 2635

abbrev pub night_get_command : ℕ
night_get_command = 2636

abbrev pub flip_set_command : ℕ
flip_set_command = 2613

abbrev pub flip_get_command : ℕ
flip_get_command = 2649

abbrev pub video_quality_command : ℕ
video_quality_command = 2612

abbrev pub intrusion_command : ℕ
intrusion_command = 2639

abbrev pub motion_command : ℕ
motion_command = 2661

abbrev pub reboot_command : ℕ
reboot_command = 2647

-- A dict from names to numbers, in the order of its items.
abbrev pub Table : Type 0
Table = List (String × ℕ)

abbrev pub night_values : Table
night_values = ("enabled", 1) ∷ ("disabled", 2) ∷ ("automatic", 3) ∷ []

abbrev pub flip_values : Table
flip_values = ("upright", 1) ∷ ("horizontal", 2) ∷ ("vertical", 3) ∷ ("rotate_180", 4) ∷ []

abbrev pub video_quality_values : Table
video_quality_values = ("sd", 5) ∷ ("hd", 10) ∷ ("uhd", 15) ∷ []

abbrev pub motion_values : Table
motion_values = ("low", 1) ∷ ("medium", 2) ∷ ("high", 3) ∷ ("closed", 0) ∷ []

unfoldable pub wire_value : Table → String → Option ℕ
wire_value [] name = none
wire_value ((n, w) ∷ table) name = if str_eq n name then some w else wire_value table name

-- `isinstance(value, str) and value in values`, with what `values[value]` is.
abbrev pub chosen : Table → Value → Option ℕ
chosen table (str name) = wire_value table name
chosen table _ = none

pub value_payload : ℕ → List ℕ
value_payload value = encode_varint (2 * 8) ++ encode_varint value

enum_payload_of : Option ℕ → Result (List ℕ)
unfolding value_payload
enum_payload_of none = err value_error
enum_payload_of (some wire) = ok (value_payload wire)

pub enum_payload : Value → Table → Result (List ℕ)
unfolding enum_payload_of
enum_payload value table = enum_payload_of (chosen table value)

pub build_led_payload : Bool → List ℕ
build_led_payload enabled = value_payload (if enabled then 1 else 2)

pub build_night_payload : Value → Result (List ℕ)
build_night_payload value = enum_payload value night_values

pub build_flip_payload : Value → Result (List ℕ)
build_flip_payload value = enum_payload value flip_values

pub build_video_quality_payload : Value → Result (List ℕ)
build_video_quality_payload value = enum_payload value video_quality_values

motion_payload_of : Option ℕ → Result (List ℕ)
motion_payload_of none = err value_error
motion_payload_of (some wire) = ok (if wire == 0 then [] else value_payload wire)

-- The wire value 0 is sent as an empty message.
pub build_motion_payload : Value → Result (List ℕ)
unfolding motion_payload_of
build_motion_payload value = motion_payload_of (chosen motion_values value)

pub value_field : ℕ → ℕ → List ℕ
value_field number value = encode_varint (number * 8) ++ encode_varint value

pub bytes_field : ℕ → List ℕ → List ℕ
bytes_field number value =
    encode_varint (bit_or (number * 8) 2) ++ (encode_varint (length value) ++ value)

pub seconds : Time → ℕ
seconds value = value.hour * 3600 + value.minute * 60

pub time_range : IntrusionSchedule → List ℕ
time_range schedule =
    let end = value_field 2 (seconds schedule.end) in
    if seconds schedule.start == 0 then end else value_field 1 (seconds schedule.start) ++ end

-- Both arguments have their type, so neither test on it fails.
pub build_intrusion_payload : Bool → IntrusionSchedule → List ℕ
build_intrusion_payload enabled schedule =
    let nested =
      bytes_field 2 schedule.days ++ (bytes_field 3 (time_range schedule) ++ value_field 4 1) in
    let payload = bytes_field 3 nested in if enabled then value_field 2 1 ++ payload else payload

-- What one field leads to: the answer, or the offset of the next field.
pub data Step : Type 0 where
  found : ℕ → Step
  next : ℕ → Step

-- The `if` ladder over the wire type.
pub field_step : List ℕ → ℕ → ℕ → ℕ → Result Step
field_step payload number wire_type offset =
    if wire_type == 0
    then (do
      (value, offset') ← decode_varint payload offset max_varint_bytes
      ok (if number == 1 then found value else next offset'))
    else if wire_type == 1
    then ok (next (offset + 8))
    else if wire_type == 2
    then (do
      (size, offset') ← decode_varint payload offset max_varint_bytes
      ok (next (offset' + size)))
    else if wire_type == 5
    then ok (next (offset + 4))
    else err value_error

-- `while offset < len(payload)`; the first argument bounds the rounds.
response_loop : ℕ → List ℕ → ℕ → Result (Option ℕ)
response_loop zero payload offset = if ltb offset (length payload) then err out_of_fuel else ok none
response_loop (suc fuel) payload offset = elim (ltb offset (length payload)) [
  | false ↦ ok none
  | true ↦ do
    (tag, offset') ← decode_varint payload offset max_varint_bytes
    step ← field_step payload (tag / 8) (bit_and tag 7) offset'
    elim step [
      | found value ↦ ok (some value)
      | next offset'' ↦ do
        require (leb offset'' (length payload)) value_error
        response_loop fuel payload offset''
    ]
]

pub read_response_value : List ℕ → Result (Option ℕ)
unfolding field_step
read_response_value payload = response_loop (length payload) payload 0
