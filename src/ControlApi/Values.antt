-- ===== src/ControlApi/Values.antt =====
-- `_validated_control_value`, `_schedule_from_value` and `_clock_from_value` of
-- ino_a9_bridge/src/wificam_bridge/control_api.py.
pub mod Clock
pub mod Idempotent
use Prim.Native.Char.{Char, code}
use Prim.Native.String.{String}
use text.Mathlib.Text.{◌==◌ as str_eq}
use ino_a9_local_bridge.Base.{
  ℕ, zero, suc, ◌+◌, ◌-◌, ◌*◌, ◌/◌, ◌%◌, List, [], ◌∷◌, ◌++◌, Option, none, some, Bool, true, false,
  not, ◌&&◌, ◌||◌,
}
use ino_a9_local_bridge.Base.Tests.{ltb, leb, ◌==◌, if◌then◌else◌}
use ino_a9_local_bridge.Base.Int.{pos}
use ino_a9_local_bridge.Base.Except.{
  Result, ok, err, Exception, value_error, type_error, invalid_request, require, ◌>>=◌, ◌>>◌,
}
use ino_a9_local_bridge.Value.{
  Value, Values, Members, null, bool, int, str, array, object, nil, cons, end, member, get_or_null,
  elements,
}
use ino_a9_local_bridge.Controls.{Time, IntrusionSchedule, intrusion_schedule}
use ino_a9_local_bridge.Commands.{
  Table, chosen, night_values, flip_values, video_quality_values, motion_values,
}

-- A digit of a clock text; other scripts' digits are left out.
abbrev pub digit : Char → Option ℕ
digit c = if leb 48 (code c) && leb (code c) 57 then some (code c - 48) else none

abbrev pub digit_char : ℕ → Char
digit_char zero = "0"
digit_char (suc zero) = "1"
digit_char (suc (suc zero)) = "2"
digit_char (suc (suc (suc zero))) = "3"
digit_char (suc (suc (suc (suc zero)))) = "4"
digit_char (suc (suc (suc (suc (suc zero))))) = "5"
digit_char (suc (suc (suc (suc (suc (suc zero)))))) = "6"
digit_char (suc (suc (suc (suc (suc (suc (suc zero))))))) = "7"
digit_char (suc (suc (suc (suc (suc (suc (suc (suc zero)))))))) = "8"
digit_char _ = "9"

-- A number of two digits below the bound.
abbrev pub two_digits : Char → Char → ℕ → Option ℕ
two_digits a b bound = elim (digit a) [
  | none ↦ none
  | some tens ↦ elim (digit b) [
    | none ↦ none
    | some ones ↦ if ltb (tens * 10 + ones) bound then some (tens * 10 + ones) else none
  ]
]

abbrev pub clock_time : ℕ → ℕ → Time
clock_time hour minute = record {
  hour = hour;
  minute = minute;
  second = 0;
  microsecond = 0;
  aware = false;
}

abbrev pub Five : Type 0
Five = Char × Char × Char × Char × Char

-- The characters of a text with `len(value) == 5`.
abbrev pub five : String → Option Five
five (String.◌∷◌ a (String.◌∷◌ b (String.◌∷◌ colon (String.◌∷◌ c (String.◌∷◌ d String.[]))))) =
    some (a, b, colon, c, d)
five _ = none

abbrev pub clock_of : Five → Result Time
clock_of (a, b, colon, c, d) = elim (two_digits a b 24) [
  | none ↦ err invalid_request
  | some hour ↦ elim (two_digits c d 60) [
    | none ↦ err invalid_request
    | some minute ↦ if code colon == 58 then ok (clock_time hour minute) else err invalid_request
  ]
]

-- `datetime.strptime(value, "%H:%M").time()` on five characters, where both fields have two digits.
pub parse_clock : String → Result Time
parse_clock text = elim (five text) [
  | none ↦ err invalid_request
  | some characters ↦ clock_of characters
]

-- `strftime("%H:%M")`
pub clock_text : Time → String
clock_text t = String.◌∷◌ (digit_char (t.hour / 10)) (
    String.◌∷◌ (digit_char (t.hour % 10)) (
      String.◌∷◌ ":" (
        String.◌∷◌ (digit_char (t.minute / 10))
          (String.◌∷◌ (digit_char (t.minute % 10)) String.[]))))

pub clock_from_value : Value → Result Time
clock_from_value (str text) = parse_clock text
clock_from_value _ = err invalid_request

-- `except (TypeError, ValueError) as error: raise InvalidRequest`
abbrev pub invalid : Exception → Exception
invalid type_error = invalid_request
invalid value_error = invalid_request
invalid e = e

abbrev pub as_invalid_request {ℓ} : {A : Type ℓ} → Result A → Result A
as_invalid_request (ok a) = ok a
as_invalid_request (err e) = err (invalid e)

schedule_of : Value → Value → Value → Result IntrusionSchedule
unfolding clock_from_value
schedule_of (array days) start stop = as_invalid_request (do
  start' ← clock_from_value start
  stop' ← clock_from_value stop
  intrusion_schedule (elements days) start' stop')
schedule_of _ start stop = err invalid_request

pub schedule_from_value : Value → Result IntrusionSchedule
unfolding schedule_of
schedule_from_value (object members) =
    schedule_of (get_or_null members "days") (get_or_null members "start")
      (get_or_null members "end")
schedule_from_value _ = err invalid_request

-- `list(schedule.days)`
abbrev pub day_array : List ℕ → Values
day_array [] = nil
day_array (n ∷ ns) = cons (int (pos n)) (day_array ns)

unfoldable pub schedule_value : IntrusionSchedule → Value
unfolding clock_text
schedule_value s = object (
    member "days" (array (day_array s.days))
      (member "start" (str (clock_text s.start)) (member "end" (str (clock_text s.end)) end)))

unfoldable pub intrusion_value : Bool → IntrusionSchedule → Value
unfolding schedule_value
intrusion_value enabled s =
    object (member "enabled" (bool enabled) (member "schedule" (schedule_value s) end))

-- The dict of dicts of named values.
abbrev pub enum_values : String → Option Table
enum_values control =
    if str_eq control "night_vision"
    then some night_values
    else if str_eq control "flip"
    then some flip_values
    else if str_eq control "video_quality"
    then some video_quality_values
    else if str_eq control "motion"
    then some motion_values
    else none

abbrev pub validated_bool : Value → Result Value
validated_bool (bool b) = ok (bool b)
validated_bool _ = err invalid_request

abbrev pub validated_enum : Table → Value → Result Value
validated_enum table value = elim (chosen table value) [
  | none ↦ err invalid_request
  | some wire ↦ ok value
]

unfoldable pub intrusion_of : Value → Value → Result Value
unfolding schedule_from_value intrusion_value
intrusion_of (bool enabled) schedule = do
  s ← schedule_from_value schedule
  ok (intrusion_value enabled s)
intrusion_of _ schedule = err invalid_request

unfoldable pub validated_intrusion : Value → Result Value
unfolding intrusion_of
validated_intrusion (object members) =
    intrusion_of (get_or_null members "enabled") (get_or_null members "schedule")
validated_intrusion _ = err invalid_request

unfoldable pub validated_control_value : String → Value → Result Value
unfolding validated_intrusion
validated_control_value control value =
    if str_eq control "led" then validated_bool value else elim (enum_values control) [
      | some table ↦ validated_enum table value
      | none ↦ if str_eq control "intrusion" then validated_intrusion value else err invalid_request
    ]
