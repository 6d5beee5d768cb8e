-- ===== src/Integration/Entity.antt =====
-- What the entities of custom_components/ino_a9 read from a camera's document, and the payloads they
-- send: entity.py, select.py and switch.py.
use Prim.Native.String.{String}
use text.Mathlib.Text.{◌==◌ as str_eq}
use ino_a9_local_bridge.Base.{
  ℕ, ◌≡◌, List, [], ◌∷◌, Option, none, some, Bool, true, false, not, ◌&&◌, ◌||◌,
}
use ino_a9_local_bridge.Base.Tests.{if◌then◌else◌}
use ino_a9_local_bridge.Base.Lists.{is_empty}
use ino_a9_local_bridge.Base.Dict.{Dict, lookup, string_key}
use ino_a9_local_bridge.Base.Except.{Result, ok, err, home_assistant_error, require, ◌>>=◌, ◌>>◌}
use ino_a9_local_bridge.Value.{
  Value, Values, Members, null, bool, str, array, object, end, member, get_or_null, elements,
}
use ino_a9_local_bridge.Config.{is_in}
use ino_a9_local_bridge.Controls.{Time, minute_precision, after, day_numbers, sorted_set, list_eq}
use ino_a9_local_bridge.ControlApi.Store.{members_of}
use ino_a9_local_bridge.ControlApi.Values.{clock_text, day_array}
use ino_a9_local_bridge.ControlApi.Values.Idempotent.{IsClock}

-- What the code uses of `datetime.time`: `fromisoformat`, which may raise `ValueError`, and `>`, which
-- raises `TypeError` on times of which one has a time zone.
pub record TimeLibrary : Type 0 where
  pub fromisoformat : String → Option Time
  pub greater : Time → Time → Result Bool
  pub fromisoformat-clock_text : (t : Time) → IsClock t → fromisoformat (clock_text t) ≡ some t
  pub greater_exact :
      (a b : Time)
      → minute_precision a ≡ true
      → minute_precision b ≡ true
      → greater a b ≡ ok (after a b)

-- `coordinator.data`
abbrev pub Documents : Type 0
Documents = Dict String Members

-- `camera_data`
abbrev pub camera_data : Documents → String → Members
camera_data documents camera_id = elim (lookup camera_id documents) [
  | none ↦ end
  | some document ↦ document
]

abbrev is_true : Value → Bool
is_true (bool b) = b
is_true _ = false

-- `available`
pub available : Bool → Documents → String → Bool
available last_update_success documents camera_id =
    last_update_success && is_true (get_or_null (camera_data documents camera_id) "connected")

abbrev pub unknown_state : Members
unknown_state =
    member "value" null (member "known" (bool false) (member "source" (str "unknown") end))

abbrev pub mapping_or_unknown : Value → Members
mapping_or_unknown (object state) = state
mapping_or_unknown _ = unknown_state

abbrev pub state_in : Members → String → Members
state_in document control =
    mapping_or_unknown (get_or_null (members_of (get_or_null document "controls")) control)

-- `_control_state`
unfoldable pub control_state : Documents → String → String → Members
control_state documents camera_id control = state_in (camera_data documents camera_id) control

-- The value of a state that is known.
abbrev pub known_value : Members → Value
known_value state = if is_true (get_or_null state "known") then get_or_null state "value" else null

abbrev option_in : List String → Value → Option String
option_in options (str name) = if is_in name options then some name else none
option_in options _ = none

-- `current_option` of a select
unfoldable pub current_option : List String → Members → Option String
current_option options state = option_in options (known_value state)

abbrev as_bool : Value → Option Bool
as_bool (bool b) = some b
as_bool _ = none

-- The switch of the intrusion detection looks into the value.
abbrev switch_value : Bool → Value → Value
switch_value true (object members) = get_or_null members "enabled"
switch_value _ value = value

-- `is_on` of a switch
unfoldable pub is_on : String → Members → Option Bool
is_on control state = as_bool (switch_value (str_eq control "intrusion") (known_value state))

abbrev invalid_schedule : {A : Type 0} → Result A
invalid_schedule = err home_assistant_error

abbrev pub days_checked : Values → Option (List ℕ) → Result Values
days_checked days none = invalid_schedule
days_checked days (some numbers) =
    if is_empty numbers || not (list_eq numbers (sorted_set numbers))
    then invalid_schedule
    else ok days

abbrev pub days_of : Value → Result Values
days_of (array days) = days_checked days (day_numbers (elements days))
days_of _ = invalid_schedule

abbrev text_of : Value → Result String
text_of (str text) = ok text
text_of _ = invalid_schedule

abbrev pub parsed : Option Time → Result Time
parsed none = invalid_schedule
parsed (some t) = ok t

abbrev default_schedule : Value
default_schedule = object (
    member "days" (array (day_array (0 ∷ 1 ∷ 2 ∷ 3 ∷ 4 ∷ 5 ∷ 6 ∷ [])))
      (member "start" (str "00:00") (member "end" (str "23:59") end)))

module _ (lib : TimeLibrary) where
  abbrev pub time_of : String → Result Time
  time_of text = parsed (lib.fromisoformat text)

  -- `_validated_schedule`
  unfoldable pub validated_schedule : Value → Result Value
  validated_schedule (object value) = do
    days ← days_of (get_or_null value "days")
    start ← text_of (get_or_null value "start")
    stop ← text_of (get_or_null value "end")
    start_time ← time_of start
    end_time ← time_of stop
    late ← lib.greater start_time end_time
    require (not late) home_assistant_error
    ok (
        object
          (member "days" (array days) (member "start" (str start) (member "end" (str stop) end))))
  validated_schedule _ = invalid_schedule

  -- The schedule that is known, or every day where the detection is only switched off.
  abbrev known_schedule : Value → Bool → Result Value
  known_schedule null enabled = if enabled then err home_assistant_error else ok default_schedule
  known_schedule schedule enabled = ok schedule

  -- `intrusion_payload`
  unfoldable pub intrusion_payload : Members → Bool → Result Members
  unfolding validated_schedule
  intrusion_payload state enabled = do
    schedule ← known_schedule (get_or_null (members_of (known_value state)) "schedule") enabled
    validated ← validated_schedule schedule
    ok (member "enabled" (bool enabled) (member "schedule" validated end))
