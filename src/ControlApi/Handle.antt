-- ===== src/ControlApi/Handle.antt =====
-- `ControlAPI` of ino_a9_bridge/src/wificam_bridge/control_api.py: routing, authorization and the
-- camera's controls, over cameras that the API only knows by their methods.
pub mod Routes
pub mod Sent
pub mod Bearer
pub mod Guarded
use Prim.Native.String.{String}
use text.Mathlib.Text.{◌==◌ as str_eq}
use ino_a9_local_bridge.Base.{List, [], ◌∷◌, Option, none, some, Bool, true, false, ◌&&◌}
use ino_a9_local_bridge.Base.Tests.{if◌then◌else◌}
use ino_a9_local_bridge.Base.Dict.{lookup, string_key}
use ino_a9_local_bridge.Base.Except.{
  Result, ok, err, Exception, invalid_request, lookup_error, timeout_error, camera_error,
  camera_unavailable, ◌>>=◌,
}
use ino_a9_local_bridge.Value.{Value, Members, null, bool, str, object, end, member, get_or_null}
use ino_a9_local_bridge.Controls.{IntrusionSchedule}
use ino_a9_local_bridge.Commands.{Table, chosen}
use ino_a9_local_bridge.ControlApi.Values.{enum_values, schedule_from_value, intrusion_value}
use ino_a9_local_bridge.ControlApi.Store.{
  ControlStateStore, Controls, persisted_controls, values, set,
}

-- The camera methods that take a name.
pub data Choice : Type 0 where
  night_vision flip video_quality motion : Choice

-- What the API reads of `status()`: `connected`, whether `error` is not `None`, and all but
-- `connected`.
pub record CameraStatus : Type 0 where
  pub connected : Bool
  pub has_error : Bool
  pub media : Members

-- A camera, whose methods may change the world `W` and may raise.
pub record Camera (W : Type 0) : Type 0 where
  pub status : W → CameraStatus
  pub set_status_led : Bool → W → W × Result (Unit {0})
  pub choose : Choice → String → W → W × Result (Unit {0})
  pub set_intrusion : Bool → IntrusionSchedule → W → W × Result (Unit {0})
  pub get_night_vision : W → W × Result String
  pub get_flip : W → W × Result String
  pub reboot : W → W × Result (Unit {0})

pub record Api (W : Type 0) : Type 0 where
  pub world : W
  pub store : ControlStateStore

-- `_boolean`
abbrev pub boolean : Members → Result Bool
boolean body = elim (get_or_null body "value") [ bool b ↦ ok b | _ ↦ err invalid_request ]

abbrev pub enabled_of : Members → Result Bool
enabled_of body = elim (get_or_null body "enabled") [ bool b ↦ ok b | _ ↦ err invalid_request ]

abbrev pub text_of : Value → Result String
text_of (str name) = ok name
text_of _ = err invalid_request

-- `_enum`
abbrev pub enum : Table → Value → Result String
enum table value = elim (chosen table value) [
  | none ↦ err invalid_request
  | some wire ↦ text_of value
]

-- What a `PUT` asks for.
pub data Request : Type 0 where
  led : Bool → Request
  choice : Choice → String → Request
  intrusion : Bool → IntrusionSchedule → Request

abbrev pub choice_of : String → Option Choice
choice_of control =
    if str_eq control "night_vision"
    then some night_vision
    else if str_eq control "flip"
    then some flip
    else if str_eq control "video_quality"
    then some video_quality
    else if str_eq control "motion"
    then some motion
    else none

abbrev pub choice_request : Option Choice → Option Table → Members → Result Request
choice_request (some kind) (some table) body = do
  name ← enum table (get_or_null body "value")
  ok (choice kind name)
choice_request _ _ body = err lookup_error

abbrev pub intrusion_request : Members → Result Request
intrusion_request body = do
  enabled ← enabled_of body
  schedule ← schedule_from_value (get_or_null body "schedule")
  ok (intrusion enabled schedule)

-- The tests of `_update_control`, up to the call of the camera.
unfoldable pub request : String → Members → Result Request
request control body =
    if str_eq control "led"
    then (do value ← boolean body; ok (led value))
    else if str_eq control "intrusion"
    then intrusion_request body
    else choice_request (choice_of control) (enum_values control) body

-- What is stored of it.
unfoldable pub stored_value : Request → Value
stored_value (led value) = bool value
stored_value (choice kind name) = str name
stored_value (intrusion enabled schedule) = intrusion_value enabled schedule

-- `_known`
abbrev pub known : Value → String → Value
known value source =
    object (member "value" value (member "known" (bool true) (member "source" (str source) end)))

module _ {W : Type 0} where
  unfoldable pub call : Camera W → Request → W → W × Result (Unit {0})
  call camera (led value) = camera.set_status_led value
  call camera (choice kind name) = camera.choose kind name
  call camera (intrusion enabled schedule) = camera.set_intrusion enabled schedule

  -- `self.state.set(...)` and the result, behind the camera's answer.
  unfoldable pub remember :
      String → String → Value → Result (Unit {0}) → Api W → Api W × Result Value
  remember camera_id control value (err e) s = (s, err e)
  remember camera_id control value (ok _) s =
      let (store, written) = set s.store camera_id control value in
      (
        record s { store = store },
        written >>= λ _. ok (
            object (
              member "id" (str camera_id)
                (member "controls" (object (member control (known value "persisted") end)) end))),
      )

  -- `_update_control`
  unfoldable pub update_control :
      String → Camera W → String → Members → Api W → Api W × Result Value
  unfolding remember call
  update_control camera_id camera control body s = elim (request control body) [
    | err e ↦ (s, err e)
    | ok r ↦
        let (world, answer) = call camera r s.world in
        remember camera_id control (stored_value r) answer (record s { world = world })
  ]
