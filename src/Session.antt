-- ===== src/Session.antt =====
-- The controls of `CameraSession` in ino_a9_bridge/src/wificam_bridge/session.py.
pub mod Readback
pub mod Reader
pub mod Attempt
pub mod Examples
use Prim.Native.String.{String}
use ino_a9_local_bridge.Base.{ℕ, List, [], ◌∷◌, Option, none, some, Bool, true, false, ◌&&◌}
use ino_a9_local_bridge.Base.Tests.{◌==◌, if◌then◌else◌}
use ino_a9_local_bridge.Base.Except.{
  Result, ok, err, camera_error, camera_unavailable, require, ◌>>=◌, ◌>>◌,
}
use ino_a9_local_bridge.Crypto.{Primitives}
use ino_a9_local_bridge.Packet.{RpcPacket}
use ino_a9_local_bridge.Camera.Rpc.{decrypt_rpc_payload}
use ino_a9_local_bridge.Value.{Value}
use ino_a9_local_bridge.Controls.{IntrusionSchedule}
use ino_a9_local_bridge.Commands.{
  Table, night_values, flip_values, status_led_command, night_set_command, night_get_command,
  flip_set_command, flip_get_command, video_quality_command, intrusion_command, motion_command,
  reboot_command, build_led_payload, build_night_payload, build_flip_payload,
  build_video_quality_payload, build_motion_payload, build_intrusion_payload, read_response_value,
}

-- What a session asks of `CameraClient`: each call may change the client and may raise.
pub record Client (W : Type 0) : Type 0 where
  pub bootstrap_prefix : List ℕ
  pub send_control : ℕ → List ℕ → W → W × Result RpcPacket
  pub send_command : ℕ → List ℕ → W → W × Result (Unit {0})

-- The flags that the control methods read; the reader thread sets `connected`.
pub record CameraSession : Type 0 where
  pub started : Bool
  pub connected : Bool

pub require_connected : CameraSession → Result (Unit {0})
require_connected s = require (s.started && s.connected) camera_unavailable

-- The dict from numbers to names: of two items with one number the later counts.
unfoldable pub reverse_value : Table → ℕ → Option String
reverse_value [] wire = none
reverse_value ((name, w) ∷ table) wire =
    let later = reverse_value table wire in
    elim later [ some n ↦ some n | none ↦ if w == wire then some name else none ]

abbrev pub named : Option String → Result String
named none = err camera_error
named (some name) = ok name

-- `reverse[wire_value]`; no name has the value `None`.
abbrev pub name_of : Table → Option ℕ → Result String
name_of table none = err camera_error
name_of table (some wire) = named (reverse_value table wire)

-- A test before a call on the client.
abbrev pub guarded {ℓ} :
    {W : Type 0} {A : Type ℓ} → Result (Unit {0}) → W → (W × Result A) → W × Result A
guarded (ok _) w call = call
guarded (err e) w call = (w, err e)

module _ (c : Primitives) {W : Type 0} (client : Client W) where
  -- The session is tested before the control lock is waited for and again under it: the reader may
  -- have changed it in between.
  pub send : CameraSession → CameraSession → ℕ → List ℕ → W → W × Result RpcPacket
  unfolding require_connected
  send before locked command payload w =
      guarded (require_connected before) w
        (guarded (require_connected locked) w (client.send_control command payload w))

  -- `_get` behind the call of `_send`.
  pub read_name : Table → RpcPacket → Result String
  read_name table response = do
    payload ← decrypt_rpc_payload c response client.bootstrap_prefix
    wire ← read_response_value payload
    name_of table wire

  pub get : CameraSession → CameraSession → ℕ → Table → W → W × Result String
  unfolding send read_name
  get before locked command table w =
      let (w', response) = send before locked command [] w in (w', response >>= read_name table)

  pub get_night_vision : CameraSession → CameraSession → W → W × Result String
  unfolding get
  get_night_vision before locked w = get before locked night_get_command night_values w

  pub get_flip : CameraSession → CameraSession → W → W × Result String
  unfolding get
  get_flip before locked w = get before locked flip_get_command flip_values w

  -- A setter drops the response; a payload that cannot be built raises before anything is sent.
  pub send_payload : CameraSession → CameraSession → ℕ → Result (List ℕ) → W → W × Result (Unit {0})
  unfolding send
  send_payload before locked command (err e) w = (w, err e)
  send_payload before locked command (ok payload) w =
      let (w', response) = send before locked command payload w in (w', response >>= λ _. ok tt)

  module _ (before locked : CameraSession) where
    pub set_status_led : Bool → W → W × Result (Unit {0})
    unfolding send_payload
    set_status_led enabled =
        send_payload before locked status_led_command (ok (build_led_payload enabled))

    pub set_night_vision : Value → W → W × Result (Unit {0})
    unfolding send_payload
    set_night_vision value =
        send_payload before locked night_set_command (build_night_payload value)

    pub set_flip : Value → W → W × Result (Unit {0})
    unfolding send_payload
    set_flip value = send_payload before locked flip_set_command (build_flip_payload value)

    pub set_video_quality : Value → W → W × Result (Unit {0})
    unfolding send_payload
    set_video_quality value =
        send_payload before locked video_quality_command (build_video_quality_payload value)

    pub set_motion : Value → W → W × Result (Unit {0})
    unfolding send_payload
    set_motion value = send_payload before locked motion_command (build_motion_payload value)

    pub set_intrusion : Bool → IntrusionSchedule → W → W × Result (Unit {0})
    unfolding send_payload
    set_intrusion enabled schedule =
        send_payload before locked intrusion_command (ok (build_intrusion_payload enabled schedule))

  -- The one test stands before the lock.
  pub reboot : CameraSession → W → W × Result (Unit {0})
  unfolding require_connected
  reboot before w = guarded (require_connected before) w (client.send_command reboot_command [] w)
