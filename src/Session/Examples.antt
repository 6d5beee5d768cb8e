-- ===== src/Session/Examples.antt =====
-- A camera that reports the image as turned by 180 degrees, and a session that reconnects.
use ino_a9_local_bridge.Base.{ℕ, ◌≡◌, refl, some, true, false}
use ino_a9_local_bridge.Base.Except.{ok}
use ino_a9_local_bridge.Crypto.Examples.{plain, copies}
use ino_a9_local_bridge.Camera.Rpc.Examples.{sealed_response, sealed_response_opens}
use ino_a9_local_bridge.Commands.{flip_values, flip_get_command, wire_value}
use ino_a9_local_bridge.Commands.Examples.{reported, reported-AreFields}
use ino_a9_local_bridge.Session.{Client, CameraSession, get, reverse_value}
use ino_a9_local_bridge.Session.Readback.{AreDistinct, reverse_value-wire_value, get-encode_message}

-- The client counts its calls.
abbrev client : Client ℕ
client = record {
  bootstrap_prefix = copies 4 65;
  send_control = λ command payload w. (1, ok sealed_response);
  send_command = λ command payload w. (1, ok tt);
}

abbrev online : CameraSession
online = record { started = true; connected = true }

abbrev reconnecting : CameraSession
reconnecting = record { started = true; connected = false }

flip-AreDistinct : AreDistinct flip_values
unfolding reverse_value
flip-AreDistinct = (refl, (refl, (refl, (refl, tt))))

four-rotate_180 : wire_value flip_values "rotate_180" ≡ some 4
unfolding wire_value
four-rotate_180 = refl

reverse_value-wire_value_example : reverse_value flip_values 4 ≡ some "rotate_180"
reverse_value-wire_value_example =
    reverse_value-wire_value flip_values "rotate_180" 4 flip-AreDistinct four-rotate_180

get-encode_message_example :
    get plain client online online flip_get_command flip_values 0 ≡ (1, ok "rotate_180")
get-encode_message_example =
    get-encode_message plain client online online flip_get_command flip_values 0 1 sealed_response
      reported "rotate_180" 4 refl refl refl sealed_response_opens reported-AreFields refl
      flip-AreDistinct four-rotate_180
