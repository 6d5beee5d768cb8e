-- ===== src/Session/Readback.antt =====
-- What a camera reports of a control comes out as the control's name.
use Prim.Native.String.{String}
use text.Mathlib.Text.{◌==◌ as str_eq}
use text.Mathlib.TextEquality.{eq_iff}
use ino_a9_local_bridge.Base.{
  ℕ, ◌≡◌, ◌⊎◌, refl, List, [], ◌∷◌, none, some, true, false, ◌&&◌, arith, inl, inr,
}
use ino_a9_local_bridge.Base.Tests.{Bool-cases}
use ino_a9_local_bridge.Base.Except.{ok, err, camera_unavailable}
use ino_a9_local_bridge.Crypto.{Primitives}
use ino_a9_local_bridge.Packet.{RpcPacket}
use ino_a9_local_bridge.Camera.Rpc.{decrypt_rpc_payload}
use ino_a9_local_bridge.Commands.{Table, wire_value}
use ino_a9_local_bridge.Commands.Response.{
  Field, AreFields, encode_message, response_of, read_response_value-encode_message,
}
use ino_a9_local_bridge.Session.{
  Client, CameraSession, require_connected, reverse_value, send, get, read_name,
}

-- No number has two names.
abbrev pub AreDistinct : Table → Type 0
AreDistinct [] = Unit
AreDistinct ((name, wire) ∷ table) = (reverse_value table wire ≡ none) × AreDistinct table

-- In a table without a number for two names, each name is found again from its number.
pub reverse_value-wire_value :
    (table : Table) (name : String) (wire : ℕ)
    → AreDistinct table
    → wire_value table name ≡ some wire
    → reverse_value table wire ≡ some name
unfolding reverse_value wire_value
reverse_value-wire_value [] name wire d e = cc
reverse_value-wire_value ((n, w) ∷ table) name wire (d, ds) e = elim (Bool-cases (str_eq n name)) [
  | inl same ↦ let n≡ : n ≡ name = (eq_iff n name).0 same in ground (arith, e, same, d, n≡)
  | inr different ↦
      let later = reverse_value-wire_value table name wire ds (rw different at e) in rw later refl
]

module _ (c : Primitives) {W : Type 0} (client : Client W) (before locked : CameraSession) where
  -- Unless the session is started and connected at both tests, a control raises
  -- `CameraUnavailable` and nothing reaches the client.
  pub send_unavailable :
      (command : ℕ) (payload : List ℕ) (w : W)
      → ((before.started && before.connected) ≡ false)
        ⊎ ((locked.started && locked.connected) ≡ false)
      → send c client before locked command payload w ≡ (w, err camera_unavailable)
  unfolding send require_connected
  send_unavailable command payload w (inl h) = rw h refl
  send_unavailable command payload w (inr h) = ground arith

  -- On a session that is connected at both tests, for a table without a number for two names: where
  -- the response decrypts to protobuf fields that report the number of a name, the control is read
  -- back as that name.
  pub get-encode_message :
      (command : ℕ) (table : Table) (w w' : W) (response : RpcPacket) (fs : List Field)
      (name : String) (wire : ℕ)
      → (before.started && before.connected) ≡ true
      → (locked.started && locked.connected) ≡ true
      → client.send_control command [] w ≡ (w', ok response)
      → decrypt_rpc_payload c response client.bootstrap_prefix ≡ ok (encode_message fs)
      → AreFields fs
      → response_of fs ≡ some wire
      → AreDistinct table
      → wire_value table name ≡ some wire
      → get c client before locked command table w ≡ (w', ok name)
  unfolding get send require_connected read_name
  get-encode_message command table w w' response fs name wire hb hl sent plain fit value distinct
        there =
      rw
        (
          hb,
          hl,
          sent,
          plain,
          read_response_value-encode_message fs fit,
          value,
          reverse_value-wire_value table name wire distinct there,
        )
        refl
