-- ===== src/Config/Valid.antt =====
-- What every accepted configuration promises.
use Prim.Native.String.{String}
use ino_a9_local_bridge.Base.{
  ℕ, ◌≤◌, ◌≡◌, refl, sym, ap, subst, ◌∙◌, List, [], ◌∷◌, Bool, true, false, not, arith, inl, inr,
}
use ino_a9_local_bridge.Base.Tests.{if◌then◌else◌, Option-cases}
use ino_a9_local_bridge.Base.Lists.{is_empty}
use ino_a9_local_bridge.Base.Except.{
  Result, ok, err, value_error, require, ◌>>◌, >>=-eq-ok, ok-injective,
}
use ino_a9_local_bridge.Value.{Value, Values, nil, cons, object, array, int, get_or_null}
use ino_a9_local_bridge.Base.Int.{pos}
use ino_a9_local_bridge.Config.{
  CameraSettings, BridgeSettings, safe_name, required_string, port, int_of, in_range, get_or, is_in,
  parse_camera, parse_cameras, some_values, members_or_raise, parse_config,
}

pub record IsPort (n : ℕ) : Type 0 where
  pub from_1 : 1 ≤ n
  pub to_65535 : n ≤ 65535

-- Safe names that differ from each other and from those given, and ports in their range.
abbrev pub AreCameras : List String → List CameraSettings → Type 0
AreCameras names [] = Unit
AreCameras names (camera ∷ cameras) =
    (safe_name camera.name ≡ true)
    × (is_in camera.name names ≡ false)
    × IsPort camera.port
    × AreCameras (camera.name ∷ names) cameras

port-IsPort : (v : Value) (n : ℕ) → port v ≡ ok n → IsPort n
unfolding port
port-IsPort v n e = elim (Option-cases (int_of v)) [
  | inl none_there ↦ cc
  | inr (m, f) ↦ go m (rw (f, port) at e)
]
  where
    go : (m : ℕ) → (if in_range 1 65535 m then ok m else err value_error) ≡ ok n → IsPort n
    go m e = record { from_1 = ground arith; to_65535 = ground arith }

require-eq-ok :
    {B : Type 0} (test : Bool) (rest : Result B) (b : B)
    → (require test value_error >> rest) ≡ ok b
    → (test ≡ true) × (rest ≡ ok b)
require-eq-ok true rest b e = (refl, e)
require-eq-ok false rest b e = cc

refuted : (b : Bool) → not b ≡ true → b ≡ false
refuted false e = refl
refuted true e = cc

-- A camera's part of the promise.
record IsCamera (names : List String) (camera : CameraSettings) : Type 0 where
  safe : safe_name camera.name ≡ true
  new : is_in camera.name names ≡ false
  port_valid : IsPort camera.port

parse_camera-IsCamera :
    (names : List String) (v : Value) (camera : CameraSettings)
    → parse_camera names v ≡ ok camera
    → IsCamera names camera
unfolding parse_camera
parse_camera-IsCamera names (object value) camera e =
    let (name, _, e1) = >>=-eq-ok (required_string value "name") _ e in
    let (safe, e2) = require-eq-ok (safe_name name) _ camera e1 in
    let (new, e3) = require-eq-ok (not (is_in name names)) _ camera e2 in
    let (_, _, e4) = >>=-eq-ok (required_string value "bootstrap_prefix") _ e3 in
    let (_, _, e5) = >>=-eq-ok (required_string value "user") _ e4 in
    let (_, _, e6) = >>=-eq-ok (required_string value "lan_password") _ e5 in
    let (_, _, e7) = >>=-eq-ok (required_string value "host") _ e6 in
    let (n, valid, e8) = >>=-eq-ok (port (get_or value "port" (int (pos 20190)))) _ e7 in
    let same = ok-injective e8 in
    record {
      safe = ap (λ c. safe_name c.name) (sym same) ∙ safe;
      new = ap (λ c. is_in c.name names) (sym same) ∙ refuted _ new;
      port_valid =
          subst IsPort (ap (λ c. c.port) same)
            (port-IsPort (get_or value "port" (int (pos 20190))) n valid);
    }
parse_camera-IsCamera names _ camera e = cc

parse_cameras-AreCameras :
    (names : List String) (vs : Values) (cameras : List CameraSettings)
    → parse_cameras names vs ≡ ok cameras
    → AreCameras names cameras
unfolding parse_cameras
parse_cameras-AreCameras names nil cameras e = subst (AreCameras names) (ok-injective e) tt
parse_cameras-AreCameras names (cons v vs) cameras e =
    let (camera, e1, rest) = >>=-eq-ok (parse_camera names v) _ e in
    let (others, e2, made) = >>=-eq-ok (parse_cameras (camera.name ∷ names) vs) _ rest in
    let h = parse_camera-IsCamera names v camera e1 in
    subst (AreCameras names) (ok-injective made)
      (h.safe, h.new, h.port_valid, parse_cameras-AreCameras (camera.name ∷ names) vs others e2)

parse_cameras_nonempty :
    (v : Value) (vs : Values) (names : List String) (cameras : List CameraSettings)
    → parse_cameras names (cons v vs) ≡ ok cameras
    → is_empty cameras ≡ false
unfolding parse_cameras
parse_cameras_nonempty v vs names cameras e =
    let (camera, _, rest) = >>=-eq-ok (parse_camera names v) _ e in
    let (others, _, made) = >>=-eq-ok (parse_cameras (camera.name ∷ names) vs) _ rest in
    ap is_empty (sym (ok-injective made))

some_values_nonempty :
    (v : Value) (vs : Values) (cameras : List CameraSettings)
    → some_values v ≡ ok vs
    → parse_cameras [] vs ≡ ok cameras
    → is_empty cameras ≡ false
some_values_nonempty (array (cons w ws)) vs cameras e parsed =
    parse_cameras_nonempty w ws [] cameras (ap (parse_cameras []) (ok-injective e) ∙ parsed)
some_values_nonempty _ vs cameras e parsed = cc

-- An accepted configuration names at least one camera; the names are safe and differ from each
-- other, and every port, the listener's too, is from 1 to 65535.
pub parse_config-AreCameras :
    (raw : Value) (settings : BridgeSettings)
    → parse_config raw ≡ ok settings
    → (is_empty settings.cameras ≡ false)
      × AreCameras [] settings.cameras
      × IsPort settings.listen_port
unfolding parse_config
parse_config-AreCameras raw settings e =
    let (members, _, e1) = >>=-eq-ok (members_or_raise raw) _ e in
    let (vs, some_there, e2) = >>=-eq-ok (some_values (get_or_null members "cameras")) _ e1 in
    let (cameras, parsed, e3) = >>=-eq-ok (parse_cameras [] vs) _ e2 in
    let (n, valid, e4) = >>=-eq-ok (port (get_or members "listen_port" (int (pos 8080)))) _ e3 in
    let same = ok-injective e4 in
    (
      ap (λ s. is_empty s.cameras) (sym same)
          ∙ some_values_nonempty (get_or_null members "cameras") vs cameras some_there parsed,
      subst (λ s. AreCameras [] s.cameras) same (parse_cameras-AreCameras [] vs cameras parsed),
      subst (λ s. IsPort s.listen_port) same
          (port-IsPort (get_or members "listen_port" (int (pos 8080))) n valid),
    )
