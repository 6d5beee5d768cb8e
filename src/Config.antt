-- ===== src/Config.antt =====
-- `parse_config` of ino_a9_bridge/src/wificam_bridge/bridge.py.
pub mod Valid
pub mod Examples
use Prim.Native.Char.{code}
use Prim.Native.String.{String}
use text.Mathlib.Text.{◌==◌ as str_eq}
use ino_a9_local_bridge.Base.{
  ℕ, List, [], ◌∷◌, Option, none, some, Bool, true, false, not, ◌&&◌, ◌||◌,
}
use ino_a9_local_bridge.Base.Tests.{leb, ◌==◌, if◌then◌else◌}
use ino_a9_local_bridge.Base.Int.{ℤ, pos}
use ino_a9_local_bridge.Base.Except.{Result, ok, err, value_error, require, ◌>>=◌, ◌>>◌}
use ino_a9_local_bridge.Value.{
  Value, Members, Values, nil, cons, object, array, str, int, bool, get, get_or_null,
}

pub record CameraCredentials : Type 0 where
  pub bootstrap_prefix : String
  pub user : String
  pub lan_password : String

pub record CameraSettings : Type 0 where
  pub name : String
  pub host : String
  pub port : ℕ
  pub credentials : CameraCredentials

-- The host is `str` of the value.
pub record BridgeSettings : Type 0 where
  pub listen_host : Value
  pub listen_port : ℕ
  pub cameras : List CameraSettings

abbrev pub in_range : ℕ → ℕ → ℕ → Bool
in_range low high n = leb low n && leb n high

-- `[A-Za-z0-9_-]`
abbrev pub is_safe : ℕ → Bool
is_safe n = in_range 65 90 n || in_range 97 122 n || in_range 48 57 n || n == 95 || n == 45

abbrev pub all_safe : String → Bool
all_safe String.[] = true
all_safe (String.◌∷◌ c rest) = is_safe (code c) && all_safe rest

-- `SAFE_NAME.fullmatch`
abbrev pub safe_name : String → Bool
safe_name name = not (str_eq name "") && all_safe name

abbrev pub non_empty : Value → Result String
non_empty (str text) = if str_eq text "" then err value_error else ok text
non_empty _ = err value_error

-- `_required_string`
pub required_string : Members → String → Result String
required_string members key = non_empty (get_or_null members key)

-- The `int` of a value; a `bool` is one.
abbrev pub int_of : Value → Option ℕ
int_of (int (pos n)) = some n
int_of (bool true) = some 1
int_of (bool false) = some 0
int_of _ = none

-- `_port`
pub port : Value → Result ℕ
port value = elim (int_of value) [
  | none ↦ err value_error
  | some n ↦ if in_range 1 65535 n then ok n else err value_error
]

-- `value.get(key, default)`
abbrev pub get_or : Members → String → Value → Value
get_or members key default = elim (get members key) [ none ↦ default | some v ↦ v ]

abbrev pub is_in : String → List String → Bool
is_in name [] = false
is_in name (n ∷ names) = str_eq n name || is_in name names

-- The body of the loop, on a member of the list.
pub parse_camera : List String → Value → Result CameraSettings
unfolding required_string port
parse_camera names (object value) = do
  name ← required_string value "name"
  require (safe_name name) value_error
  require (not (is_in name names)) value_error
  bootstrap_prefix ← required_string value "bootstrap_prefix"
  user ← required_string value "user"
  lan_password ← required_string value "lan_password"
  host ← required_string value "host"
  camera_port ← port (get_or value "port" (int (pos 20190)))
  ok (record {
    name = name;
    host = host;
    port = camera_port;
    credentials = record {
      bootstrap_prefix = bootstrap_prefix;
      user = user;
      lan_password = lan_password;
    };
  })
parse_camera names _ = err value_error

-- `names` are those of the cameras before.
pub parse_cameras : List String → Values → Result (List CameraSettings)
unfolding parse_camera
parse_cameras names nil = ok []
parse_cameras names (cons value values) = do
  camera ← parse_camera names value
  cameras ← parse_cameras (camera.name ∷ names) values
  ok (camera ∷ cameras)

-- A list that is not empty.
abbrev pub some_values : Value → Result Values
some_values (array (cons v vs)) = ok (cons v vs)
some_values _ = err value_error

abbrev pub members_or_raise : Value → Result Members
members_or_raise (object members) = ok members
members_or_raise _ = err value_error

unfoldable pub parse_config : Value → Result BridgeSettings
unfolding parse_cameras port
parse_config raw = do
  members ← members_or_raise raw
  camera_values ← some_values (get_or_null members "cameras")
  cameras ← parse_cameras [] camera_values
  listen_port ← port (get_or members "listen_port" (int (pos 8080)))
  ok (record {
    listen_host = get_or members "listen_host" (str "127.0.0.1");
    listen_port = listen_port;
    cameras = cameras;
  })
