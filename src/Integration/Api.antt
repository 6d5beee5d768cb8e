-- ===== src/Integration/Api.antt =====
-- `InoA9Api` of custom_components/ino_a9/api.py.
use Prim.Native.Char.{Char, code}
use Prim.Native.String.{String, ◌++◌ as ◌+++◌}
use text.Mathlib.Text.{◌==◌ as str_eq, starts_with}
use ino_a9_local_bridge.Base.{
  ℕ, zero, suc, ◌/◌, ◌%◌, List, [], ◌∷◌, Option, none, some, Bool, false, not, ◌&&◌, ◌||◌,
}
use ino_a9_local_bridge.Base.Tests.{ltb, leb, ◌==◌, if◌then◌else◌}
use ino_a9_local_bridge.Base.Int.{ℤ, pos}
use ino_a9_local_bridge.Base.Except.{Result, ok, err, value_error, api_error, require, ◌>>=◌, ◌>>◌}
use ino_a9_local_bridge.Value.{Value, Values, Members, object, array, nil, cons, str, get_or_null}
use ino_a9_local_bridge.Config.{in_range}

-- `InoA9Api`, but for its session.
pub record InoA9Api : Type 0 where
  pub host : String
  pub http_port : ℕ
  pub rtsp_port : ℕ
  pub token : String

abbrev pub port_of : ℤ → Result ℕ
port_of (pos n) = if in_range 1 65535 n then ok n else err value_error
port_of _ = err value_error

-- `__init__`, with arguments of their types
unfoldable pub ino_a9_api : String → ℤ → ℤ → String → Result InoA9Api
ino_a9_api host http_port rtsp_port token = do
  require (not (str_eq host "")) value_error
  http ← port_of http_port
  rtsp ← port_of rtsp_port
  require (not (str_eq token "")) value_error
  ok (record { host = host; http_port = http; rtsp_port = rtsp; token = token })

abbrev pub has_char : ℕ → String → Bool
has_char n String.[] = false
has_char n (String.◌∷◌ c text) = code c == n || has_char n text

abbrev digit_from : ℕ → List Char → Char
digit_from n [] = "9"
digit_from zero (c ∷ digits) = c
digit_from (suc n) (c ∷ digits) = digit_from n digits

abbrev digit : ℕ → Char
digit n = digit_from n ("0" ∷ "1" ∷ "2" ∷ "3" ∷ "4" ∷ "5" ∷ "6" ∷ "7" ∷ "8" ∷ [])

abbrev number_loop : ℕ → ℕ → String → String
number_loop zero n text = text
number_loop (suc fuel) n text =
    let longer = String.◌∷◌ (digit (n % 10)) text in
    let rest = number_loop fuel (n / 10) longer in if ltb n 10 then longer else rest

-- `str(n)` of a port, which has five digits at most
abbrev number : ℕ → String
number n = number_loop 5 n ""

-- A host with a colon stands in brackets.
abbrev bracketed : String → String
bracketed host =
    if has_char 58 host && not (starts_with host "[") then ("[" +++ host) +++ "]" else host

-- `base_url`
abbrev pub base_url : InoA9Api → String
base_url api = (("http://" +++ bracketed api.host) +++ ":") +++ number api.http_port

-- `rtsp_url`
abbrev pub rtsp_url : InoA9Api → String → String
rtsp_url api camera_id =
    ((("rtsp://" +++ bracketed api.host) +++ ":") +++ number api.rtsp_port)
    +++ ("/ino_a9_" +++ camera_id)

-- `_path_part`
abbrev pub path_part : String → Result String
path_part value =
    if str_eq value "" || has_char 47 value || has_char 63 value || has_char 35 value
    then err value_error
    else ok value

pub record ApiRequest : Type 0 where
  pub method : String
  pub url : String
  pub authorization : String
  pub json_payload : Option Value

-- An answer; its JSON is none where the body is no JSON.
pub record ApiAnswer : Type 0 where
  pub status : ℕ
  pub json : Option Value
  pub content : List ℕ

-- `session.request`: none is one of the exceptions that the client catches.
abbrev pub Transport : Type 0 → Type 0
Transport W = ApiRequest → W → W × Option ApiAnswer

abbrev pub checked : Option ApiAnswer → Result ApiAnswer
checked none = err (api_error 503)
checked (some answer) = if leb 400 answer.status then err (api_error answer.status) else ok answer

abbrev pub json_object : Option Value → Result Members
json_object (some (object members)) = ok members
json_object _ = err (api_error 502)

abbrev pub decoded : Result ApiAnswer → Result Members
decoded r = r >>= λ answer. json_object answer.json

abbrev objects : Values → Result (List Members)
objects nil = ok []
objects (cons (object members) values) = do rest ← objects values; ok (members ∷ rest)
objects (cons _ values) = err (api_error 502)

abbrev camera_objects : Value → Result (List Members)
camera_objects (array values) = objects values
camera_objects _ = err (api_error 502)

abbrev pub is_id : String → Value → Bool
is_id camera_id (str id) = str_eq id camera_id
is_id camera_id _ = false

abbrev pub api_path : String
api_path = "/api/v1/cameras"

-- The paths of a camera and of a control.
abbrev pub camera_path : String → Result String
camera_path camera_id = do part ← path_part camera_id; ok ((api_path +++ "/") +++ part)

abbrev pub path_of_control : String → String → Result String
path_of_control camera_id control = do
  path ← camera_path camera_id
  part ← path_part control
  ok ((path +++ "/controls/") +++ part)

module _ {W : Type 0} (transport : Transport W) (api : InoA9Api) where
  -- `_request`
  unfoldable pub request : String → String → Option Value → W → W × Result ApiAnswer
  request method path json_payload w =
      let (w', answer) =
        transport
          (record {
            method = method;
            url = base_url api +++ path;
            authorization = "Bearer " +++ api.token;
            json_payload = json_payload;
          })
          w in
      (w', checked answer)

  -- `_request_json`
  unfoldable pub request_json : String → String → Option Value → W → W × Result Members
  unfolding request
  request_json method path json_payload w =
      let (w', answer) = request method path json_payload w in (w', decoded answer)

  -- A path is made before the request.
  unfoldable pub request_at : String → Result String → Option Value → W → W × Result Members
  unfolding request_json
  request_at method (err e) json_payload w = (w, err e)
  request_at method (ok path) json_payload w = request_json method path json_payload w

  unfoldable pub async_list_cameras : W → W × Result (List Members)
  unfolding request_json
  async_list_cameras w =
      let (w', answer) = request_json "GET" api_path none w in
      (w', answer >>= λ payload. camera_objects (get_or_null payload "cameras"))

  unfoldable pub async_get_camera : String → W → W × Result Members
  unfolding request_at
  async_get_camera camera_id w =
      let (w', answer) = request_at "GET" (camera_path camera_id) none w in
      (
        w',
        answer >>= λ payload.
            if is_id camera_id (get_or_null payload "id") then ok payload else err (api_error 502),
      )

  unfoldable pub async_set_control : String → String → Members → W → W × Result Members
  unfolding request_at
  async_set_control camera_id control payload w =
      request_at "PUT" (path_of_control camera_id control) (some (object payload)) w

  pub async_reboot : String → W → W × Result Members
  unfolding request_at
  async_reboot camera_id w =
      request_at "POST" (do path ← camera_path camera_id; ok (path +++ "/reboot")) none w

  -- `_request_bytes`
  request_bytes_at : String → Result String → W → W × Result (List ℕ)
  unfolding request
  request_bytes_at method (err e) w = (w, err e)
  request_bytes_at method (ok path) w =
      let (w', answer) = request method path none w in (w', answer >>= λ a. ok a.content)

  pub async_get_snapshot : String → W → W × Result (List ℕ)
  unfolding request_bytes_at
  async_get_snapshot camera_id w =
      request_bytes_at "GET"
        (do part ← path_part camera_id; ok (("/" +++ part) +++ "/snapshot.jpg")) w
