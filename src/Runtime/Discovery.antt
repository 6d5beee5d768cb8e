-- ===== src/Runtime/Discovery.antt =====
-- `register_discovery` and `main` of app_runtime.py: the message that tells Home Assistant where the
-- bridge is and which token it takes.
pub mod Token
use Prim.Native.Char.{code}
use Prim.Native.String.{String, ◌++◌ as ◌+++◌}
use text.Mathlib.Text.{◌==◌ as str_eq}
use ino_a9_local_bridge.Base.{ℕ, Option, none, some, Bool, true, false, ◌&&◌}
use ino_a9_local_bridge.Base.Tests.{◌==◌, if◌then◌else◌}
use ino_a9_local_bridge.Base.Int.{pos}
use ino_a9_local_bridge.Base.Except.{Result, ok, err, value_error, os_error, ◌>>=◌}
use ino_a9_local_bridge.Value.{Value, Members, object, str, int, end, member, get_or_null}
use ino_a9_local_bridge.Config.{members_or_raise}
use ino_a9_local_bridge.Runtime.{RuntimeFiles, strip, prepare_runtime}

-- A request to the Supervisor; without a payload it is a `GET`.
pub record Request : Type 0 where
  pub url : String
  pub payload : Option Value
  pub authorization : Option String

-- `urlopen`, with the decoded body of the answer.
abbrev pub Supervisor : Type 0 → Type 0
Supervisor W = Request → W → W × Result Value

-- `text.rstrip("/")`
abbrev pub without_slashes : String → String
without_slashes String.[] = String.[]
without_slashes (String.◌∷◌ c rest) =
    let stripped = without_slashes rest in
    if code c == 47 && str_eq stripped "" then String.[] else String.◌∷◌ c stripped

-- `text.replace("_", "-")`
abbrev pub dashed : String → String
dashed String.[] = String.[]
dashed (String.◌∷◌ c rest) = String.◌∷◌ (if code c == 95 then "-" else c) (dashed rest)

-- The header of a token that is set and not empty.
abbrev pub supervisor_header : Option String → Option String
supervisor_header none = none
supervisor_header (some token) = if str_eq token "" then none else some ("Bearer " +++ token)

-- `hostname`
abbrev pub host_of : Value → Result String
host_of (str hostname) = ok hostname
host_of _ = err value_error

abbrev pub hostname_of : Members → Result String
hostname_of info = do
  data_members ← members_or_raise (get_or_null info "data")
  host_of (get_or_null data_members "hostname")

-- `control_token.read_text().strip()`
abbrev pub read_token : Option String → Result String
read_token none = err os_error
read_token (some text) = ok (strip text)

-- What is read between the two requests.
abbrev pub hostname_and_token : Result Members → Option String → Result (String × String)
hostname_and_token info token_file = do
  members ← info
  hostname ← hostname_of members
  token ← read_token token_file
  ok (hostname, token)

-- What Home Assistant gets as the configuration,
abbrev pub discovery_config : String → String → Members
discovery_config host token = member "host" (str host) (
    member "http_port" (int (pos 8080))
      (member "rtsp_port" (int (pos 8554)) (member "token" (str token) end)))

-- and the message around it.
abbrev pub discovery_message : String → String → Value
discovery_message host token =
    object
      (member "service" (str "ino_a9") (member "config" (object (discovery_config host token)) end))

module _ {W : Type 0} (supervisor : Supervisor W) (supervisor_token : Option String) where
  -- `_request_json`
  pub request_json : String → Option Value → W → W × Result Members
  request_json url payload w =
      let (w', answer) =
        supervisor
          (record {
            url = url;
            payload = payload;
            authorization = supervisor_header supervisor_token;
          })
          w in
      (w', answer >>= members_or_raise)

  -- What follows the first request: nothing is sent where the host or the token is missing.
  announce : String → Result (String × String) → W → W × Result (Unit {0})
  unfolding request_json
  announce base_url (err e) w = (w, err e)
  announce base_url (ok (hostname, token)) w =
      let (w', answer) =
        request_json (base_url +++ "/discovery") (some (discovery_message (dashed hostname) token))
          w in
      (w', answer >>= λ _. ok tt)

  -- `register_discovery`
  unfoldable pub register_discovery : RuntimeFiles → String → W → W × Result (Unit {0})
  unfolding announce request_json
  register_discovery files supervisor_url w =
      let base_url = without_slashes supervisor_url in
      let (w', info) = request_json (base_url +++ "/addons/self/info") none w in
      announce base_url (hostname_and_token info files.control_token) w'

  -- `main`, behind its arguments: a discovery that fails leaves the start as it is.
  pub main : String → Value → RuntimeFiles → String → W → W × (RuntimeFiles × Result (Unit {0}))
  unfolding register_discovery
  main fresh raw files supervisor_url w =
      let (files', prepared) = prepare_runtime fresh raw files in
      elim prepared [
        | err e ↦ (w, (files', err e))
        | ok _ ↦
            let (w', registered) = register_discovery files' supervisor_url w in
            (w', (files', ok tt))
      ]
