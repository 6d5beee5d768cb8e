-- ===== src/Bridge.antt =====
-- Which handler of `BridgeHandler` in ino_a9_bridge/src/wificam_bridge/bridge.py answers a request, and
-- what the control API's answer becomes.
use Prim.Native.String.{String}
use text.Mathlib.Text.{◌==◌ as str_eq, starts_with}
use ino_a9_local_bridge.Base.{ℕ, List, [], ◌∷◌, Option, none, some, Bool, true, ◌&&◌, ◌||◌}
use ino_a9_local_bridge.Base.Tests.{if◌then◌else◌}
use ino_a9_local_bridge.Base.Dict.{Dict}
use ino_a9_local_bridge.Base.Except.{Result, ok, err}
use ino_a9_local_bridge.Value.{Value}
use ino_a9_local_bridge.Config.{is_in}
use ino_a9_local_bridge.ControlApi.Handle.{Camera, Api}
use ino_a9_local_bridge.ControlApi.Handle.Routes.{
  HttpStatus, ok_200, bad_request, unauthorized, not_found, bad_gateway, service_unavailable,
  gateway_timeout, ApiResponse, HttpRequest, split_path, non_empty, handle,
}

-- The handlers; those of a camera's media have its name.
pub data Route : Type 0 where
  control_api health missing : Route
  snapshot stream preview audio : String → Route

abbrev pub media_route : String → String → Route
media_route name file =
    if str_eq file "snapshot.jpg"
    then snapshot name
    else if str_eq file "stream.mjpeg"
    then stream name
    else if str_eq file "preview.mjpeg"
    then preview name
    else if str_eq file "audio.alaw"
    then audio name
    else missing

abbrev pub media_of : List String → List String → Route
media_of names (name ∷ (file ∷ [])) = if is_in name names then media_route name file else missing
media_of names _ = missing

-- `do_GET`, on the path of the request; the first argument says whether there is a control API.
unfoldable pub get_route : Bool → List String → String → Route
get_route has_api names path =
    if has_api && (str_eq path "/health" || starts_with path "/api/")
    then control_api
    else if str_eq path "/" || str_eq path "/health"
    then health
    else media_of names (non_empty (split_path path))

-- `do_GET`, `do_PUT` and `do_POST`; a server without a control API has none of its paths.
unfoldable pub route_of : Bool → List String → String → String → Route
unfolding get_route
route_of has_api names method path =
    if str_eq method "GET"
    then get_route has_api names path
    else if has_api && (str_eq method "PUT" || str_eq method "POST")
    then control_api
    else missing

-- A status with the body, which is none where it is not JSON; or none where the handler raised.
abbrev pub Answer : Type 0
Answer = Option (ℕ × Option Value)

abbrev pub status_number : HttpStatus → ℕ
status_number ok_200 = 200
status_number bad_request = 400
status_number unauthorized = 401
status_number not_found = 404
status_number bad_gateway = 502
status_number service_unavailable = 503
status_number gateway_timeout = 504

abbrev pub answer_of : Result ApiResponse → Answer
answer_of (ok response) = some (status_number response.status, some response.body)
answer_of (err e) = none

module _ {W : Type 0} (media : Route → W → Answer) (names : List String) where
  -- A request to a bridge with a control API; the answers of the other handlers are given.
  unfoldable pub serve :
      Dict String (Camera W) → Option String → HttpRequest → Api W → Api W × Answer
  serve cameras token_file r s = elim (route_of true names r.method r.path) [
    | control_api ↦ let (s', response) = handle cameras token_file r s in (s', answer_of response)
    | other ↦ (s, media other s.world)
  ]
