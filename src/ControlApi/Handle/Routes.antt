-- ===== src/ControlApi/Handle/Routes.antt =====
-- `handle` and `_camera_detail` of ino_a9_bridge/src/wificam_bridge/control_api.py.
use Prim.Native.Char.{Char, code}
use Prim.Native.String.{String}
use text.Mathlib.Text.{◌==◌ as str_eq, starts_with}
use ino_a9_local_bridge.Base.{
  ℕ, zero, suc, List, [], ◌∷◌, Option, none, some, Bool, true, false, not, ◌&&◌,
}
use ino_a9_local_bridge.Base.Tests.{ltb, ◌==◌, if◌then◌else◌}
use ino_a9_local_bridge.Base.Dict.{Dict, lookup, string_key}
use ino_a9_local_bridge.Base.Except.{
  Result, ok, err, invalid_request, lookup_error, timeout_error, camera_error, type_error,
  camera_unavailable, ◌>>=◌,
}
use ino_a9_local_bridge.Value.{
  Value, Values, Members, null, bool, str, array, object, nil, cons, end, member,
}
use ino_a9_local_bridge.ControlApi.Store.{Controls, values}
use ino_a9_local_bridge.ControlApi.Handle.{Camera, CameraStatus, Api, known, update_control}

-- `_safe_readback`: a camera that does not answer leaves the fallback. `CameraUnavailable` is a
-- `CameraError`.
abbrev pub safe_readback : Result String → Value → Result Value
safe_readback (ok name) fallback = ok (known (str name) "readback")
safe_readback (err timeout_error) fallback = ok fallback
safe_readback (err camera_error) fallback = ok fallback
safe_readback (err camera_unavailable) fallback = ok fallback
safe_readback (err e) fallback = err e

abbrev pub unknown : Value
unknown =
    object (member "value" null (member "known" (bool false) (member "source" (str "unknown") end)))

-- `_control_values`, for one control.
abbrev pub control_value : Controls → String → Value
control_value saved control = elim (lookup control saved) [
  | none ↦ unknown
  | some value ↦ known value "persisted"
]

-- The result of `_camera_detail`, with the controls in the order of `PERSISTED_CONTROLS`.
abbrev pub detail : String → CameraStatus → Controls → Value → Value → Value
detail camera_id status saved night flip = object (
    member "id" (str camera_id) (
      member "connected" (bool status.connected) (
        member "media" (object status.media) (
          member "controls"
            (object (
              member "led" (control_value saved "led") (
                member "night_vision" night (
                  member "flip" flip (
                    member "video_quality" (control_value saved "video_quality") (
                      member "motion" (control_value saved "motion")
                        (member "intrusion" (control_value saved "intrusion") end)))))))
            end))))

-- An HTTP status with its body.
pub data HttpStatus : Type 0 where
  ok_200 bad_request unauthorized not_found bad_gateway service_unavailable gateway_timeout :
      HttpStatus

pub record ApiResponse : Type 0 where
  pub status : HttpStatus
  pub body : Value

-- `_error`; the codes of the camera begin with `camera_`.
unfoldable pub error_response : HttpStatus → String → ApiResponse
error_response status code = record {
  status = status;
  body = object (
      member "error"
        (object (
          member "code" (str code) (
            member "message"
              (str (
                if starts_with code "camera_" then "camera operation failed" else "request failed"))
              end)))
        end);
}

abbrev pub success : Value → ApiResponse
success body = record { status = ok_200; body = body }

-- The `except` clauses of `handle`; what none of them catches goes on.
unfoldable pub respond : Result ApiResponse → Result ApiResponse
unfolding error_response
respond (ok response) = ok response
respond (err invalid_request) = ok (error_response bad_request "invalid_request")
respond (err lookup_error) = ok (error_response not_found "not_found")
respond (err timeout_error) = ok (error_response gateway_timeout "camera_timeout")
respond (err camera_unavailable) = ok (error_response service_unavailable "camera_unavailable")
respond (err camera_error) = ok (error_response bad_gateway "camera_error")
respond (err e) = err e

abbrev pub is_ascii : String → Bool
is_ascii String.[] = true
is_ascii (String.◌∷◌ c rest) = ltb (code c) 128 && is_ascii rest

-- `secrets.compare_digest` on two texts
abbrev pub compare_digest : String → String → Result Bool
compare_digest a b = if is_ascii a && is_ascii b then ok (str_eq a b) else err type_error

-- `header[n:]`
abbrev pub skip : ℕ → String → String
skip zero text = text
skip (suc n) String.[] = String.[]
skip (suc n) (String.◌∷◌ c rest) = skip n rest

-- `_authorized`, with the token file's stripped text, none if it cannot be read.
unfoldable pub authorized : Option String → Option String → Result Bool
authorized none token_file = ok false
authorized (some header) token_file =
    if starts_with header "Bearer "
    then elim token_file [
      | none ↦ ok false
      | some token ↦ if str_eq token "" then ok false else compare_digest (skip 7 header) token
    ]
    else ok false

-- A character before the first slash, or a slash before all words.
abbrev pub prefixed : Char → List String → List String
prefixed c [] = []
prefixed c (word ∷ words) =
    if code c == 47 then String.[] ∷ word ∷ words else String.◌∷◌ c word ∷ words

-- `path.split("/")`
abbrev pub split_path : String → List String
split_path String.[] = String.[] ∷ []
split_path (String.◌∷◌ c rest) = prefixed c (split_path rest)

abbrev pub non_empty : List String → List String
non_empty [] = []
non_empty (word ∷ words) =
    let rest = non_empty words in if str_eq word "" then rest else word ∷ rest

-- `parts`, read as the routes below the prefix `api/v1/cameras`.
abbrev pub below_cameras : List String → Option (List String)
below_cameras (a ∷ (b ∷ (c ∷ rest))) =
    if str_eq a "api" && str_eq b "v1" && str_eq c "cameras" then some rest else none
below_cameras _ = none

-- A request as the handler has it. The body is none where it is no UTF-8 or no JSON.
pub record HttpRequest : Type 0 where
  pub method : String
  pub path : String
  pub authorization : Option String
  pub body : Option Value

-- `_json_object`
abbrev pub json_object : Option Value → Result Members
json_object (some (object members)) = ok members
json_object _ = err invalid_request

module _ {W : Type 0} where
  -- The two readbacks in turn; an error that neither catches ends the call.
  readbacks : String → Camera W → CameraStatus → Controls → Api W → Api W × Result Value
  readbacks camera_id camera status saved s =
      let (w1, answer1) = camera.get_night_vision s.world in
      elim (safe_readback answer1 (control_value saved "night_vision")) [
        | err e ↦ (record s { world = w1 }, err e)
        | ok night ↦
            let (w2, answer2) = camera.get_flip w1 in
            (
              record s { world = w2 },
              safe_readback answer2 (control_value saved "flip") >>= λ flip.
                  ok (detail camera_id status saved night flip),
            )
      ]

  -- `_camera_detail`
  pub camera_detail : String → Camera W → Api W → Api W × Result Value
  unfolding readbacks
  camera_detail camera_id camera s =
      let status = camera.status s.world in
      elim (values s.store camera_id) [
        | err e ↦ (s, err e)
        | ok saved ↦
            if status.connected && not status.has_error
            then readbacks camera_id camera status saved s
            else (
              s,
              ok (
                  detail camera_id status saved (control_value saved "night_vision")
                    (control_value saved "flip")),
            )
      ]

  abbrev pub responded : Api W × Result Value → Api W × Result ApiResponse
  responded (s, r) = (s, respond (r >>= λ body. ok (success body)))

  unfoldable pub put_control :
      String → Camera W → String → Result Members → Api W → Api W × Result ApiResponse
  unfolding respond
  put_control camera_id camera control (ok body) s =
      responded (update_control camera_id camera control body s)
  put_control camera_id camera control (err e) s = (s, respond (err e))

  reboot_camera : String → Camera W → Api W → Api W × Result ApiResponse
  unfolding respond
  reboot_camera camera_id camera s =
      let (world, answer) = camera.reboot s.world in
      (
        record s { world = world },
        respond (
            answer >>= λ _.
            ok (
              success (object (member "id" (str camera_id) (member "rebooting" (bool true) end))))),
      )

  -- The `try` block: what stands behind the camera's id in the path.
  unfoldable pub camera_route :
      String → Camera W → String → List String → Option Value → Api W → Api W × Result ApiResponse
  unfolding camera_detail put_control reboot_camera respond error_response
  camera_route camera_id camera method [] body s =
      if str_eq method "GET"
      then responded (camera_detail camera_id camera s)
      else (s, ok (error_response not_found "not_found"))
  camera_route camera_id camera method (word ∷ []) body s =
      if str_eq method "POST" && str_eq word "reboot"
      then reboot_camera camera_id camera s
      else (s, ok (error_response not_found "not_found"))
  camera_route camera_id camera method (word ∷ (control ∷ [])) body s =
      if str_eq method "PUT" && str_eq word "controls"
      then put_control camera_id camera control (json_object body) s
      else (s, ok (error_response not_found "not_found"))
  camera_route camera_id camera method _ body s = (s, ok (error_response not_found "not_found"))

  abbrev pub camera_list : Dict String (Camera W) → W → Values
  camera_list [] world = nil
  camera_list ((camera_id, camera) ∷ cameras) world =
      cons
        (object (
          member "id" (str camera_id)
            (member "connected" (bool (camera.status world).connected) end)))
        (camera_list cameras world)

  unfoldable pub route :
      Dict String (Camera W)
      → HttpRequest
      → Option (List String)
      → Api W
      → Api W × Result ApiResponse
  unfolding camera_route error_response
  route cameras r (some []) s =
      if str_eq r.method "GET"
      then (s, ok (success (object (member "cameras" (array (camera_list cameras s.world)) end))))
      else (s, ok (error_response not_found "not_found"))
  route cameras r (some (camera_id ∷ rest)) s = elim (lookup camera_id cameras) [
    | none ↦ (s, ok (error_response not_found "not_found"))
    | some camera ↦ camera_route camera_id camera r.method rest r.body s
  ]
  route cameras r none s = (s, ok (error_response not_found "not_found"))

  -- `handle`
  unfoldable pub handle :
      Dict String (Camera W) → Option String → HttpRequest → Api W → Api W × Result ApiResponse
  unfolding authorized route error_response
  handle cameras token_file r s =
      if str_eq r.method "GET" && str_eq r.path "/health"
      then (s, ok (success (object (member "status" (str "ok") end))))
      else elim (authorized r.authorization token_file) [
        | err e ↦ (s, err e)
        | ok false ↦ (s, ok (error_response unauthorized "unauthorized"))
        | ok true ↦ route cameras r (below_cameras (non_empty (split_path r.path))) s
      ]
