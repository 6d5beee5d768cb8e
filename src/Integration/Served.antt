-- ===== src/Integration/Served.antt =====
-- The integration's client against the bridge.
use Prim.Native.String.{String, ◌++◌ as ◌+++◌}
use ino_a9_local_bridge.Base.{ℕ, ◌≡◌, refl, ap, ap₂, ◌∙◌, List, [], Option, none, some, true}
use ino_a9_local_bridge.Base.Dict.{Dict, lookup, string_key}
use ino_a9_local_bridge.Base.Except.{
  Exception, Result, ok, err, api_error, invalid_request, lookup_error, timeout_error, camera_error,
  camera_unavailable, ◌>>=◌,
}
use ino_a9_local_bridge.Value.{Value, Members, object}
use ino_a9_local_bridge.Config.{safe_name}
use ino_a9_local_bridge.ControlApi.Handle.{Camera, Api, update_control}
use ino_a9_local_bridge.ControlApi.Handle.Routes.{
  HttpRequest, authorized, handle, route, camera_route, put_control, respond, success,
  error_response,
}
use ino_a9_local_bridge.Bridge.{Route, Answer, serve, route_of, answer_of}
use ino_a9_local_bridge.Integration.Api.{
  InoA9Api, ApiAnswer, Transport, base_url, request, checked, decoded, request_json, api_path,
  path_of_control, request_at, async_set_control,
}
use ino_a9_local_bridge.Integration.Paths.{
  IsSafe, safe_name-IsSafe, path_part-IsSafe, control_path, below_cameras-control_path, all_plain,
  all_plain-control_path, made-control_path,
}

-- An answer as `aiohttp` gives it.
abbrev pub received : Answer → Option ApiAnswer
received none = none
received (some (status, json)) = some (record { status = status; json = json; content = [] })

-- What a call of the API is worth for the client.
abbrev pub failed_status : Exception → ℕ
failed_status invalid_request = 400
failed_status lookup_error = 404
failed_status timeout_error = 504
failed_status camera_unavailable = 503
failed_status camera_error = 502
failed_status _ = 503

abbrev pub client_result : Result Value → Result Members
client_result (ok (object members)) = ok members
client_result (ok _) = err (api_error 502)
client_result (err e) = err (api_error (failed_status e))

module _ {W : Type 0} (media : Route → W → Answer) (names : List String)
    (cameras : Dict String (Camera W)) (token_file : Option String) where
  -- A request as the bridge reads it.
  abbrev pub read_request : InoA9Api → String → String → Option Value → HttpRequest
  read_request api method path body = record {
    method = method;
    path = path;
    authorization = some ("Bearer " +++ api.token);
    body = body;
  }

  -- HTTP brings a request for a path without escapes to the bridge and its answer back.
  pub record IsServed (transport : Transport (Api W)) (api : InoA9Api) : Type 0 where
    pub served :
        (method path : String) (body : Option Value) (s : Api W)
        → all_plain path ≡ true
        → transport
            (record {
              method = method;
              url = base_url api +++ path;
              authorization = "Bearer " +++ api.token;
              json_payload = body;
            })
            s
          ≡ (let (s', answer) =
                serve media names cameras token_file (read_request api method path body) s in
              (s', received answer))

  module _ (transport : Transport (Api W)) (api : InoA9Api) (h : IsServed transport api) where
    -- The path reaches the control API.
    request_json-serve :
        (method path : String) (body : Option Value) (s : Api W)
        → all_plain path ≡ true
        → request_json transport api method path body s ≡ (
            let (s', answer) =
              serve media names cameras token_file (read_request api method path body) s in
            (s', decoded (checked (received answer))))
    unfolding request_json request
    request_json-serve method path body s plain =
        ap (λ p. (p.0, decoded (checked p.1))) (h.served method path body s plain)

    -- What the client makes of the API's answer.
    client-answer :
        (r : Result Value)
        → decoded (checked (received (answer_of (respond (r >>= λ body. ok (success body))))))
          ≡ client_result r
    unfolding respond error_response
    client-answer (ok (object members)) = refl
    client-answer (ok _) = refl
    client-answer (err invalid_request) = refl
    client-answer (err lookup_error) = refl
    client-answer (err timeout_error) = refl
    client-answer (err camera_unavailable) = refl
    client-answer (err camera_error) = refl
    client-answer (err _) = refl

    -- The request for a control is answered by the camera's update.
    serve-put :
        (camera_id control : String) (camera : Camera W) (payload : Members) (s : Api W)
        → IsSafe camera_id
        → IsSafe control
        → authorized (some ("Bearer " +++ api.token)) token_file ≡ ok true
        → lookup camera_id cameras ≡ some camera
        → serve media names cameras token_file
            (read_request api "PUT" (control_path camera_id control) (some (object payload)))
            s
          ≡ (let (s', r) = update_control camera_id camera control payload s in
              (s', answer_of (respond (r >>= λ body. ok (success body)))))
    unfolding serve route_of handle route camera_route put_control
    serve-put camera_id control camera payload s safe safe_control let_in known = rw (let_in) (
        rw (below_cameras-control_path camera_id control safe safe_control)
          (rw (known, route) refl))

    path_of_control-control_path :
        (camera_id control : String)
        → IsSafe camera_id
        → IsSafe control
        → path_of_control camera_id control ≡ ok (control_path camera_id control)
    path_of_control-control_path camera_id control safe safe_control =
        ap₂
          (λ a b. (a >>= λ part. ok ((api_path +++ "/") +++ part)) >>= λ path.
            b >>= λ part. ok ((path +++ "/controls/") +++ part))
          (path_part-IsSafe camera_id safe) (path_part-IsSafe control safe_control)
        ∙ ap ok (made-control_path camera_id control)

    -- Against a bridge that takes its token, the client's `async_set_control` on a camera of the bridge
    -- and a control with a safe name is the control API's `_update_control` with the same payload: it
    -- leaves the same world and store, returns the object that the API returns, and raises an
    -- `InoA9ApiError` with the status of the API's error where the API raises.
    pub async_set_control-update_control :
        (camera_id control : String) (camera : Camera W) (payload : Members) (s : Api W)
        → safe_name camera_id ≡ true
        → safe_name control ≡ true
        → authorized (some ("Bearer " +++ api.token)) token_file ≡ ok true
        → lookup camera_id cameras ≡ some camera
        → async_set_control transport api camera_id control payload s ≡ (
            let (s', r) = update_control camera_id camera control payload s in
            (s', client_result r))
    unfolding async_set_control request_at
    async_set_control-update_control camera_id control camera payload s a b let_in known =
        let safe = safe_name-IsSafe camera_id a in
        let safe_control = safe_name-IsSafe control b in
        let path = control_path camera_id control in
        let body = some (object payload) in
        let updated = update_control camera_id camera control payload s in
        ap (λ p. request_at transport api "PUT" p body s)
          (path_of_control-control_path camera_id control safe safe_control)
        ∙ request_json-serve "PUT" path body s
            (all_plain-control_path camera_id control safe safe_control)
        ∙ ap (λ p. (p.0, decoded (checked (received p.1))))
            (serve-put camera_id control camera payload s safe safe_control let_in known)
        ∙ ap (λ r. (updated.0, r)) (client-answer updated.1)
