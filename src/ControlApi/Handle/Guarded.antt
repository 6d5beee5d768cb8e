-- ===== src/ControlApi/Handle/Guarded.antt =====
-- Who may change what: requests without the token, and controls that the camera refuses.
use Prim.Native.String.{String, ◌++◌ as ◌+++◌}
use text.Mathlib.Text.{◌==◌ as str_eq}
use ino_a9_local_bridge.Base.{
  ◌≡◌, ◌≢◌, ◌⊎◌, refl, sym, ap, ap₂, subst, ◌∙◌, Option, some, Bool, true, false, ◌&&◌, inl, inr,
}
use ino_a9_local_bridge.Base.Dict.{Dict, lookup, insert, string_key}
use ino_a9_local_bridge.Base.Except.{
  Result, ok, err, Exception, os_error, type_error, Result-cases, err≢ok, err-injective, >>=-eq-ok,
  ◌>>=◌, ok-injective,
}
use ino_a9_local_bridge.Value.{Value, Members, bool, str, object, end, member}
use ino_a9_local_bridge.ControlApi.Values.{validated_control_value}
use ino_a9_local_bridge.ControlApi.Store.{Controls, file_of, set}
use ino_a9_local_bridge.ControlApi.Store.Writes.{set-Writes, set-Refuses, values-lookup}
use ino_a9_local_bridge.ControlApi.Handle.{
  Camera, Api, Request, request, stored_value, call, known, remember, update_control,
}
use ino_a9_local_bridge.ControlApi.Handle.Sent.{IsSent, request-IsSent, IsSent-valid}
use ino_a9_local_bridge.ControlApi.Handle.Bearer.{
  Verdict, let_in, denied, not_ascii, authorized-Verdict,
}
use ino_a9_local_bridge.ControlApi.Handle.Routes.{
  HttpRequest, ApiResponse, handle, authorized, error_response, unauthorized, is_ascii,
}

module _ {W : Type 0} (cameras : Dict String (Camera W)) (token_file : Option String)
    (r : HttpRequest) (s : Api W) where
  -- How a request without the token ends.
  pub Refused : Api W × Result ApiResponse → Type 0
  Refused answer =
      (answer ≡ (s, ok (error_response unauthorized "unauthorized")))
      ⊎ ((answer ≡ (s, err type_error))
          × ((text : String) × ((token : String) × (token_file ≡ some token)
                × (r.authorization ≡ some ("Bearer " +++ text))
                × ((is_ascii text && is_ascii token) ≡ false))))

  handle-Refused :
      (v : Result Bool)
      → (str_eq r.method "GET" && str_eq r.path "/health") ≡ false
      → ((token : String)
          → token_file ≡ some token
          → str_eq token "" ≡ false
          → r.authorization ≢ some ("Bearer " +++ token))
      → authorized r.authorization token_file ≡ v
      → Verdict r.authorization token_file v
      → Refused (handle cameras token_file r s)
  unfolding Refused handle
  handle-Refused v h without e (let_in token file filled header) =
      absurd (without token file filled header)
  handle-Refused v h without e denied = inl (rw (h, e) refl)
  handle-Refused v h without e (not_ascii text token file header other) =
      inr (rw (h, e) refl, (text, (token, file, header, other)))

  -- A request, other than the health check, whose `Authorization` header is not the word `Bearer`, a
  -- space and the token of a token file that is not empty, changes neither the cameras nor the store,
  -- whatever its method, path and body are. It is answered with 401, or ends in the `TypeError` of
  -- `compare_digest`, the latter only where the header has a text behind `Bearer ` and this text or
  -- the token is not ASCII.
  pub handle_unauthorized :
      (str_eq r.method "GET" && str_eq r.path "/health") ≡ false
      → ((token : String)
          → token_file ≡ some token
          → str_eq token "" ≡ false
          → r.authorization ≢ some ("Bearer " +++ token))
      → Refused (handle cameras token_file r s)
  handle_unauthorized h without =
      handle-Refused (authorized r.authorization token_file) h without refl
        (authorized-Verdict r.authorization token_file)

-- What a `PUT` returns, once the value is stored.
abbrev persisted : String → String → Value → Value
persisted camera_id control value = object (
    member "id" (str camera_id)
      (member "controls" (object (member control (known value "persisted") end)) end))

returning-eq-err :
    (r : Result (Unit {0})) (v : Value) (e : Exception) → (r >>= λ _. ok v) ≡ err e → r ≡ err e
returning-eq-err (err x) v e h = ap err (err-injective h)
returning-eq-err (ok _) v e h = absurd (err≢ok (sym h))

module _ {W : Type 0} (camera_id : String) (camera : Camera W) (control : String) (body : Members)
    (s s' : Api W) where
  -- How a `PUT` has failed: with the store as it was, or behind the camera, which has taken the value,
  -- since the disk has refused the file.
  pub data Failed : Exception → Type 0 where
    unstored : {e : Exception} → s'.store ≡ s.store → Failed e
    unwritten :
        (value : Value) (controls : Controls)
        → IsSent camera control body s.world s'.world value
        → s.store.disk s.store.writes ≡ false
        → lookup camera_id s.store.state ≡ some controls
        → s'.store.state ≡ insert camera_id (insert control value controls) s.store.state
        → s'.store.file ≡ s.store.file
        → Failed os_error

  -- What a `PUT` that succeeds has done.
  pub record Done (v : Value) : Type 0 where
    pub value : Value
    pub controls : Controls
    pub sent : IsSent camera control body s.world s'.world value
    pub before : lookup camera_id s.store.state ≡ some controls
    pub state : s'.store.state ≡ insert camera_id (insert control value controls) s.store.state
    pub file : s'.store.file ≡ file_of s'.store.state
    pub answer :
        v
        ≡ object (
            member "id" (str camera_id) (
              member "controls"
                (object (
                  member control
                    (object (
                      member "value" value
                        (member "known" (bool true) (member "source" (str "persisted") end))))
                    end))
                end))

  -- What the camera took is what the store has validated.
  same_value :
      (value validated : Value) (w : W)
      → IsSent camera control body s.world w value
      → validated_control_value control value ≡ ok validated
      → validated ≡ value
  same_value value validated w sent e =
      ok-injective (sym e ∙ IsSent-valid camera control body s.world w value sent)

  remember-Failed :
      (value : Value) (w : W) (answer : Result (Unit {0})) (e : Exception)
      → (answer ≡ ok tt → IsSent camera control body s.world w value)
      → remember camera_id control value answer (record s { world = w }) ≡ (s', err e)
      → Failed e
  unfolding remember
  remember-Failed value w (err x) e sent h = unstored (ap (λ p. p.0.store) (sym h))
  remember-Failed value w (ok _) e sent h =
      let world : s'.world ≡ w = ap (λ p. p.0.world) (sym h) in
      let p = set s.store camera_id control value in
      let written : p ≡ (s'.store, err e) =
        ap₂ (λ a b. (a, b)) (ap (λ q. q.0.store) h)
          (returning-eq-err p.1 (persisted camera_id control value) e (ap (λ q. q.1) h)) in
      elim (set-Refuses s.store s'.store camera_id control value e written) [
        | inl same ↦ unstored (sym same)
        | inr r ↦
            let taken = sent refl in
            let v≡ = same_value value r.validated w taken r.valid in
            subst Failed r.raised (
              unwritten value r.controls
                (subst (λ x. IsSent camera control body s.world x value) (sym world) taken)
                r.refused (values-lookup s.store camera_id r.controls r.found)
                (sym (ap (λ x. x.state) r.made)
                  ∙ ap (λ x. insert camera_id (insert control x r.controls) s.store.state) v≡)
                (sym (ap (λ x. x.file) r.made)))
      ]

  remember-Done :
      (value : Value) (w : W) (answer : Result (Unit {0})) (v : Value)
      → (answer ≡ ok tt → IsSent camera control body s.world w value)
      → remember camera_id control value answer (record s { world = w }) ≡ (s', ok v)
      → Done v
  unfolding remember
  remember-Done value w (err x) v sent h = absurd (err≢ok (ap (λ p. p.1) h))
  remember-Done value w (ok _) v sent h =
      let p = set s.store camera_id control value in
      let (_, returned, made) =
        >>=-eq-ok p.1 (λ _. ok (persisted camera_id control value)) (ap (λ q. q.1) h) in
      let written : p ≡ (s'.store, ok tt) = ap₂ (λ a b. (a, b)) (ap (λ q. q.0.store) h) returned in
      let r = set-Writes s.store s'.store camera_id control value written in
      let taken = sent refl in
      let v≡ = same_value value r.validated w taken r.valid in
      let state = ap (λ x. x.state) r.made in
      record {
        value = value;
        controls = r.controls;
        sent =
            subst (λ x. IsSent camera control body s.world x value) (ap (λ q. q.0.world) h) taken;
        before = values-lookup s.store camera_id r.controls r.found;
        state =
            sym state ∙ ap (λ x. insert camera_id (insert control x r.controls) s.store.state) v≡;
        file = sym (ap (λ x. x.file) r.made) ∙ ap file_of state;
        answer = sym (ok-injective made);
      }

  -- What the camera has done with an accepted request that it has taken.
  taken-IsSent :
      (r : Request)
      → request control body ≡ ok r
      → (call camera r s.world).1 ≡ ok tt
      → IsSent camera control body s.world (call camera r s.world).0 (stored_value r)
  taken-IsSent r f answered =
      let p = call camera r s.world in
      request-IsSent camera control body s.world p.0 r f (ap (λ a. (p.0, a)) answered)

  -- A `PUT` that fails leaves the file as it was and the stored values as they were, with one exception:
  -- where the body has passed, the camera has taken its value and the disk then refuses the file, the
  -- call ends in the disk's error with the old file and that value in the state.
  pub update_control-Failed :
      (e : Exception) → update_control camera_id camera control body s ≡ (s', err e) → Failed e
  unfolding update_control
  update_control-Failed e h = elim (Result-cases (request control body)) [
    | inl (r, f) ↦
        let p = call camera r s.world in
        remember-Failed (stored_value r) p.0 p.1 e (taken-IsSent r f) (rw (f, update_control) at h)
    | inr (x, f) ↦ unstored (ap (λ p. p.0.store) (sym (rw (f, update_control) at h)))
  ]

  -- A `PUT` that succeeds has asked the camera, by the method of its control, for the value that its
  -- body says, and the camera has taken it; the same value then stands under the camera and the
  -- control in the store, which is otherwise unchanged, and in the answer, and the file holds the new
  -- state.
  pub update_control-Done :
      (v : Value) → update_control camera_id camera control body s ≡ (s', ok v) → Done v
  unfolding update_control
  update_control-Done v h = elim (Result-cases (request control body)) [
    | inl (r, f) ↦
        let p = call camera r s.world in
        remember-Done (stored_value r) p.0 p.1 v (taken-IsSent r f) (rw (f, update_control) at h)
    | inr (x, f) ↦ absurd (err≢ok (ap (λ p. p.1) (rw (f, update_control) at h)))
  ]
