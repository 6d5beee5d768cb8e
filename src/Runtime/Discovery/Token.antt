-- ===== src/Runtime/Discovery/Token.antt =====
-- The token that Home Assistant is told is the one that the control API takes.
use Prim.Native.String.{String, ◌++◌ as ◌+++◌}
use text.Mathlib.Text.{◌==◌ as str_eq}
use text.Mathlib.TextEquality.{eq_iff}
use text.Mathlib.TextPositions.{starts_with-append}
use ino_a9_local_bridge.Base.{◌≡◌, refl, ap, ◌∙◌, Option, none, some, Bool, true, false, ◌&&◌}
use ino_a9_local_bridge.Base.Tests.{if◌then◌else◌}
use ino_a9_local_bridge.Base.Except.{Result, ok, err, type_error}
use ino_a9_local_bridge.Value.{Value, Members, object, str, get_or_null}
use ino_a9_local_bridge.ControlApi.Handle.Routes.{authorized, is_ascii}
use ino_a9_local_bridge.Runtime.{RuntimeFiles}
use ino_a9_local_bridge.ControlApi.Handle.Bearer.{skip-append}
use ino_a9_local_bridge.Runtime.Discovery.{
  Supervisor, without_slashes, dashed, read_token, discovery_message, request_json,
}

eq_self : (text : String) → str_eq text text ≡ true
eq_self text = (eq_iff text text).1 refl

-- A bearer header with the token of the file is let in, if the token is ASCII.
authorized_bearer :
    (token : String)
    → str_eq token "" ≡ false
    → authorized (some ("Bearer " +++ token)) (some token)
      ≡ (if is_ascii token then ok true else err type_error)
unfolding authorized
authorized_bearer token h =
    rw (starts_with-append "Bearer " token, h, skip-append "Bearer " token)
      (digest (is_ascii token))
  where
    digest :
        (b : Bool)
        → (if b && b then ok (str_eq token token) else err type_error)
          ≡ (if b then ok true else err type_error)
    digest true = ap ok (eq_self token)
    digest false = refl

pub bearer-authorized :
    (token : String)
    → str_eq token "" ≡ false
    → is_ascii token ≡ true
    → authorized (some ("Bearer " +++ token)) (some token) ≡ ok true
bearer-authorized token h ascii = authorized_bearer token h ∙ rw ascii refl

-- What stands in the Supervisor's answer and in the token file.
record IsFound (info : Result Members) (file : Option String) (hostname token : String)
    : Type 0 where
  members : Members
  data_members : Members
  answered : info ≡ ok members
  has_data : get_or_null members "data" ≡ object data_members
  named : get_or_null data_members "hostname" ≡ str hostname
  read : read_token file ≡ ok token

module _ {W : Type 0} (supervisor : Supervisor W) (supervisor_token : Option String) where
  -- The second request of a discovery, with what was found before it.
  record IsAnnounced (r : Result (String × String)) (url : String) (w w' : W) : Type 0 where
    hostname : String
    token : String
    found : r ≡ ok (hostname, token)
    sent :
        (request_json supervisor supervisor_token
          (url +++ "/discovery")
          (some (discovery_message (dashed hostname) token))
          w).0
        ≡ w'

  -- What the Supervisor answered first, what it was told then, and what the control API makes of it.
  pub record IsDiscovered (files : RuntimeFiles) (url : String) (w w' : W) : Type 0 where
    pub info : Members
    pub data_members : Members
    pub hostname : String
    pub token : String
    pub before : W
    pub asked :
        request_json supervisor supervisor_token
          (without_slashes url +++ "/addons/self/info")
          none
          w
        ≡ (before, ok info)
    pub has_data : get_or_null info "data" ≡ object data_members
    pub named : get_or_null data_members "hostname" ≡ str hostname
    pub read : read_token files.control_token ≡ ok token
    pub sent :
        (request_json supervisor supervisor_token
          (without_slashes url +++ "/discovery")
          (some (discovery_message (dashed hostname) token))
          before).0
        ≡ w'
    pub let_in :
        authorized (some ("Bearer " +++ token)) (some token)
        ≡ (if is_ascii token then ok true else err type_error)
