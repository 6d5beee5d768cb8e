-- ===== src/ControlApi/Examples.antt =====
-- One camera, a request to switch its light, and a store that was restarted.

use Prim.Native.String.{String, ◌++◌ as ◌+++◌}
use text.Mathlib.Text.{◌==◌ as str_eq}
use text.Mathlib.TextEquality.{eq_iff}
use ino_a9_local_bridge.Base.{
  ℕ, ◌≡◌, ◌≢◌, ◌∙◌, sym, ap, subst, refl, [], ◌∷◌, none, some, true, false,
}
use ino_a9_local_bridge.Base.Dict.{lookup, insert, string_key}
use ino_a9_local_bridge.Base.Except.{ok, err, ok-injective, os_error, camera_unavailable}
use ino_a9_local_bridge.Value.{Value, Members, object, bool, str, end, member, get}
use ino_a9_local_bridge.ControlApi.Values.{validated_control_value}
use ino_a9_local_bridge.ControlApi.Values.Idempotent.{validated_control_value-idempotent}
use ino_a9_local_bridge.ControlApi.Store.{
  ControlStateStore, Controls, StateFile, missing, readable, file_of, write, restore, retained,
  control_state_store, values, set,
}
use ino_a9_local_bridge.ControlApi.Store.Restart.{
  IsStored, set-IsStored, restart_keeps, some-injective,
}
use ino_a9_local_bridge.ControlApi.Store.Initial.{Begins, control_state_store-Begins}
use ino_a9_local_bridge.ControlApi.Handle.{
  Camera, Api, request, call, remember, update_control, stored_value,
}
use ino_a9_local_bridge.ControlApi.Handle.Routes.{HttpRequest, handle}
use ino_a9_local_bridge.ControlApi.Handle.Guarded.{
  Done, Failed, Refused, handle_unauthorized, update_control-Failed, update_control-Done,
}

led_valid : validated_control_value "led" (bool true) ≡ ok (bool true)
unfolding validated_control_value
led_valid = refl

validated_control_value-idempotent_example :
    validated_control_value "led" (bool true) ≡ ok (bool true)
validated_control_value-idempotent_example =
    validated_control_value-idempotent "led" (bool true) (bool true) led_valid

abbrev odd_file : StateFile
odd_file = readable (
    some (
      object (
        member "cameras" (object (member "garden" (object (member "led" (str "on") end)) end))
          end)))

-- A store before it has a file, and what a request puts into it.
abbrev fresh : ControlStateStore
fresh = record {
  state = ("garden", []) ∷ [];
  file = file_of (("garden", []) ∷ []);
  disk = λ n. true;
  writes = 1;
}

begins : control_state_store (λ n. true) missing ("garden" ∷ []) ≡ ok fresh
unfolding control_state_store write restore retained get
begins = refl

-- A file with a light that is no Boolean.
control_state_store-Begins_example :
    Begins (λ n. true) odd_file (control_state_store (λ n. true) odd_file ("garden" ∷ []))
control_state_store-Begins_example = control_state_store-Begins (λ n. true) odd_file ("garden" ∷ [])

fresh-IsStored : IsStored fresh
unfolding Begins
fresh-IsStored =
    let (s, stored, made) = control_state_store-Begins (λ n. true) missing ("garden" ∷ []) in
    subst IsStored (sym (ok-injective (sym begins ∙ made))) stored

abbrev led_on : Controls
led_on = ("led", bool true) ∷ []

abbrev lit : ControlStateStore
lit = record fresh {
  state = ("garden", led_on) ∷ [];
  file = file_of (("garden", led_on) ∷ []);
  writes = 2;
}

led_set : set fresh "garden" "led" (bool true) ≡ (lit, ok tt)
unfolding set values write validated_control_value
led_set = refl

abbrev Stored : ControlStateStore → ControlStateStore → Type 0
Stored s s' =
    IsStored s'
    × ((controls : Controls) × ((validated : Value) × (validated_control_value "led" (bool true)
            ≡ ok validated)
          × (lookup "garden" s.state ≡ some controls)
          × (s'.state ≡ insert "garden" (insert "led" validated controls) s.state)))

set-IsStored_example : Stored fresh lit
set-IsStored_example = set-IsStored fresh lit "garden" "led" (bool true) fresh-IsStored led_set

lit-IsStored : IsStored lit
lit-IsStored = (set-IsStored fresh lit "garden" "led" (bool true) fresh-IsStored led_set).0

lit_garden : lookup "garden" lit.state ≡ some led_on
lit_garden = refl

restart_keeps_example :
    (s : ControlStateStore) × (controls : Controls) × (control_state_store
        (λ n. true)
        lit.file
        ("garden" ∷ [])
      ≡ ok s)
    × (values s "garden" ≡ ok controls)
    × (lookup "led" controls ≡ lookup "led" led_on)
restart_keeps_example =
    restart_keeps (λ n. true) lit ("garden" ∷ []) "garden" "led" led_on lit-IsStored refl refl
      lit_garden

-- The world counts the calls; a camera of world 0 answers.
abbrev pub answering : Camera ℕ
answering = record {
  status = λ w. record { connected = true; has_error = false; media = end };
  set_status_led = λ enabled w. (1, ok tt);
  choose = λ kind name w. (1, ok tt);
  set_intrusion = λ enabled schedule w. (1, ok tt);
  get_night_vision = λ w. (1, ok "automatic");
  get_flip = λ w. (1, ok "upright");
  reboot = λ w. (1, ok tt);
}

abbrev offline : Camera ℕ
offline = record answering { set_status_led = λ enabled w. (w, err camera_unavailable) }

abbrev pub led_body : Members
led_body = member "value" (bool true) end

abbrev pub before : Api ℕ
before = record { world = 0; store = fresh }

abbrev pub after : Api ℕ
after = record { world = 1; store = lit }

abbrev pub led_answer : Value
led_answer = object (
    member "id" (str "garden") (
      member "controls"
        (object (
          member "led"
            (object (
              member "value" (bool true)
                (member "known" (bool true) (member "source" (str "persisted") end))))
            end))
        end))

led_refused :
    update_control "garden" offline "led" led_body before ≡ (before, err camera_unavailable)
unfolding update_control request call remember get stored_value
led_refused = refl

led_taken : update_control "garden" answering "led" led_body before ≡ (after, ok led_answer)
unfolding update_control request call remember get stored_value
led_taken = rw (led_set, remember) refl

update_control-Done_example : Done "garden" answering "led" led_body before after led_answer
update_control-Done_example =
    update_control-Done "garden" answering "led" led_body before after led_answer led_taken

-- A disk that is full, and the light of a camera that is switched nevertheless.
abbrev full : Api ℕ
full = record { world = 0; store = record fresh { disk = λ n. false } }

abbrev ahead : Api ℕ
ahead = record {
  world = 1;
  store = record fresh { state = ("garden", led_on) ∷ []; disk = λ n. false; writes = 2 };
}

led_unwritten : update_control "garden" answering "led" led_body full ≡ (ahead, err os_error)
unfolding update_control request call remember get stored_value set values write
    validated_control_value
led_unwritten = refl

update_control-Failed_example : Failed "garden" answering "led" led_body full ahead os_error
update_control-Failed_example =
    update_control-Failed "garden" answering "led" led_body full ahead os_error led_unwritten

-- A guess at the token `secret`.
abbrev list_request : HttpRequest
list_request = record {
  method = "GET";
  path = "/api/v1/cameras";
  authorization = some "Bearer guess";
  body = none;
}

guess_refused :
    (token : String)
    → some "secret" ≡ some token
    → str_eq token "" ≡ false
    → some "Bearer guess" ≢ some ("Bearer " +++ token)
guess_refused token file filled header =
    let same : "Bearer guess" ≡ "Bearer secret" =
      some-injective (header ∙ ap (λ t. some ("Bearer " +++ t)) (sym (some-injective file))) in
    let wrong : false ≡ true = (eq_iff "Bearer guess" "Bearer secret").1 same in cc

handle_unauthorized_example :
    Refused
      (("garden", answering) ∷ [])
      (some "secret")
      list_request
      before
      (handle (("garden", answering) ∷ []) (some "secret") list_request before)
handle_unauthorized_example =
    handle_unauthorized (("garden", answering) ∷ []) (some "secret") list_request before refl
      guess_refused
