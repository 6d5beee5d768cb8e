-- ===== src/ControlApi/Handle/Sent.antt =====
-- What the branches of `_update_control` of ino_a9_bridge/src/wificam_bridge/control_api.py ask of the
-- camera, written out.
use Prim.Native.String.{String}
use text.Mathlib.Text.{◌==◌ as str_eq}
use text.Mathlib.TextEquality.{eq_iff}
use ino_a9_local_bridge.Base.{ℕ, ◌≡◌, ◌⊎◌, refl, sym, ap, subst, none, some, Bool, true, inl, inr}
use ino_a9_local_bridge.Base.Tests.{Bool-cases, Option-cases}
use ino_a9_local_bridge.Base.Except.{
  ok, err, invalid_request, >>=-eq-ok, ok-injective, err≢ok, ◌>>=◌,
}
use ino_a9_local_bridge.Value.{Value, Members, bool, str, object, end, member, get, get_or_null}
use ino_a9_local_bridge.Controls.{IntrusionSchedule}
use ino_a9_local_bridge.Commands.{
  Table, chosen, wire_value, night_values, flip_values, video_quality_values, motion_values,
}
use ino_a9_local_bridge.ControlApi.Values.{
  enum_values, schedule_from_value, schedule_value, intrusion_value, validated_enum,
  validated_control_value, validated_intrusion, intrusion_of,
}
use ino_a9_local_bridge.ControlApi.Values.Idempotent.{validated_control_value-idempotent}
use ino_a9_local_bridge.ControlApi.Handle.{
  Camera, Choice, night_vision, flip, video_quality, motion, Request, led, choice, boolean,
  enabled_of, text_of, enum, choice_of, choice_request, intrusion_request, request, stored_value,
  call,
}

-- The controls with named values, the camera's method for each, and the names it knows.
pub data Chooses : String → Choice → Table → Type 0 where
  chooses_night_vision : Chooses "night_vision" night_vision night_values
  chooses_flip : Chooses "flip" flip flip_values
  chooses_video_quality : Chooses "video_quality" video_quality video_quality_values
  chooses_motion : Chooses "motion" motion motion_values

-- The camera was asked, in the world `w`, for what the body says, has taken it, and has left the
-- world `w'`; the index is the value that it has taken.
pub data IsSent {W : Type 0} (camera : Camera W) (control : String) (body : Members) (w w' : W)
    : Value → Type 0 where
  led_sent :
      (value : Bool)
      → control ≡ "led"
      → get_or_null body "value" ≡ bool value
      → camera.set_status_led value w ≡ (w', ok tt)
      → IsSent camera control body w w' (bool value)
  choice_sent :
      (kind : Choice) (table : Table) (name : String) (wire : ℕ)
      → Chooses control kind table
      → get_or_null body "value" ≡ str name
      → wire_value table name ≡ some wire
      → camera.choose kind name w ≡ (w', ok tt)
      → IsSent camera control body w w' (str name)
  intrusion_sent :
      (enabled : Bool) (schedule : IntrusionSchedule)
      → control ≡ "intrusion"
      → get_or_null body "enabled" ≡ bool enabled
      → schedule_from_value (get_or_null body "schedule") ≡ ok schedule
      → camera.set_intrusion enabled schedule w ≡ (w', ok tt)
      → IsSent camera control body w w' (
          object
            (member "enabled" (bool enabled) (member "schedule" (schedule_value schedule) end)))

bool-eq-ok :
    (v : Value) (b : Bool)
    → (elim v [ bool b ↦ ok b | _ ↦ err invalid_request ]) ≡ ok b
    → v ≡ bool b
bool-eq-ok (bool b') b e = ap bool (ok-injective e)
bool-eq-ok _ b e = cc

text_of-eq-ok : (v : Value) (name : String) → text_of v ≡ ok name → v ≡ str name
text_of-eq-ok (str text) name e = ap str (ok-injective e)
text_of-eq-ok _ name e = cc

-- A name that passes is a text of the table.
enum-eq-ok :
    (table : Table) (v : Value) (name : String)
    → enum table v ≡ ok name
    → (v ≡ str name) × ((wire : ℕ) × (wire_value table name ≡ some wire))
enum-eq-ok table v name e = elim (Option-cases (chosen table v)) [
  | inl n ↦ absurd (err≢ok (rw (n, enum) at e))
  | inr (wire, f) ↦
      let is_text = text_of-eq-ok v name (rw (f, enum) at e) in
      (is_text, (wire, subst (λ x. chosen table x ≡ some wire) is_text f))
]

validated_enum-named :
    (table : Table) (name : String) (wire : ℕ)
    → wire_value table name ≡ some wire
    → validated_enum table (str name) ≡ ok (str name)
validated_enum-named table name wire known = rw (known, validated_enum) refl

-- What the two dicts of names have for a control.
record IsChoice (control : String) : Type 0 where
  kind : Choice
  table : Table
  chooses : Chooses control kind table
  method : choice_of control ≡ some kind
  names : enum_values control ≡ some table

named : (control name : String) → str_eq control name ≡ true → IsChoice name → IsChoice control
named control name e h = subst IsChoice (sym ((eq_iff control name).0 e)) h

choice_of-cases : (control : String) → (choice_of control ≡ none) ⊎ IsChoice control
choice_of-cases control = elim (Bool-cases (str_eq control "night_vision")) [
  | inl e ↦ inr (
      named control "night_vision" e (record {
        kind = night_vision;
        table = night_values;
        chooses = chooses_night_vision;
        method = refl;
        names = refl;
      }))
  | inr e1 ↦ elim (Bool-cases (str_eq control "flip")) [
    | inl e ↦ inr (
        named control "flip" e (record {
          kind = flip;
          table = flip_values;
          chooses = chooses_flip;
          method = refl;
          names = refl;
        }))
    | inr e2 ↦ elim (Bool-cases (str_eq control "video_quality")) [
      | inl e ↦ inr (
          named control "video_quality" e (record {
            kind = video_quality;
            table = video_quality_values;
            chooses = chooses_video_quality;
            method = refl;
            names = refl;
          }))
      | inr e3 ↦ elim (Bool-cases (str_eq control "motion")) [
        | inl e ↦ inr (
            named control "motion" e (record {
              kind = motion;
              table = motion_values;
              chooses = chooses_motion;
              method = refl;
              names = refl;
            }))
        | inr e4 ↦ inl (rw (e1, e2, e3, e4) refl)
      ]
    ]
  ]
]

-- A stored intrusion setting is validated as the body was.
intrusion_valid :
    (enabled : Bool) (schedule : IntrusionSchedule) (raw : Value)
    → schedule_from_value raw ≡ ok schedule
    → validated_control_value "intrusion" (intrusion_value enabled schedule)
      ≡ ok (intrusion_value enabled schedule)
unfolding validated_control_value validated_intrusion intrusion_of get
intrusion_valid enabled schedule raw accepted =
    let given = object (member "enabled" (bool enabled) (member "schedule" raw end)) in
    validated_control_value-idempotent "intrusion" given (intrusion_value enabled schedule)
      (rw accepted refl)

module _ {W : Type 0} (camera : Camera W) (control : String) (body : Members) (w w' : W) where
  led-IsSent :
      (r : Request)
      → control ≡ "led"
      → (boolean body >>= λ value. ok (led value)) ≡ ok r
      → call camera r w ≡ (w', ok tt)
      → IsSent camera control body w w' (stored_value r)
  unfolding call stored_value
  led-IsSent r is_led e sent =
      let (value, e1, made) = >>=-eq-ok (boolean body) _ e in
      subst (λ x. call camera x w ≡ (w', ok tt) → IsSent camera control body w w' (stored_value x))
        (ok-injective made)
        (λ taken. led_sent value is_led (bool-eq-ok (get_or_null body "value") value e1) taken) sent

  choice-IsSent :
      (r : Request)
      → choice_request (choice_of control) (enum_values control) body ≡ ok r
      → call camera r w ≡ (w', ok tt)
      → IsSent camera control body w w' (stored_value r)
  unfolding call stored_value
  choice-IsSent r e sent = elim (choice_of-cases control) [
    | inl n ↦ absurd (err≢ok (rw (n, choice_request) at e))
    | inr h ↦
        let (name, e1, made) =
          >>=-eq-ok (enum h.table (get_or_null body "value")) (λ n. ok (choice h.kind n))
            (rw (h.method, h.names, choice_request) at e) in
        let (is_text, (wire, known)) = enum-eq-ok h.table (get_or_null body "value") name e1 in
        subst
          (λ x. call camera x w ≡ (w', ok tt) → IsSent camera control body w w' (stored_value x))
          (ok-injective made)
          (λ taken. choice_sent h.kind h.table name wire h.chooses is_text known taken) sent
  ]

  intrusion-IsSent :
      (r : Request)
      → control ≡ "intrusion"
      → intrusion_request body ≡ ok r
      → call camera r w ≡ (w', ok tt)
      → IsSent camera control body w w' (stored_value r)
  unfolding call stored_value intrusion_value
  intrusion-IsSent r is_intrusion e sent =
      let (enabled, e1, rest) = >>=-eq-ok (enabled_of body) _ e in
      let (schedule, e2, made) =
        >>=-eq-ok (schedule_from_value (get_or_null body "schedule")) _ rest in
      subst (λ x. call camera x w ≡ (w', ok tt) → IsSent camera control body w w' (stored_value x))
        (ok-injective made)
        (λ taken.
          intrusion_sent enabled schedule is_intrusion
            (bool-eq-ok (get_or_null body "enabled") enabled e1) e2 taken)
        sent

  -- A request that passes its tests and is taken has asked the camera for what its body says.
  pub request-IsSent :
      (r : Request)
      → request control body ≡ ok r
      → call camera r w ≡ (w', ok tt)
      → IsSent camera control body w w' (stored_value r)
  unfolding request
  request-IsSent r e sent = elim (Bool-cases (str_eq control "led")) [
    | inl is_led ↦ led-IsSent r ((eq_iff control "led").0 is_led) (rw (is_led, request) at e) sent
    | inr other ↦ elim (Bool-cases (str_eq control "intrusion")) [
      | inl is_intrusion ↦
          intrusion-IsSent r ((eq_iff control "intrusion").0 is_intrusion)
            (rw (other, is_intrusion, request) at e) sent
      | inr neither ↦ choice-IsSent r (rw (other, neither, request) at e) sent
    ]
  ]

  -- What the camera has taken is in the form that the store accepts.
  pub IsSent-valid :
      (v : Value) → IsSent camera control body w w' v → validated_control_value control v ≡ ok v
  unfolding validated_control_value validated_intrusion intrusion_of intrusion_value get
  IsSent-valid v (led_sent value is_led given taken) = rw is_led refl
  IsSent-valid v (choice_sent kind table name wire chooses given known taken) =
      choice_valid control kind table name wire chooses known
    where
      choice_valid :
          (control : String) (kind : Choice) (table : Table) (name : String) (wire : ℕ)
          → Chooses control kind table
          → wire_value table name ≡ some wire
          → validated_control_value control (str name) ≡ ok (str name)
      choice_valid control kind table name wire chooses_night_vision known =
          validated_enum-named night_values name wire known
      choice_valid control kind table name wire chooses_flip known =
          validated_enum-named flip_values name wire known
      choice_valid control kind table name wire chooses_video_quality known =
          validated_enum-named video_quality_values name wire known
      choice_valid control kind table name wire chooses_motion known =
          validated_enum-named motion_values name wire known
  IsSent-valid v (intrusion_sent enabled schedule is_intrusion given accepted taken) =
      subst (λ c. validated_control_value c v ≡ ok v) (sym is_intrusion)
        (intrusion_valid enabled schedule (get_or_null body "schedule") accepted)
