-- ===== src/ControlApi/Store/Initial.antt =====
-- What `__init__` makes of any file.
use Prim.Native.String.{String}
use text.Mathlib.Text.{◌==◌ as str_eq}
use text.Mathlib.TextEquality.{eq_iff}
use ino_a9_local_bridge.Base.{ℕ, ◌≡◌, refl, subst, List, [], ◌∷◌, some, Bool, inl, inr}
use ino_a9_local_bridge.Base.Tests.{if◌then◌else◌, Bool-cases, Option-cases}
use ino_a9_local_bridge.Base.Dict.{lookup, string_key}
use ino_a9_local_bridge.Base.Except.{Result, ok, err, os_error}
use ino_a9_local_bridge.Value.{Value, Members, end, get, get_or_null}
use ino_a9_local_bridge.ControlApi.Values.{validated_control_value}
use ino_a9_local_bridge.ControlApi.Values.Idempotent.{validated_control_value-idempotent}
use ino_a9_local_bridge.ControlApi.Store.{
  Controls, ControlStateStore, StateFile, missing, unreadable, readable, retain, retained, restore,
  existing, cameras_in, members_of, persisted_controls, control_state_store,
}
use ino_a9_local_bridge.ControlApi.Store.Restart.{
  IsStored, some-injective, restarted, control_state_store-restarted,
}

IsRetained : Controls → Type 0
IsRetained controls =
    (control : String) (value : Value)
    → lookup control controls ≡ some value
    → validated_control_value control value ≡ ok value

retain-IsRetained :
    (control : String) (v : Value) (r : Result Value) (rest : Controls)
    → validated_control_value control v ≡ r
    → IsRetained rest
    → IsRetained (retain r control rest)
unfolding IsRetained
retain-IsRetained control v (err x) rest e h k value found = h k value found
retain-IsRetained control v (ok v') rest e h k value found = elim (Bool-cases (str_eq control k)) [
  | inl same ↦
      let c : control ≡ k = (eq_iff control k).0 same in
      let v≡ : v' ≡ value = some-injective (rw same at found) in
      subst (λ x. validated_control_value k x ≡ ok x) v≡
        (subst (λ x. validated_control_value x v' ≡ ok v') c
          (validated_control_value-idempotent control v v' e))
  | inr different ↦ h k value (rw different at found)
]

retained-IsRetained : (m : Members) (controls : List String) → IsRetained (retained m controls)
unfolding retained IsRetained
retained-IsRetained m [] k value found = cc
retained-IsRetained m (c ∷ controls) k value found =
    let rest = retained-IsRetained m controls in
    elim (Option-cases (get m c)) [
      | inl n ↦ rest k value (rw (n, retained) at found)
      | inr (v, f) ↦
          retain-IsRetained c v (validated_control_value c v) (retained m controls) refl rest k
            value (rw (f, retained) at found)
    ]

restore-IsRetained :
    (cameras : Members) (ids : List String) (id : String) (controls : Controls)
    → lookup id (restore cameras ids) ≡ some controls
    → IsRetained controls
unfolding restore
restore-IsRetained cameras [] id controls e = cc
restore-IsRetained cameras (i ∷ ids) id controls e = elim (Bool-cases (str_eq i id)) [
  | inl same ↦
      subst IsRetained (some-injective (rw same at e))
        (retained-IsRetained (members_of (get_or_null cameras i)) persisted_controls)
  | inr different ↦ restore-IsRetained cameras ids id controls (rw different at e)
]

-- How a start on a file ends.
unfoldable pub Begins : (ℕ → Bool) → StateFile → Result ControlStateStore → Type 0
Begins disk (unreadable e) r = r ≡ err e
Begins disk _ r =
    (s : ControlStateStore) × IsStored s × (r ≡ (if disk 0 then ok s else err os_error))

readable-Begins :
    (disk : ℕ → Bool) (file : StateFile) (cameras : Members) (ids : List String)
    → existing file ≡ ok cameras
    → (s : ControlStateStore) × IsStored s
      × (control_state_store disk file ids ≡ (if disk 0 then ok s else err os_error))
unfolding IsRetained
readable-Begins disk file cameras ids e = (
  restarted disk cameras ids,
  record {
    saved = refl;
    valid = λ id control controls value in_state in_controls.
        restore-IsRetained cameras ids id controls in_state control value in_controls;
  },
  control_state_store-restarted disk file cameras ids e,
)

-- A store begins on every file that is missing or can be read, a JSON of any shape or none, unless
-- the disk refuses its first write: with valid values only, all of them written back. Where the file
-- is there and cannot be read, as a file that is no UTF-8, the start raises the error of the reading.
pub control_state_store-Begins :
    (disk : ℕ → Bool) (file : StateFile) (ids : List String)
    → Begins disk file (control_state_store disk file ids)
unfolding Begins control_state_store
control_state_store-Begins disk missing ids = readable-Begins disk missing end ids refl
control_state_store-Begins disk (unreadable e) ids = refl
control_state_store-Begins disk (readable raw) ids =
    readable-Begins disk (readable raw) (cameras_in raw) ids refl
