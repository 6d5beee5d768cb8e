-- ===== src/ControlApi/Store.antt =====
-- `ControlStateStore` of ino_a9_bridge/src/wificam_bridge/control_api.py: the last values that the
-- cameras took, kept in a file over restarts.
pub mod Writes
pub mod Restart
pub mod Initial
use Prim.Native.String.{String}
use text.Mathlib.Text.{◌==◌ as str_eq}
use ino_a9_local_bridge.Base.{ℕ, ◌+◌, List, [], ◌∷◌, Option, none, some, Bool, true, false}
use ino_a9_local_bridge.Base.Tests.{if◌then◌else◌}
use ino_a9_local_bridge.Base.Dict.{Dict, lookup, insert, string_key}
use ino_a9_local_bridge.Base.Int.{pos}
use ino_a9_local_bridge.Base.Except.{Exception, Result, ok, err, lookup_error, os_error, ◌>>=◌}
use ino_a9_local_bridge.Value.{Value, Members, object, int, end, member, get, get_or_null}
use ino_a9_local_bridge.ControlApi.Values.{validated_control_value}

abbrev pub persisted_controls : List String
persisted_controls = "led" ∷ "night_vision" ∷ "flip" ∷ "video_quality" ∷ "motion" ∷ "intrusion" ∷ []

-- The values of a camera's controls.
abbrev pub Controls : Type 0
Controls = Dict String Value

-- A state file: missing, or with a text that `read_text` cannot read, for which it raises (a
-- `UnicodeDecodeError` is a `ValueError`), or with a text, none if it is no JSON.
pub data StateFile : Type 0 where
  missing : StateFile
  unreadable : Exception → StateFile
  readable : Option Value → StateFile

-- `_state`, what the file holds, and the disk: whether it takes the write of that number, and how
-- many it was asked for.
pub record ControlStateStore : Type 0 where
  pub state : Dict String Controls
  pub file : StateFile
  pub disk : ℕ → Bool
  pub writes : ℕ

abbrev pub controls_object : Controls → Members
controls_object [] = end
controls_object ((control, value) ∷ rest) = member control value (controls_object rest)

abbrev pub cameras_object : Dict String Controls → Members
cameras_object [] = end
cameras_object ((camera_id, controls) ∷ rest) =
    member camera_id (object (controls_object controls)) (cameras_object rest)

-- The file that holds a state.
abbrev pub file_of : Dict String Controls → StateFile
file_of state = readable (
    some (
      object
        (member "version" (int (pos 1)) (member "cameras" (object (cameras_object state)) end))))

-- `_write`: the new file takes the place of the old one in one step, or the old one is left.
unfoldable pub write : ControlStateStore → ControlStateStore × Result (Unit {0})
write s =
    if s.disk s.writes
    then (record s { file = file_of s.state; writes = s.writes + 1 }, ok tt)
    else (record s { writes = s.writes + 1 }, err os_error)

abbrev pub members_of : Value → Members
members_of (object members) = members
members_of _ = end

-- `raw["cameras"]` if both are dicts, else no members.
abbrev pub cameras_in : Option Value → Members
cameras_in none = end
cameras_in (some raw) = members_of (get_or_null (members_of raw) "cameras")

-- `existing`: a missing file and one that is no JSON are passed over, any other error is raised.
abbrev pub existing : StateFile → Result Members
existing missing = ok end
existing (unreadable e) = err e
existing (readable raw) = ok (cameras_in raw)

-- A control that is there and passes the validation is retained.
abbrev pub retain : Result Value → String → Controls → Controls
retain (ok value) control rest = (control, value) ∷ rest
retain (err e) control rest = rest

unfoldable pub retained : Members → List String → Controls
retained camera_values [] = []
retained camera_values (control ∷ controls) =
    let rest = retained camera_values controls in
    elim (get camera_values control) [
      | none ↦ rest
      | some value ↦ retain (validated_control_value control value) control rest
    ]

unfoldable pub restore : Members → List String → Dict String Controls
restore cameras [] = []
restore cameras (camera_id ∷ camera_ids) =
    let rest = restore cameras camera_ids in
    (camera_id, retained (members_of (get_or_null cameras camera_id)) persisted_controls) ∷ rest

-- What `__init__` returns behind its `_write`.
abbrev pub begun : ControlStateStore × Result (Unit {0}) → Result ControlStateStore
begun (s, answer) = answer >>= λ _. ok s

-- `__init__` with distinct camera ids.
unfoldable pub control_state_store : (ℕ → Bool) → StateFile → List String → Result ControlStateStore
unfolding write restore
control_state_store disk file camera_ids = do
  cameras ← existing file
  begun
      (write (record { state = restore cameras camera_ids; file = file; disk = disk; writes = 0 }))

-- A camera id that is not there raises `KeyError`.
unfoldable pub values : ControlStateStore → String → Result Controls
values s camera_id = elim (lookup camera_id s.state) [
  | none ↦ err lookup_error
  | some controls ↦ ok controls
]

-- The right hand side of the assignment in `set`, and the dict that it assigns in.
abbrev pub checked : ControlStateStore → String → String → Value → Result (Value × Controls)
checked s camera_id control value = do
  validated ← validated_control_value control value
  controls ← values s camera_id
  ok (validated, controls)

-- `set`: the state has changed before the file is written, and stays changed if that fails.
unfoldable pub set :
    ControlStateStore → String → String → Value → ControlStateStore × Result (Unit {0})
unfolding values write
set s camera_id control value = elim (checked s camera_id control value) [
  | err e ↦ (s, err e)
  | ok (validated, controls) ↦
      write (record s { state = insert camera_id (insert control validated controls) s.state })
]
