-- ===== src/CameraState.antt =====
-- `CameraState` of ino_a9_bridge/src/wificam_bridge/bridge.py: the latest image and the recent audio
-- of a camera, which the HTTP threads wait for. A method runs under the lock, so it is one step.
pub mod Audio
pub mod Examples
use Prim.Native.String.{String}
use ino_a9_local_bridge.Base.{
  ℕ, ◌+◌, ◌-◌, suc, List, [], ◌∷◌, ◌++◌, Option, none, some, Bool, true, false, not, ◌&&◌, ◌||◌,
}
use ino_a9_local_bridge.Base.Tests.{ltb, leb, ◌==◌, if◌then◌else◌}
use ino_a9_local_bridge.Base.Lists.{length, drop, is_empty}
use ino_a9_local_bridge.Base.Except.{Result, ok, err, out_of_fuel}

abbrev pub max_audio_chunks : ℕ
max_audio_chunks = 128

-- A chunk of audio with its number.
abbrev pub Chunk : Type 0
Chunk = ℕ × List ℕ

-- A time is a reading of the clock, counted in its ticks.
pub record CameraState : Type 0 where
  pub frame : Option (List ℕ)
  pub frame_id : ℕ
  pub audio_chunks : List Chunk
  pub audio_id : ℕ
  pub connected : Bool
  pub last_frame_at : Option ℕ
  pub last_audio_at : Option ℕ
  pub error : Option String

-- `__init__`
abbrev pub new_state : CameraState
new_state = record {
  frame = none;
  frame_id = 0;
  audio_chunks = [];
  audio_id = 0;
  connected = false;
  last_frame_at = none;
  last_audio_at = none;
  error = none;
}

pub set_connected : Bool → Option String → CameraState → CameraState
set_connected connected error s = record s { connected = connected; error = error }

pub publish : ℕ → List ℕ → CameraState → CameraState
publish now frame s = record s {
  frame = some frame;
  frame_id = s.frame_id + 1;
  connected = true;
  error = none;
  last_frame_at = some now;
}

-- A `deque` with `maxlen` gives up its first items for the new one.
abbrev pub keep_last {ℓ} : {A : Type ℓ} → ℕ → List A → List A
keep_last n xs = drop (length xs - n) xs

pub publish_audio : ℕ → List ℕ → CameraState → CameraState
publish_audio now chunk s =
    let audio_id = s.audio_id + 1 in
    record s {
      audio_id = audio_id;
      audio_chunks = keep_last max_audio_chunks (s.audio_chunks ++ ((audio_id, chunk) ∷ []));
      last_audio_at = some now;
    }

pub audio_cursor : CameraState → ℕ
audio_cursor s = s.audio_id

-- `[(item_id, chunk) for … if item_id > after]`
abbrev pub chunks_after : ℕ → List Chunk → List Chunk
chunks_after after [] = []
chunks_after after ((item_id, chunk) ∷ chunks) =
    let rest = chunks_after after chunks in
    if ltb after item_id then (item_id, chunk) ∷ rest else rest

-- What a round of `wait_for_frame` sees: the state under the lock, and the clock.
abbrev pub Rounds : Type 0
Rounds = List (CameraState × ℕ)

-- `wait_for_frame`, over the rounds that its waiting makes.
pub wait_for_frame : ℕ → ℕ → Rounds → Result (Option (ℕ × List ℕ))
wait_for_frame after deadline [] = err out_of_fuel
wait_for_frame after deadline ((s, now) ∷ rounds) =
    let later = wait_for_frame after deadline rounds in
    elim s.frame [
      | none ↦ if leb deadline now then ok none else later
      | some frame ↦
          if s.frame_id == after
          then (if leb deadline now then ok none else later)
          else ok (some (s.frame_id, frame))
    ]

pub wait_for_audio : ℕ → ℕ → Rounds → Result (Option (List Chunk))
wait_for_audio after deadline [] = err out_of_fuel
wait_for_audio after deadline ((s, now) ∷ rounds) =
    let later = wait_for_audio after deadline rounds in
    if leb s.audio_id after
    then (if leb deadline now then ok none else later)
    else ok (some (chunks_after after s.audio_chunks))

pub record Status : Type 0 where
  pub connected : Bool
  pub has_frame : Bool
  pub has_audio : Bool
  pub last_frame_at : Option ℕ
  pub last_audio_at : Option ℕ
  pub error : Option String

-- `max(activity_times, default=None)`
abbrev pub latest : Option ℕ → Option ℕ → Option ℕ
latest none b = b
latest (some a) none = some a
latest (some a) (some b) = if ltb a b then some b else some a

abbrev pub within : ℕ → ℕ → Option ℕ → Bool
within grace now none = false
within grace now (some at) = leb now (at + grace)

abbrev pub is_some {ℓ} : {A : Type ℓ} → Option A → Bool
is_some none = false
is_some (some a) = true

-- `status`, with `RECENT_ACTIVITY_GRACE_SECONDS` in ticks as the first argument.
pub status : ℕ → ℕ → CameraState → Status
status grace now s = record {
  connected = s.connected || within grace now (latest s.last_frame_at s.last_audio_at);
  has_frame = is_some s.frame;
  has_audio = not (is_empty s.audio_chunks);
  last_frame_at = s.last_frame_at;
  last_audio_at = s.last_audio_at;
  error = s.error;
}
