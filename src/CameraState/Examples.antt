-- ===== src/CameraState/Examples.antt =====
-- A listener that comes in at the start and polls after two chunks.
use ino_a9_local_bridge.Base.{ℕ, ◌+◌, ◌≡◌, List, [], ◌∷◌, some, arith}
use ino_a9_local_bridge.Base.Except.{ok}
use ino_a9_local_bridge.CameraState.{new_state, audio_cursor, wait_for_audio}
use ino_a9_local_bridge.CameraState.Audio.{
  IsState, numbered, publish_all, wait_for_audio-publish_all,
}

abbrev two_chunks : List (List ℕ)
two_chunks = (1 ∷ 2 ∷ []) ∷ (3 ∷ []) ∷ []

new_state-IsState : IsState new_state
new_state-IsState = record { bounded = omega arith; below = tt }

wait_for_audio-publish_all_example :
    wait_for_audio (audio_cursor new_state) 50 ((publish_all 10 two_chunks new_state, 11) ∷ [])
    ≡ ok (some (numbered (audio_cursor new_state + 1) two_chunks))
wait_for_audio-publish_all_example =
    wait_for_audio-publish_all 10 50 11 two_chunks new_state [] new_state-IsState (omega arith)
      (omega arith)
