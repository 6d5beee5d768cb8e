-- ===== src/CameraState/Audio.antt =====
-- A listener that polls in time hears every chunk once and in order.
use ino_a9_local_bridge.Base.{
  ℕ, ◌+◌, ◌-◌, ◌≤◌, ◌<◌, ◌≡◌, zero, suc, refl, sym, ap, ap₂, ◌∙◌, List, [], ◌∷◌, ◌++◌, append-nil,
  append_assoc, some, arith,
}
use ino_a9_local_bridge.Base.Tests.{lt→ltb, le→ltb, lt→leb}
use ino_a9_local_bridge.Base.Lists.{
  length, drop, length-append, length-drop, drop-append, drop-drop,
}
use ino_a9_local_bridge.Base.Except.{ok}
use ino_a9_local_bridge.CameraState.{
  CameraState, Chunk, max_audio_chunks, publish_audio, audio_cursor, chunks_after, wait_for_audio,
}

-- The chunks under their numbers, from a first number on.
abbrev pub numbered : ℕ → List (List ℕ) → List Chunk
numbered n [] = []
numbered n (chunk ∷ chunks) = (n, chunk) ∷ numbered (n + 1) chunks

-- Numbers in the buffer never pass the last one given out, and the buffer is bounded.
abbrev pub AreBelow : ℕ → List Chunk → Type 0
AreBelow n [] = Unit
AreBelow n ((item_id, chunk) ∷ chunks) = (item_id ≤ n) × AreBelow n chunks

pub record IsState (s : CameraState) : Type 0 where
  pub bounded : length s.audio_chunks ≤ max_audio_chunks
  pub below : AreBelow s.audio_id s.audio_chunks

-- Chunks published in turn, each with the clock's reading.
unfoldable pub publish_all : ℕ → List (List ℕ) → CameraState → CameraState
publish_all now [] s = s
publish_all now (chunk ∷ chunks) s = publish_all now chunks (publish_audio now chunk s)

AreBelow-drop : (n k : ℕ) (cs : List Chunk) → AreBelow n cs → AreBelow n (drop k cs)
AreBelow-drop n zero cs h = h
AreBelow-drop n (suc k) [] h = tt
AreBelow-drop n (suc k) (c ∷ cs) (h, hs) = AreBelow-drop n k cs hs

AreBelow-append :
    (n m : ℕ) (cs : List Chunk) (chunk : List ℕ)
    → n ≤ m
    → AreBelow n cs
    → AreBelow m (cs ++ ((m, chunk) ∷ []))
AreBelow-append n m [] chunk h hs = (omega arith, tt)
AreBelow-append n m ((i, c) ∷ cs) chunk h (hi, hs) =
    (omega arith, AreBelow-append n m cs chunk h hs)

-- `publish_audio` keeps the buffer within its 128 chunks, and its numbers at most the last given.
pub publish_audio-IsState :
    (now : ℕ) (chunk : List ℕ) (s : CameraState) → IsState s → IsState (publish_audio now chunk s)
unfolding publish_audio
publish_audio-IsState now chunk s h =
    let grown = s.audio_chunks ++ ((s.audio_id + 1, chunk) ∷ []) in
    record {
      bounded = omega (arith, length-drop (length grown - 128) grown);
      below =
          AreBelow-drop (s.audio_id + 1) _ grown (
            AreBelow-append s.audio_id (s.audio_id + 1) s.audio_chunks chunk (omega arith) h.below);
    }

publish_all-audio_id :
    (now : ℕ) (cs : List (List ℕ)) (s : CameraState)
    → (publish_all now cs s).audio_id ≡ s.audio_id + length cs
unfolding publish_all publish_audio
publish_all-audio_id now [] s = omega arith
publish_all-audio_id now (chunk ∷ cs) s =
    publish_all-audio_id now cs (publish_audio now chunk s) ∙ omega arith

-- What remains of the old chunks when few enough new ones come.
publish_all-chunks :
    (now : ℕ) (cs : List (List ℕ)) (s : CameraState) (old new : List Chunk)
    → s.audio_chunks ≡ old ++ new
    → length new + length cs ≤ max_audio_chunks
    → (k : ℕ) × ((publish_all now cs s).audio_chunks
        ≡ drop k old ++ (new ++ numbered (s.audio_id + 1) cs))
unfolding publish_all publish_audio
publish_all-chunks now [] s old new e l = (0, e ∙ ap (λ r. old ++ r) (sym (append-nil new)))
publish_all-chunks now (chunk ∷ cs) s old new e l =
    let item : Chunk = (s.audio_id + 1, chunk) in
    let grown = s.audio_chunks ++ (item ∷ []) in
    let n = length grown - max_audio_chunks in
    let here : grown ≡ old ++ (new ++ (item ∷ [])) =
      ap (λ r. r ++ (item ∷ [])) e ∙ append_assoc old new (item ∷ []) in
    let short : n ≤ length old = omega (
      arith,
      ap length here,
      length-append old (new ++ (item ∷ [])),
      length-append new (item ∷ []),
    ) in
    let dropped : drop n grown ≡ drop n old ++ (new ++ (item ∷ [])) =
      ap (drop n) here ∙ drop-append n old (new ++ (item ∷ [])) short in
    let few : length (new ++ (item ∷ [])) + length cs ≤ max_audio_chunks =
      omega (arith, length-append new (item ∷ [])) in
    let (k, rest) =
      publish_all-chunks now cs (publish_audio now chunk s) (drop n old) (new ++ (item ∷ []))
        dropped few in
    (
      n + k,
      rest
          ∙ ap₂ (λ a b. a ++ b) (drop-drop n k old)
              (append_assoc new (item ∷ []) (numbered (s.audio_id + 1 + 1) cs)),
    )

chunks_after-append :
    (after : ℕ) (xs ys : List Chunk)
    → AreBelow after xs
    → chunks_after after (xs ++ ys) ≡ chunks_after after ys
chunks_after-append after [] ys h = refl
chunks_after-append after ((i, chunk) ∷ xs) ys (h, hs) =
    rw (le→ltb after i h) (chunks_after-append after xs ys hs)

chunks_after-numbered :
    (after n : ℕ) (cs : List (List ℕ))
    → after < n
    → chunks_after after (numbered n cs) ≡ numbered n cs
chunks_after-numbered after n [] h = refl
chunks_after-numbered after n (chunk ∷ cs) h =
    rw (lt→ltb after n h)
      (ap (λ r. (n, chunk) ∷ r) (chunks_after-numbered after (n + 1) cs (omega arith)))

-- If one to 128 chunks were published since the cursor was taken, on a state within its bounds, a
-- wait from the cursor returns exactly these chunks, in order and under consecutive numbers.
pub wait_for_audio-publish_all :
    (now deadline at : ℕ) (cs : List (List ℕ)) (s : CameraState) (rounds : List (CameraState × ℕ))
    → IsState s
    → 0 < length cs
    → length cs ≤ max_audio_chunks
    → wait_for_audio (audio_cursor s) deadline ((publish_all now cs s, at) ∷ rounds)
      ≡ ok (some (numbered (audio_cursor s + 1) cs))
unfolding wait_for_audio audio_cursor
wait_for_audio-publish_all now deadline at cs s rounds h pos few =
    let id = publish_all-audio_id now cs s in
    let (k, chunks) =
      publish_all-chunks now cs s s.audio_chunks [] (sym (append-nil _)) (omega arith) in
    let heard : chunks_after s.audio_id (publish_all now cs s).audio_chunks
        ≡ numbered (s.audio_id + 1) cs =
      ap (chunks_after s.audio_id) chunks
      ∙ chunks_after-append s.audio_id (drop k s.audio_chunks) (numbered (s.audio_id + 1) cs)
          (AreBelow-drop s.audio_id k s.audio_chunks h.below)
      ∙ chunks_after-numbered s.audio_id (s.audio_id + 1) cs (omega arith) in
    rw (lt→leb (publish_all now cs s).audio_id s.audio_id (omega arith))
      (ap (λ r. ok (some r)) heard)
