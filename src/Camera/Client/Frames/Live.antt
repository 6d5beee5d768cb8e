-- ===== src/Camera/Client/Frames/Live.antt =====
-- A stream that goes on hands frames on, since its deadline for frames only moves with a frame.
use ino_a9_local_bridge.Base.{
  ℕ, zero, suc, ◌+◌, ◌≤◌, ◌<◌, ◌≡◌, refl, ap, subst, ◌∙◌, List, Option, none, some, true, false,
  arith, inl, inr,
}
use ino_a9_local_bridge.Base.Tests.{leb, if◌then◌else◌, Bool-cases}
use ino_a9_local_bridge.Base.Except.{ok, camera_error}
use ino_a9_local_bridge.Crypto.{Primitives}
use ino_a9_local_bridge.Camera.Reassembler.{reassembler}
use ino_a9_local_bridge.Camera.Client.{Settings, World, Client, M, ◌>>=◌, after, raise, ask}
use ino_a9_local_bridge.Camera.Client.Steps.{lift-eq-ok, guard-eq-ok}
use ino_a9_local_bridge.Camera.Client.Frames.{
  Stream, frames_loop, first_stream, stream, stopped, frames_with, frames, max_frame_bytes,
}
use ino_a9_local_bridge.Camera.Client.Frames.Delivered.{stopped-eq-some}
use ino_a9_local_bridge.Camera.Client.Frames.Fair.{frames_in, IsPutOff}
use ino_a9_local_bridge.Camera.Client.Frames.Rounds.{frames_loop-Lives, frames_loop-split}

-- Each call of the world takes a nanosecond at least.
abbrev pub Ticks : World → Type 0
Ticks w = (n : ℕ) → w.monotonic n + 1 ≤ w.monotonic (suc n)

-- So the clock is behind a reading by the calls since.
runs_to : (w : World) → Ticks w → (a b : ℕ) → a ≤ b → w.monotonic a + b ≤ w.monotonic b + a
runs_to w clock a zero below =
    subst (λ x. w.monotonic x + 0 ≤ w.monotonic 0 + x) (zero_below a below) (omega arith)
  where
    zero_below : (a : ℕ) → a ≤ 0 → 0 ≡ a
    zero_below a below = omega (arith, below)
runs_to w clock a (suc b) below = elim (Bool-cases (leb a b)) [
  | inl earlier ↦
      further a b (w.monotonic a) (w.monotonic b) (w.monotonic (suc b))
        (runs_to w clock a b (at_most a b earlier)) (clock b)
  | inr later ↦
      subst (λ x. w.monotonic x + suc b ≤ w.monotonic (suc b) + x) (just a b below later)
        (omega arith)
]
  where
    further : (a b m n o : ℕ) → m + b ≤ n + a → n + 1 ≤ o → m + suc b ≤ o + a
    further a b m n o h step = omega (arith, h, step)

    at_most : (a b : ℕ) → leb a b ≡ true → a ≤ b
    at_most a b e = ground arith

    just : (a b : ℕ) → a ≤ suc b → leb a b ≡ false → suc b ≡ a
    just a b below e = ground (arith, below)

module _ (c : Primitives) (w : World) (st : Settings) where
  module _ (clock : Ticks w) where
    -- As many rounds as the timeout has nanoseconds need a frame.
    window :
        (rounds : ℕ) (v v' : Stream) (s t : Client)
        → 0 < st.frame_timeout
        → st.frame_timeout ≤ rounds
        → IsPutOff w st.frame_timeout v.frame_deadline s
        → frames_loop c w st rounds v s ≡ (t, ok (some v'))
        → frames_in s.outputs < frames_in t.outputs
    window zero v v' s t positive enough off e = absurd (omega (arith, positive, enough))
    window (suc rounds) v v' s t positive enough off e =
        let h = frames_loop-Lives c w st rounds v v' s t e in
        elim h.fair.fair [
          | inl (new, later) ↦ new
          | inr early ↦
              let before : off.read ≤ h.last = omega (arith, off.earlier, h.span, h.ended) in
              absurd (
                omega (
                  arith,
                  early,
                  h.span,
                  h.ended,
                  h.met,
                  enough,
                  off.earlier,
                  off.bound,
                  runs_to w clock off.read h.last before,
                ))
        ]

    -- The stream goes on for the first rounds, and then a frame is handed on.
    pub Fed : (ℕ → M (Option Stream)) → ℕ → Client → Client → Type 0
    Fed run before s t =
        (mid : Client) × (v : Stream) × (run before s ≡ (mid, ok (some v)))
        × (frames_in mid.outputs < frames_in t.outputs)

    stream-Fed :
        (before rounds : ℕ) (prefix : List ℕ) (v : Stream) (s t : Client)
        → 0 < st.frame_timeout
        → st.frame_timeout ≤ rounds
        → stream c w st (before + rounds) prefix s ≡ (t, ok (some v))
        → Fed (λ n. stream c w st n prefix) before s t
    unfolding stream Fed
    stream-Fed before rounds prefix v s t positive enough e =
        let (r, made, e1) = lift-eq-ok (reassembler prefix max_frame_bytes) _ s t (some v) e in
        let s1 = record s { tick = s.tick + 1 + 1 } in
        let first = first_stream c w st r (w.monotonic s.tick) (w.monotonic (s.tick + 1)) in
        let run = stopped-eq-some (frames_loop c w st (before + rounds) first s1) t v e1 in
        let begun : IsPutOff w st.frame_timeout first.frame_deadline s1 = record {
          read = s.tick;
          earlier = omega arith;
          bound = omega arith;
        } in
        let (mid, v1, so_far, behind, off) =
          frames_loop-split c w st before rounds (before + rounds) first v s1 t refl begun run in
        (
          mid,
          v1,
          ap
                (λ x.
                  after (s, x)
                    (λ media. ask w.monotonic >>= λ start. ask w.monotonic >>= λ beat_at. λ u.
                      stopped
                        (frames_loop c w st before (first_stream c w st media start beat_at) u)))
                made
              ∙ ap stopped so_far,
          window rounds v1 v mid t positive enough off behind,
        )

    frames_with-Fed :
        (before rounds : ℕ) (o : Option (List ℕ)) (v : Stream) (s t : Client)
        → 0 < st.frame_timeout
        → st.frame_timeout ≤ rounds
        → frames_with c w st (before + rounds) o s ≡ (t, ok (some v))
        → Fed (λ n. frames_with c w st n o) before s t
    unfolding frames_with Fed
    frames_with-Fed before rounds none v s t positive enough e = cc
    frames_with-Fed before rounds (some prefix) v s t positive enough e =
        let (open_now, run) =
          guard-eq-ok s.is_open (stream c w st (before + rounds) prefix) camera_error s t (some v)
            e in
        let (mid, v1, so_far, new) = stream-Fed before rounds prefix v s t positive enough run in
        (
          mid,
          v1,
          ap (λ b. (if b then stream c w st before prefix else raise camera_error) s) open_now
              ∙ so_far,
          new,
        )

    -- Where each call of the world takes a nanosecond at least and the frame timeout is positive: a
    -- generator `frames` that still goes on after some rounds and, behind them, as many more as the
    -- frame timeout has nanoseconds, has handed on a complete frame in these later rounds. So a camera
    -- that sends anything else, however much, cannot keep the stream going for that many rounds, at
    -- its start or later.
    pub frames_alive :
        (before rounds : ℕ) (v : Stream) (s t : Client)
        → 0 < st.frame_timeout
        → st.frame_timeout ≤ rounds
        → frames c w st (before + rounds) s ≡ (t, ok (some v))
        → Fed (frames c w st) before s t
    unfolding frames Fed
    frames_alive before rounds v s t = frames_with-Fed before rounds s.session_prefix v s t
