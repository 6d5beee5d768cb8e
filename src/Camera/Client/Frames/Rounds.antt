-- ===== src/Camera/Client/Frames/Rounds.antt =====
-- The rounds of `frames` that go on, with their deadline for frames.
use ino_a9_local_bridge.Base.{
  ℕ, zero, suc, ◌+◌, ◌≤◌, ◌<◌, ◌≡◌, refl, ap, subst, ◌∙◌, List, none, some, Bool, true, false, ◌||◌,
  arith, inl, inr,
}
use ino_a9_local_bridge.Base.Tests.{leb, if◌then◌else◌}
use ino_a9_local_bridge.Base.Except.{ok, timeout_error, ok-injective}
use ino_a9_local_bridge.Crypto.{Primitives}
use ino_a9_local_bridge.Packet.{Packet}
use ino_a9_local_bridge.Camera.Client.{Settings, World, Client, M, ◌>>=◌, after, pure, raise, ask}
use ino_a9_local_bridge.Camera.Client.Steps.{after-eq-ok, Keeps-at, ask-Keeps}
use ino_a9_local_bridge.Camera.Client.Frames.{
  Stream, handle_packets, next_packets, activity, beat, treat, round, frames_loop,
}
use ino_a9_local_bridge.Camera.Client.Frames.Delivered.{goes_on, some-injective}
use ino_a9_local_bridge.Camera.Client.Frames.Fair.{
  Grows-IsWritten, IsPutOff, Fair, Fair-chain, Fair-Grows, Fairly, >>=-Fairly,
}
use ino_a9_local_bridge.Camera.Client.Frames.Treats.{
  activity-Fairly, handle_packets-Fairly, heartbeat-Fairly, next_packets-Keeps,
}

-- A round that goes on has met its deadline at its end.
record Treated (w : World) (timeout d d' : ℕ) (s t : Client) : Type 0 where
  fair : Fair w timeout d d' s t
  last : ℕ
  ended : t.tick ≡ last + 1
  met : w.monotonic last < d'
  strict : s.tick + 1 ≤ t.tick

expired :
    (early late : Bool) (v v' : Stream) (s t : Client)
    → (if early || late then raise timeout_error else pure v) s ≡ (t, ok v')
    → (late ≡ false) × (s ≡ t) × (v ≡ v')
expired false false v v' s t e = (refl, ap (λ x. x.0) e, ok-injective (ap (λ x. x.1) e))
expired false true v v' s t e = cc
expired true late v v' s t e = cc

not_late : (d end : ℕ) → leb d end ≡ false → end < d
not_late d end e = ground arith

module _ (c : Primitives) (w : World) (st : Settings) where
  treat-Treated :
      (v v' : Stream) (ps : List Packet) (s t : Client)
      → treat c w st v ps s ≡ (t, ok v')
      → Treated w st.frame_timeout v.frame_deadline v'.frame_deadline s t
  unfolding treat
  treat-Treated v v' ps s t e =
      let (a, s1, first, e1) = after-eq-ok (activity c w st v ps s) _ t v' e in
      let (v1, s2, second_call, e2) = after-eq-ok (handle_packets c w st a ps s1) _ t v' e1 in
      let end = w.monotonic s2.tick in
      let s3 = record s2 { tick = s2.tick + 1 } in
      let (in_time, state, same) =
        expired (leb v1.activity_deadline end) (leb v1.frame_deadline end) v1 v' s3 t e2 in
      let h = (activity-Fairly c w st v ps).fairly s s1 a first in
      let k = (handle_packets-Fairly c w st a ps).fairly s1 s2 v1 second_call in
      let f = Fair-chain v.frame_deadline a.frame_deadline v1.frame_deadline s s1 s2 h k in
      let now : Treated w st.frame_timeout v.frame_deadline v1.frame_deadline s s3 = record {
        fair =
            Fair-chain v.frame_deadline v1.frame_deadline v1.frame_deadline s s2 s3 f
              (Fair-Grows v1.frame_deadline s2 s3 (Grows-IsWritten.ticks s2));
        last = s2.tick;
        ended = refl;
        met = not_late v1.frame_deadline end in_time;
        strict = omega (arith, f.grows.ticks);
      } in
      subst (λ x. Treated w st.frame_timeout v.frame_deadline x.frame_deadline s t) same
        (subst (Treated w st.frame_timeout v.frame_deadline v1.frame_deadline s) state now)

  beat-Fairly : (v : Stream) → Fairly w st.frame_timeout v.frame_deadline (beat c w st v)
  unfolding beat
  beat-Fairly v =
      >>=-Fairly v.frame_deadline (ask w.monotonic) _ (ask-Keeps Grows-IsWritten w.monotonic)
        λ now. heartbeat-Fairly c w st now v

  round-Treated :
      (v v' : Stream) (s t : Client)
      → round c w st v s ≡ (t, ok v')
      → Treated w st.frame_timeout v.frame_deadline v'.frame_deadline s t
  unfolding round
  round-Treated v v' s t e =
      let (b, s1, first, e1) = after-eq-ok (beat c w st v s) _ t v' e in
      let (hand, s2, second_call, e2) = after-eq-ok (next_packets c w st b s1) _ t v' e1 in
      let f = (beat-Fairly v).fairly s s1 b first in
      let grown = Keeps-at s1 s2 (ok hand) (next_packets-Keeps c w st b) second_call in
      let h = treat-Treated b v' hand s2 t e2 in
      let one =
        Fair-chain v.frame_deadline b.frame_deadline b.frame_deadline s s1 s2 f
          (Fair-Grows b.frame_deadline s1 s2 grown) in
      record {
        fair = Fair-chain v.frame_deadline b.frame_deadline v'.frame_deadline s s2 t one h.fair;
        last = h.last;
        ended = h.ended;
        met = h.met;
        strict = omega (arith, h.strict, one.grows.ticks);
      }

  -- Rounds that go on: each takes time, and the last has met the deadline.
  pub record Lives (d d' rounds : ℕ) (s t : Client) : Type 0 where
    pub fair : Fair w st.frame_timeout d d' s t
    pub span : s.tick + rounds ≤ t.tick
    pub last : ℕ
    pub ended : t.tick ≡ last + 1
    pub met : w.monotonic last < d'

  loop_ended :
      (v v' : Stream) (s t : Client)
      → frames_loop c w st zero v s ≡ (t, ok (some v'))
      → (s ≡ t) × (v ≡ v')
  unfolding frames_loop
  loop_ended v v' s t e = (ap (λ x. x.0) e, some-injective (ok-injective (ap (λ x. x.1) e)))

  -- A round, and the rounds behind it.
  round_first :
      (rounds : ℕ) (v v' : Stream) (s t : Client)
      → frames_loop c w st (suc rounds) v s ≡ (t, ok (some v'))
      → (v1 : Stream) × (s1 : Client) × (round c w st v s ≡ (s1, ok v1))
        × (frames_loop c w st rounds v1 s1 ≡ (t, ok (some v')))
  unfolding frames_loop
  round_first rounds v v' s t e =
      after-eq-ok (round c w st v s) _ t (some v') (goes_on s.is_open _ s t v' e)

  pub frames_loop-Lives :
      (rounds : ℕ) (v v' : Stream) (s t : Client)
      → frames_loop c w st (suc rounds) v s ≡ (t, ok (some v'))
      → Lives v.frame_deadline v'.frame_deadline (suc rounds) s t
  frames_loop-Lives zero v v' s t e =
      let (v1, s1, first, rest) = round_first zero v v' s t e in
      let one = round-Treated v v1 s s1 first in
      let (state, same) = loop_ended v1 v' s1 t rest in
      let now : Lives v.frame_deadline v1.frame_deadline 1 s s1 = record {
        fair = one.fair;
        span = one.strict;
        last = one.last;
        ended = one.ended;
        met = one.met;
      } in
      subst (λ x. Lives v.frame_deadline x.frame_deadline 1 s t) same
        (subst (Lives v.frame_deadline v1.frame_deadline 1 s) state now)
  frames_loop-Lives (suc rounds) v v' s t e =
      let (v1, s1, first, rest) = round_first (suc rounds) v v' s t e in
      let one = round-Treated v v1 s s1 first in
      let more = frames_loop-Lives rounds v1 v' s1 t rest in
      record {
        fair =
            Fair-chain v.frame_deadline v1.frame_deadline v'.frame_deadline s s1 t one.fair
              more.fair;
        span = omega (arith, one.strict, more.span);
        last = more.last;
        ended = more.ended;
        met = more.met;
      }

  -- A deadline stays the timeout behind a reading at most.
  IsPutOff-Fair :
      (d d' : ℕ) (s t : Client)
      → IsPutOff w st.frame_timeout d s
      → Fair w st.frame_timeout d d' s t
      → IsPutOff w st.frame_timeout d' t
  IsPutOff-Fair d d' s t off h = elim h.fair [
    | inl (new, later) ↦ later
    | inr early ↦ record {
      read = off.read;
      earlier = omega (arith, off.earlier, h.grows.ticks);
      bound = omega (arith, off.bound, early);
    }
  ]

  -- Rounds that go on, cut in two.
  pub frames_loop-split :
      (before rounds total : ℕ) (v v' : Stream) (s t : Client)
      → total ≡ before + rounds
      → IsPutOff w st.frame_timeout v.frame_deadline s
      → frames_loop c w st total v s ≡ (t, ok (some v'))
      → (mid : Client) × (v1 : Stream) × (frames_loop c w st before v s ≡ (mid, ok (some v1)))
        × (frames_loop c w st rounds v1 mid ≡ (t, ok (some v')))
        × IsPutOff w st.frame_timeout v1.frame_deadline mid
  unfolding frames_loop
  frames_loop-split zero rounds total v v' s t sum off e =
      let all : total ≡ rounds = omega (arith, sum) in
      (s, v, refl, subst (λ n. frames_loop c w st n v s ≡ (t, ok (some v'))) all e, off)
  frames_loop-split (suc before) rounds zero v v' s t sum off e = absurd (omega (arith, sum))
  frames_loop-split (suc before) rounds (suc total) v v' s t sum off e =
      let (open_now, run) = loop_goes s.is_open (round c w st v) total e in
      let (v1, s1, first, rest) = after-eq-ok (round c w st v s) _ t (some v') run in
      let one = round-Treated v v1 s s1 first in
      let (mid, v2, so_far, behind, later) =
        frames_loop-split before rounds total v1 v' s1 t (omega (arith, sum))
          (IsPutOff-Fair v.frame_deadline v1.frame_deadline s s1 off one.fair) rest in
      (
        mid,
        v2,
        ap (λ b. (if b then (round c w st v >>= λ x. frames_loop c w st before x) else pure none) s)
              open_now
            ∙ ap (λ r. after r (λ x. frames_loop c w st before x)) first
            ∙ so_far,
        behind,
        later,
      )
    where
      loop_goes :
          (b : Bool) (m : M Stream) (n : ℕ)
          → (if b then (m >>= λ x. frames_loop c w st n x) else pure none) s ≡ (t, ok (some v'))
          → (b ≡ true) × (after (m s) (λ x. frames_loop c w st n x) ≡ (t, ok (some v')))
      loop_goes true m n e = (refl, e)
      loop_goes false m n e = cc
