-- ===== src/Camera/Client/Frames/Fair.antt =====
-- Rules for methods that treat a deadline fairly: it moves only with a frame.
use ino_a9_local_bridge.Base.{
  ℕ, suc, ◌+◌, ◌≤◌, ◌<◌, ◌≡◌, ap, subst, List, [], ◌∷◌, ◌++◌, Option, none, some, Bool, true, false,
  arith, ◌⊎◌, inl, inr,
}
use ino_a9_local_bridge.Base.Tests.{if◌then◌else◌}
use ino_a9_local_bridge.Base.Except.{Exception, ok, ok-injective}
use ino_a9_local_bridge.Camera.Client.{
  World, Client, Output, audio, frame, M, ◌>>=◌, pure, raise, modify,
}
use ino_a9_local_bridge.Camera.Client.Steps.{
  after-eq-ok, IsWritten, IsKept, Keeps, Keeps-at, pure-Keeps, raise-Keeps,
}
use ino_a9_local_bridge.Camera.Client.Frames.{Stream, consumed}

-- How many frames there are among what was handed on.
abbrev pub frames_in : List Output → ℕ
frames_in [] = 0
frames_in (frame image ∷ outputs) = suc (frames_in outputs)
frames_in (audio chunk ∷ outputs) = frames_in outputs

pub frames_in-append : (a b : List Output) → frames_in (a ++ b) ≡ frames_in a + frames_in b
frames_in-append [] b = omega arith
frames_in-append (frame image ∷ a) b = omega (arith, frames_in-append a b)
frames_in-append (audio chunk ∷ a) b = frames_in-append a b

-- Time passes, and nothing that was handed on is taken back.
pub record Grows (s t : Client) : Type 0 where
  pub ticks : s.tick ≤ t.tick
  pub more : frames_in s.outputs ≤ frames_in t.outputs

pub Grows-IsKept : IsKept Grows
Grows-IsKept = record {
  written = record {
    same = λ s. record { ticks = omega arith; more = omega arith };
    chain = λ s t u h k. record {
      ticks = omega (arith, h.ticks, k.ticks);
      more = omega (arith, h.more, k.more);
    };
    ticks = λ s. record { ticks = omega arith; more = omega arith };
    writes = λ s sent. record { ticks = omega arith; more = omega arith };
  };
  hears = λ s bytes. record { ticks = omega arith; more = omega arith };
  buffers = λ s bytes. record { ticks = omega arith; more = omega arith };
  queues = λ s ps. record { ticks = omega arith; more = omega arith };
}

abbrev pub Grows-IsWritten : IsWritten Grows
Grows-IsWritten = Grows-IsKept.written

pub handing-Keeps :
    (output : Output) → Keeps Grows (modify λ s. record s { outputs = s.outputs ++ (output ∷ []) })
handing-Keeps output = record {
  keeps = λ s. record {
    ticks = omega arith;
    more = omega (arith, frames_in-append s.outputs (output ∷ []));
  };
}

pub consumed-Keeps : (raised : Option Exception) → Keeps Grows (consumed raised)
consumed-Keeps none = pure-Keeps Grows-IsWritten tt
consumed-Keeps (some e) = raise-Keeps Grows-IsWritten e

-- A deadline that is at most a reading of the clock and the timeout, the reading done before `t`.
pub record IsPutOff (w : World) (timeout d : ℕ) (t : Client) : Type 0 where
  pub read : ℕ
  pub earlier : read < t.tick
  pub bound : d ≤ w.monotonic read + timeout

-- A deadline that was `d` and is `d'`: it was only put off if a frame was handed on, and then by the
-- timeout from a reading of the clock on.
pub record Fair (w : World) (timeout d d' : ℕ) (s t : Client) : Type 0 where
  pub grows : Grows s t
  pub fair : ((frames_in s.outputs < frames_in t.outputs) × IsPutOff w timeout d' t) ⊎ (d' ≤ d)

pub Fair-chain :
    {w : World} {timeout : ℕ} (d d' d'' : ℕ) (s t u : Client)
    → Fair w timeout d d' s t
    → Fair w timeout d' d'' t u
    → Fair w timeout d d'' s u
Fair-chain d d' d'' s t u h k = record {
  grows = Grows-IsWritten.chain s t u h.grows k.grows;
  fair = elim h.fair [
    | inl (new, off) ↦ elim k.fair [
      | inl (newer, later) ↦ inl (omega (arith, new, k.grows.more), later)
      | inr early ↦ inl (
        omega (arith, new, k.grows.more),
        record {
          read = off.read;
          earlier = omega (arith, off.earlier, k.grows.ticks);
          bound = omega (arith, off.bound, early);
        },
      )
    ]
    | inr early ↦ elim k.fair [
      | inl (new, off) ↦ inl (omega (arith, new, h.grows.more), off)
      | inr earlier ↦ inr (omega (arith, early, earlier))
    ]
  ];
}

pub Fair-Grows :
    {w : World} {timeout : ℕ} (d : ℕ) (s t : Client) → Grows s t → Fair w timeout d d s t
Fair-Grows d s t h = record { grows = h; fair = inr (omega arith) }

-- A method that returns a stream and treats its deadline for frames so.
pub record Fairly (w : World) (timeout d : ℕ) (m : M Stream) : Type 0 where
  pub fairly : (s t : Client) (v : Stream) → m s ≡ (t, ok v) → Fair w timeout d v.frame_deadline s t

pub pure-Fairly :
    {w : World} {timeout : ℕ} (v : Stream) → Fairly w timeout v.frame_deadline (pure v)
pure-Fairly {w = w} {timeout = timeout} v = record {
  fairly = λ s t v' e.
      let state : s ≡ t = ap (λ x. x.0) e in
      let same : v ≡ v' = ok-injective (ap (λ x. x.1) e) in
      subst (λ x. Fair w timeout v.frame_deadline x.frame_deadline s t) same
        (subst (Fair w timeout v.frame_deadline v.frame_deadline s) state
          (Fair-Grows v.frame_deadline s s (Grows-IsWritten.same s)));
}

pub raise-Fairly : {w : World} {timeout : ℕ} (d : ℕ) (x : Exception) → Fairly w timeout d (raise x)
raise-Fairly d x = record { fairly = λ s t v e. absurd (raised s t v e) }
  where
    raised : (s t : Client) (v : Stream) → (let m : M Stream = raise x in m s) ≡ (t, ok v) → ⊥
    raised s t v e = cc

pub >>=-Fairly :
    {w : World} {timeout : ℕ} {A : Type 0} (d : ℕ) (m : M A) (f : A → M Stream)
    → Keeps Grows m
    → ((a : A) → Fairly w timeout d (f a))
    → Fairly w timeout d (m >>= f)
>>=-Fairly d m f h k = record {
  fairly = λ s u v e.
      let (a, t, first, rest) = after-eq-ok (m s) f u v e in
      Fair-chain d d v.frame_deadline s t u (Fair-Grows d s t (Keeps-at s t (ok a) h first))
        ((k a).fairly t u v rest);
}

pub stream-Fairly :
    {w : World} {timeout : ℕ} (d : ℕ) (m : M Stream) (f : Stream → M Stream)
    → Fairly w timeout d m
    → ((v : Stream) → Fairly w timeout v.frame_deadline (f v))
    → Fairly w timeout d (m >>= f)
stream-Fairly d m f h k = record {
  fairly = λ s u v e.
      let (v1, t, first, rest) = after-eq-ok (m s) f u v e in
      Fair-chain d v1.frame_deadline v.frame_deadline s t u (h.fairly s t v1 first)
        ((k v1).fairly t u v rest);
}

pub if_Fairly :
    {w : World} {timeout : ℕ} (d : ℕ) (b : Bool) (m n : M Stream)
    → Fairly w timeout d m
    → Fairly w timeout d n
    → Fairly w timeout d (if b then m else n)
if_Fairly d true m n h k = h
if_Fairly d false m n h k = k
