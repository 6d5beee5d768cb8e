-- ===== src/Camera/Client/Frames/Emits.antt =====
-- What a round hands to the consumer.
use ino_a9_local_bridge.Base.{
  ℕ, ◌≡◌, refl, sym, ap, subst, ◌∙◌, List, [], ◌∷◌, ◌++◌, append_assoc, append-nil, Option, none,
  some, Bool, true, false,
}
use ino_a9_local_bridge.Base.Tests.{if◌then◌else◌}
use ino_a9_local_bridge.Base.Except.{Result, ok, err, ok-injective}
use ino_a9_local_bridge.Crypto.{Primitives}
use ino_a9_local_bridge.Packet.{AvPacket}
use ino_a9_local_bridge.Camera.Reassembler.{Reassembler, push, extract_g711_alaw_payload}
use ino_a9_local_bridge.Camera.Client.{Client, Output, audio, frame, M, ◌>>=◌, pure, lift, ask}
use ino_a9_local_bridge.Camera.Client.Steps.{after-eq-ok, IsWritten, Keeps, Keeps-at}

abbrev pub audio_of : Option (List ℕ) → List Output
audio_of none = []
audio_of (some chunk) = audio chunk ∷ []

abbrev pub frame_of : Option (List ℕ) → List Output
frame_of none = []
frame_of (some image) = frame image ∷ []

abbrev pub frame_in : Result (Option (List ℕ)) → List Output
frame_in (ok image) = frame_of image
frame_in (err e) = []

module _ (c : Primitives) where
  -- What media packets are worth: their sound, and the frames that they complete.
  abbrev pub delivered : Reassembler → List AvPacket → List Output
  delivered r [] = []
  delivered r (p ∷ ps) =
      audio_of (extract_g711_alaw_payload p)
      ++ (frame_in (push c r p).1 ++ delivered (push c r p).0 ps)

  abbrev pub pushed : Reassembler → List AvPacket → Reassembler
  pushed r [] = r
  pushed r (p ∷ ps) = pushed (push c r p).0 ps

  pub delivered-append :
      (r : Reassembler) (ps qs : List AvPacket)
      → delivered r (ps ++ qs) ≡ delivered r ps ++ delivered (pushed r ps) qs
  delivered-append r [] qs = refl
  delivered-append r (p ∷ ps) qs =
      let sound = audio_of (extract_g711_alaw_payload p) in
      let image = frame_in (push c r p).1 in
      let r' = (push c r p).0 in
      ap (λ x. sound ++ (image ++ x)) (delivered-append r' ps qs)
      ∙ ap (λ x. sound ++ x)
          (sym (append_assoc image (delivered r' ps) (delivered (pushed r' ps) qs)))
      ∙ sym (append_assoc sound (image ++ delivered r' ps) (delivered (pushed r' ps) qs))

  pub pushed-append :
      (r : Reassembler) (ps qs : List AvPacket) → pushed r (ps ++ qs) ≡ pushed (pushed r ps) qs
  pushed-append r [] qs = refl
  pushed-append r (p ∷ ps) qs = pushed-append (push c r p).0 ps qs

-- Nothing was read, put back or taken, and this was handed on.
pub record Emitted (outputs : List Output) (s t : Client) : Type 0 where
  pub received : t.received ≡ s.received
  pub buffer : t.buffer ≡ s.buffer
  pub pending : t.pending ≡ s.pending
  pub session_prefix : t.session_prefix ≡ s.session_prefix
  pub handed_on : t.outputs ≡ s.outputs ++ outputs

-- A method that hands this on, with a promise about its result.
pub record Emits {A : Type 0} (outputs : List Output) (P : A → Type 0) (m : M A) : Type 0 where
  pub emits : (s t : Client) (a : A) → m s ≡ (t, ok a) → Emitted outputs s t × P a

pub record Quiet (s t : Client) : Type 0 where
  pub received : t.received ≡ s.received
  pub buffer : t.buffer ≡ s.buffer
  pub pending : t.pending ≡ s.pending
  pub session_prefix : t.session_prefix ≡ s.session_prefix
  pub outputs : t.outputs ≡ s.outputs

pub Quiet-IsWritten : IsWritten Quiet
Quiet-IsWritten = record {
  same = λ s. record {
    received = refl;
    buffer = refl;
    pending = refl;
    session_prefix = refl;
    outputs = refl;
  };
  chain = λ s t u h k. record {
    received = k.received ∙ h.received;
    buffer = k.buffer ∙ h.buffer;
    pending = k.pending ∙ h.pending;
    session_prefix = k.session_prefix ∙ h.session_prefix;
    outputs = k.outputs ∙ h.outputs;
  };
  ticks = λ s. record {
    received = refl;
    buffer = refl;
    pending = refl;
    session_prefix = refl;
    outputs = refl;
  };
  writes = λ s sent. record {
    received = refl;
    buffer = refl;
    pending = refl;
    session_prefix = refl;
    outputs = refl;
  };
}

abbrev pub Any : {A : Type 0} → A → Type 0
Any a = Unit

pub Quiet-Emits : {A : Type 0} (m : M A) → Keeps Quiet m → Emits [] (λ (a : A). Any a) m
Quiet-Emits m h = record {
  emits = λ s t a e.
      let quiet = Keeps-at s t (ok a) h e in
      (
        record {
          received = quiet.received;
          buffer = quiet.buffer;
          pending = quiet.pending;
          session_prefix = quiet.session_prefix;
          handed_on = quiet.outputs ∙ sym (append-nil s.outputs);
        },
        tt,
      );
}

pub ask-Emits : {A : Type 0} (answer : ℕ → A) → Emits [] (λ (a : A). Any a) (ask answer)
ask-Emits answer = Quiet-Emits (ask answer) (record { keeps = Quiet-IsWritten.ticks })

nothing-Emitted : (s : Client) → Emitted [] s s
nothing-Emitted s = record {
  received = refl;
  buffer = refl;
  pending = refl;
  session_prefix = refl;
  handed_on = sym (append-nil s.outputs);
}

pub pure-Emits : {A : Type 0} {P : A → Type 0} (a : A) → P a → Emits [] P (pure a)
pure-Emits {P = P} a h = record {
  emits = λ s t b e. (
    subst (Emitted [] s) (ap (λ x. x.0) e) (nothing-Emitted s),
    subst P (ok-injective (ap (λ x. x.1) e)) h,
  );
}

pub lift-Emits : {A : Type 0} (r : Result A) → Emits [] (λ a. r ≡ ok a) (lift r)
lift-Emits r = record {
  emits = λ s t a e. (subst (Emitted [] s) (ap (λ x. x.0) e) (nothing-Emitted s), ap (λ x. x.1) e);
}

pub >>=-Emits :
    {A B : Type 0} {P : A → Type 0} {Q : B → Type 0} (xs ys : List Output) (m : M A) (f : A → M B)
    → Emits xs P m
    → ((a : A) → P a → Emits ys Q (f a))
    → Emits (xs ++ ys) Q (m >>= f)
>>=-Emits xs ys m f h k = record {
  emits = λ s u b e.
      let (a, t, first, rest) = after-eq-ok (m s) f u b e in
      let (one, p) = h.emits s t a first in
      let (two, q) = (k a p).emits t u b rest in
      (
        record {
          received = two.received ∙ one.received;
          buffer = two.buffer ∙ one.buffer;
          pending = two.pending ∙ one.pending;
          session_prefix = two.session_prefix ∙ one.session_prefix;
          handed_on =
              two.handed_on ∙ ap (λ x. x ++ ys) one.handed_on ∙ append_assoc s.outputs xs ys;
        },
        q,
      );
}

pub if_Emits :
    {A : Type 0} {P : A → Type 0} {xs : List Output} (b : Bool) (m n : M A)
    → Emits xs P m
    → Emits xs P n
    → Emits xs P (if b then m else n)
if_Emits true m n h k = h
if_Emits false m n h k = k
