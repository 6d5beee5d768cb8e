-- ===== src/Camera/Client/Collects.antt =====
-- Methods that lose no media packet: what they read and do not handle waits in `_pending`, in order.
use ino_a9_local_bridge.Base.{
  ℕ, ◌≡◌, refl, sym, ap, ap₂, ◌∙◌, List, [], ◌∷◌, ◌++◌, append_assoc, append-nil, Bool, true, false,
}
use ino_a9_local_bridge.Base.Tests.{if◌then◌else◌}
use ino_a9_local_bridge.Base.Except.{Exception, Result, ok}
use ino_a9_local_bridge.Crypto.{Primitives}
use ino_a9_local_bridge.Packet.{Packet, rpc, av, raw, AvPacket}
use ino_a9_local_bridge.Camera.Client.{
  Settings, World, Client, M, ◌>>=◌, pure, raise, lift, ask, receive,
}
use ino_a9_local_bridge.Camera.Client.Steps.{
  after-eq-ok, IsWritten, Keeps, Keeps-at, ask-Keeps, lift-Keeps,
}
use ino_a9_local_bridge.Camera.Client.Reads.{
  IsRead, Reads, Reads-IsRead, Reads-same, Reads-chain, receive-Heard,
}

abbrev pub media : List Packet → List AvPacket
media [] = []
media (rpc p ∷ ps) = media ps
media (av p ∷ ps) = p ∷ media ps
media (raw p ∷ ps) = media ps

pub media-append : (ps qs : List Packet) → media (ps ++ qs) ≡ media ps ++ media qs
media-append [] qs = refl
media-append (rpc p ∷ ps) qs = media-append ps qs
media-append (av p ∷ ps) qs = ap (λ r. p ∷ r) (media-append ps qs)
media-append (raw p ∷ ps) qs = media-append ps qs

-- The socket was not read and nothing was put back.
pub record Silent (s t : Client) : Type 0 where
  pub received : t.received ≡ s.received
  pub buffer : t.buffer ≡ s.buffer
  pub pending : t.pending ≡ s.pending

pub Silent-IsWritten : IsWritten Silent
Silent-IsWritten = record {
  same = λ s. record { received = refl; buffer = refl; pending = refl };
  chain = λ s t u h k. record {
    received = k.received ∙ h.received;
    buffer = k.buffer ∙ h.buffer;
    pending = k.pending ∙ h.pending;
  };
  ticks = λ s. record { received = refl; buffer = refl; pending = refl };
  writes = λ s sent. record { received = refl; buffer = refl; pending = refl };
}

-- The media packets among those in hand were put back behind the others, and nothing was read.
pub record Stored (hand : List Packet) (s t : Client) : Type 0 where
  pub received : t.received ≡ s.received
  pub buffer : t.buffer ≡ s.buffer
  pub pending : media t.pending ≡ media s.pending ++ media hand

pub record Stores {A : Type 0} (hand : List Packet) (m : M A) : Type 0 where
  pub stores : (s t : Client) (a : A) → m s ≡ (t, ok a) → Stored hand s t

-- More packets were read, and the media packets among all of them were put back.
pub record Collected (hand : List Packet) (s t : Client) : Type 0 where
  pub packets : List Packet
  pub reads : Reads s packets t
  pub pending : media t.pending ≡ media s.pending ++ (media hand ++ media packets)

pub record Collects {A : Type 0} (hand : List Packet) (m : M A) : Type 0 where
  pub collects : (s t : Client) (a : A) → IsRead s.buffer → m s ≡ (t, ok a) → Collected hand s t

pub Silent-Stores : {A : Type 0} (m : M A) → Keeps Silent m → Stores [] m
Silent-Stores m h = record {
  stores = λ s t a e.
      let quiet = Keeps-at s t (ok a) h e in
      record {
        received = quiet.received;
        buffer = quiet.buffer;
        pending = ap media quiet.pending ∙ sym (append-nil (media s.pending));
      };
}

pub pure-Stores : {A : Type 0} (a : A) → Stores [] (pure a)
pure-Stores a = Silent-Stores (pure a) (record { keeps = Silent-IsWritten.same })

pub >>=-Stores :
    {A B : Type 0} (ps qs : List Packet) (m : M A) (f : A → M B)
    → Stores ps m
    → ((a : A) → Stores qs (f a))
    → Stores (ps ++ qs) (m >>= f)
>>=-Stores ps qs m f h k = record {
  stores = λ s u b e.
      let (a, t, first, rest) = after-eq-ok (m s) f u b e in
      let one = h.stores s t a first in
      let two = (k a).stores t u b rest in
      record {
        received = two.received ∙ one.received;
        buffer = two.buffer ∙ one.buffer;
        pending =
            two.pending
            ∙ ap (λ x. x ++ media qs) one.pending
            ∙ append_assoc (media s.pending) (media ps) (media qs)
            ∙ ap (λ x. media s.pending ++ x) (sym (media-append ps qs));
      };
}

Stored-Reads :
    {hand : List Packet} {s t : Client} → IsRead s.buffer → Stored hand s t → Reads s [] t
Stored-Reads {s = s} {t = t} h k =
    let none_read = Reads-same s h in
    record {
      stream = none_read.stream;
      heard = k.received ∙ none_read.heard;
      parsed = none_read.parsed ∙ ap (λ b. ok ([], b)) (sym k.buffer);
    }

pub Stores-Collects : {A : Type 0} (hand : List Packet) (m : M A) → Stores hand m → Collects hand m
Stores-Collects hand m h = record {
  collects = λ s t a read e.
      let k = h.stores s t a e in
      record {
        packets = [];
        reads = Stored-Reads read k;
        pending = k.pending ∙ ap (λ x. media s.pending ++ x) (sym (append-nil (media hand)));
      };
}

pub Silent-Collects : {A : Type 0} (m : M A) → Keeps Silent m → Collects [] m
Silent-Collects m h = Stores-Collects [] m (Silent-Stores m h)

pub pure-Collects : {A : Type 0} (a : A) → Collects [] (pure a)
pure-Collects a = Stores-Collects [] (pure a) (pure-Stores a)

pub raise-Collects :
    {A : Type 0} (hand : List Packet) (x : Exception) → Collects hand (let m : M A = raise x in m)
raise-Collects {A} hand x = record { collects = λ s t a read e. absurd (raised s t a e) }
  where
    raised : (s t : Client) (a : A) → (let m : M A = raise x in m s) ≡ (t, ok a) → ⊥
    raised s t a e = cc

pub ask-Collects : {A : Type 0} (answer : ℕ → A) → Collects [] (ask answer)
ask-Collects answer = Silent-Collects (ask answer) (ask-Keeps Silent-IsWritten answer)

pub lift-Collects : {A : Type 0} (r : Result A) → Collects [] (lift r)
lift-Collects r = Silent-Collects (lift r) (lift-Keeps Silent-IsWritten r)

pub if_Collects :
    {A : Type 0} {hand : List Packet} (b : Bool) (m n : M A)
    → Collects hand m
    → Collects hand n
    → Collects hand (if b then m else n)
if_Collects true m n h k = h
if_Collects false m n h k = k

pub >>=-Collects :
    {A B : Type 0} {hand : List Packet} (m : M A) (f : A → M B)
    → Collects hand m
    → ((a : A) → Collects [] (f a))
    → Collects hand (m >>= f)
>>=-Collects {hand = hand} m f h k = record {
  collects = λ s u b read e.
      let (a, t, first, rest) = after-eq-ok (m s) f u b e in
      let one = h.collects s t a read first in
      let two = (k a).collects t u b (Reads-IsRead one.reads) rest in
      record {
        packets = one.packets ++ two.packets;
        reads = Reads-chain one.reads two.reads;
        pending =
            two.pending
            ∙ ap (λ x. x ++ media two.packets) one.pending
            ∙ append_assoc (media s.pending) (media hand ++ media one.packets) (media two.packets)
            ∙ ap (λ x. media s.pending ++ x)
                (append_assoc (media hand) (media one.packets) (media two.packets)
                  ∙ ap (λ x. media hand ++ x) (sym (media-append one.packets two.packets)));
      };
}

-- What `_receive` returns is in the hand of what follows.
pub receive-Collects :
    (c : Primitives) (w : World) (st : Settings) {B : Type 0} (deadline : ℕ) (f : List Packet → M B)
    → ((ps : List Packet) → Collects ps (f ps))
    → Collects [] (receive c w st deadline >>= f)
receive-Collects c w st deadline f k = record {
  collects = λ s u b read e.
      let (ps, t, first, rest) = after-eq-ok (receive c w st deadline s) f u b e in
      let one = receive-Heard c w st deadline s t ps read first in
      let two = (k ps).collects t u b (Reads-IsRead one.reads) rest in
      record {
        packets = ps ++ two.packets;
        reads = Reads-chain one.reads two.reads;
        pending =
            two.pending
            ∙ ap₂ (λ x y. x ++ y) (ap media one.pending) (sym (media-append ps two.packets));
      };
}
