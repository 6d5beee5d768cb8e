-- ===== src/Camera/Client/Steps.antt =====
-- Rules for methods of the client: what the parts of a chain did when the chain returned, and what a
-- call of the socket leaves alone.
use ino_a9_local_bridge.Base.{
  ℕ, zero, suc, ◌+◌, ◌≡◌, refl, subst, List, [], ◌∷◌, ◌++◌, Option, none, some, Bool, true, false,
}
use ino_a9_local_bridge.Base.Tests.{ltb, if◌then◌else◌}
use ino_a9_local_bridge.Base.Lists.{is_empty}
use ino_a9_local_bridge.Base.Except.{
  Exception, Result, ok, err, camera_error, os_error, out_of_fuel,
}
use ino_a9_local_bridge.Crypto.{Primitives}
use ino_a9_local_bridge.Packet.{Packet, RpcPacket, iter_tcp_packets}
use ino_a9_local_bridge.Camera.Client.{
  Settings, World, Client, timed_out, failed, bytes, M, after, ◌>>=◌, pure, raise, lift, modify,
  ask, or_else, Arrival, arrived, sendall, send, send_request, answer_time_request,
  handle_rpc_request, take_bytes, read_socket, receive_loop, receive, is_time_request,
}

-- A chain that returned: its first call returned, and so did the rest.
pub after-eq-ok :
    {A B : Type 0} (r : Client × Result A) (rest : A → M B) (s : Client) (b : B)
    → after r rest ≡ (s, ok b)
    → (a : A) × (t : Client) × (r ≡ (t, ok a)) × (rest a t ≡ (s, ok b))
after-eq-ok (t, ok a) rest s b e = (a, t, refl, e)
after-eq-ok (t, err x) rest s b e = cc

pub lift-eq-ok :
    {A B : Type 0} (r : Result A) (rest : A → M B) (s t : Client) (b : B)
    → after (s, r) rest ≡ (t, ok b)
    → (a : A) × (r ≡ ok a) × (rest a s ≡ (t, ok b))
lift-eq-ok (ok a) rest s t b e = (a, refl, e)
lift-eq-ok (err x) rest s t b e = cc

-- A test that raises.
pub guard-eq-ok :
    {A : Type 0} (b : Bool) (m : M A) (x : Exception) (s t : Client) (a : A)
    → (if b then m else raise x) s ≡ (t, ok a)
    → (b ≡ true) × (m s ≡ (t, ok a))
guard-eq-ok true m x s t a e = (refl, e)
guard-eq-ok false m x s t a e = cc

-- A relation between states that sending does not disturb.
pub record IsWritten (R : Client → Client → Type 0) : Type 0 where
  pub same : (s : Client) → R s s
  pub chain : (s t u : Client) → R s t → R t u → R s u
  pub ticks : (s : Client) → R s (record s { tick = s.tick + 1 })
  pub writes : (s : Client) (message : List ℕ) → R s (record s { sent = s.sent ++ (message ∷ []) })

-- A relation that receiving does not disturb either, nor what waits for `frames`.
pub record IsKept (R : Client → Client → Type 0) : Type 0 where
  pub written : IsWritten R
  pub hears : (s : Client) (bytes : List ℕ) → R s (record s { received = s.received ++ bytes })
  pub buffers : (s : Client) (bytes : List ℕ) → R s (record s { buffer = bytes })
  pub queues : (s : Client) (packets : List Packet) → R s (record s { pending = packets })

-- Whatever the call does, the state behind it stands in the relation.
pub record Keeps (R : Client → Client → Type 0) {A : Type 0} (m : M A) : Type 0 where
  pub keeps : (s : Client) → R s (m s).0

module _ {R : Client → Client → Type 0} (k : IsWritten R) where
  pub after-keeps :
      {A B : Type 0} (s : Client) (r : Client × Result A) (rest : A → M B)
      → R s r.0
      → ((a : A) (t : Client) → R t (rest a t).0)
      → R s (after r rest).0
  after-keeps s (t, ok a) rest h h' = k.chain s t (rest a t).0 h (h' a t)
  after-keeps s (t, err e) rest h h' = h

  pub >>=-Keeps :
      {A B : Type 0} (m : M A) (f : A → M B)
      → Keeps R m
      → ((a : A) → Keeps R (f a))
      → Keeps R (m >>= f)
  >>=-Keeps m f hm hf = record {
    keeps = λ s. after-keeps s (m s) f (hm.keeps s) (λ a t. (hf a).keeps t);
  }

  pub lift-Keeps : {A : Type 0} (r : Result A) → Keeps R (lift r)
  lift-Keeps r = record { keeps = k.same }

  pub pure-Keeps : {A : Type 0} (a : A) → Keeps R (pure a)
  pure-Keeps a = record { keeps = k.same }

  pub raise-Keeps : {A : Type 0} (e : Exception) → Keeps R (let m : M A = raise e in m)
  raise-Keeps e = record { keeps = k.same }

  pub ask-Keeps : {A : Type 0} (answer : ℕ → A) → Keeps R (ask answer)
  ask-Keeps answer = record { keeps = k.ticks }

  pub modify-Keeps : (f : Client → Client) → ((s : Client) → R s (f s)) → Keeps R (modify f)
  modify-Keeps f h = record { keeps = h }

  pub or_else-Keeps :
      {A : Type 0} (o : Option A) (next : M A) → Keeps R next → Keeps R (or_else o next)
  or_else-Keeps (some a) next h = pure-Keeps a
  or_else-Keeps none next h = h

  pub if_Keeps :
      {A : Type 0} (b : Bool) (m n : M A) → Keeps R m → Keeps R n → Keeps R (if b then m else n)
  if_Keeps true m n hm hn = hm
  if_Keeps false m n hm hn = hn

  -- A test of the client's own fields.
  pub guard-Keeps :
      {A : Type 0} (test : Client → Bool) (m n : M A)
      → Keeps R m
      → Keeps R n
      → Keeps R (λ s. (if test s then m else n) s)
  guard-Keeps test m n hm hn = record { keeps = λ s. (if_Keeps (test s) m n hm hn).keeps s }

  module _ (c : Primitives) (w : World) (settings : Settings) where
    pub send-Keeps : (message : List ℕ) → Keeps R (send c w settings message)
    unfolding send sendall
    send-Keeps message =
        guard-Keeps (λ s. s.is_open) _ (raise camera_error)
          (>>=-Keeps (ask w.sends) _ (ask-Keeps w.sends) λ sent.
            if_Keeps sent (modify (λ s. record s { sent = s.sent ++ (message ∷ []) }))
              (raise os_error) (modify-Keeps _ (λ s. k.writes s message)) (raise-Keeps os_error))
          (raise-Keeps camera_error)

    pub send_request-Keeps :
        (sequence command_id : ℕ) (plaintext : List ℕ)
        → Keeps R (send_request c w settings sequence command_id plaintext)
    unfolding send_request
    send_request-Keeps sequence command_id plaintext =
        >>=-Keeps (lift _) _ (lift-Keeps _) λ packed. send-Keeps packed

    answer_time_request-Keeps : (p : RpcPacket) → Keeps R (answer_time_request c w settings p)
    unfolding answer_time_request
    answer_time_request-Keeps p = search (>>=-Keeps, lift-Keeps, ask-Keeps, send-Keeps)

    pub handle_rpc_request-Keeps : (p : RpcPacket) → Keeps R (handle_rpc_request c w settings p)
    unfolding handle_rpc_request
    handle_rpc_request-Keeps p =
        if_Keeps (is_time_request p) _ (pure false)
          (>>=-Keeps (answer_time_request c w settings p) _ (answer_time_request-Keeps p)
            λ _. pure-Keeps true)
          (pure-Keeps false)

module _ {R : Client → Client → Type 0} (k : IsKept R) (c : Primitives) (w : World)
    (settings : Settings) where
  take_bytes-Keeps : (data_bytes : List ℕ) → Keeps R (take_bytes c w settings data_bytes)
  unfolding take_bytes
  take_bytes-Keeps received = record {
    keeps = λ s.
        let heard = record s { received = s.received ++ received } in
        k.written.chain s heard _ (k.hears s received) (
          after-keeps k.written heard (heard, iter_tcp_packets (s.buffer ++ received)) _
            (k.written.same heard) λ (packets, rest) t. k.buffers t rest);
  }

  arrived-Keeps : (arrival : Arrival) → Keeps R (arrived c w settings arrival)
  unfolding arrived
  arrived-Keeps timed_out = pure-Keeps k.written none
  arrived-Keeps failed = raise-Keeps k.written os_error
  arrived-Keeps (bytes received) =
      if_Keeps k.written (is_empty received) (raise camera_error) _
        (raise-Keeps k.written camera_error)
        (>>=-Keeps k.written (take_bytes c w settings received) _ (take_bytes-Keeps received)
          λ packets. pure-Keeps k.written (if is_empty packets then none else some packets))

  pub read_socket-Keeps : Keeps R (read_socket c w settings)
  unfolding read_socket
  read_socket-Keeps =
      >>=-Keeps k.written (ask w.monotonic) _ (ask-Keeps k.written w.monotonic)
        λ _. >>=-Keeps k.written (ask w.recv) _ (ask-Keeps k.written w.recv) arrived-Keeps

  receive_loop-Keeps : (fuel deadline : ℕ) → Keeps R (receive_loop c w settings fuel deadline)
  unfolding receive_loop
  receive_loop-Keeps zero deadline = raise-Keeps k.written out_of_fuel
  receive_loop-Keeps (suc fuel) deadline =
      >>=-Keeps k.written (ask w.monotonic) _ (ask-Keeps k.written w.monotonic) λ now.
        if_Keeps k.written (ltb now deadline) _ (pure [])
          (>>=-Keeps k.written (read_socket c w settings) _ read_socket-Keeps
            λ found. or_else-Keeps k.written found _ (receive_loop-Keeps fuel deadline))
          (pure-Keeps k.written [])

  pub receive-Keeps : (deadline : ℕ) → Keeps R (receive c w settings deadline)
  unfolding receive
  receive-Keeps deadline =
      guard-Keeps k.written (λ s. s.is_open) _ (raise camera_error)
        (receive_loop-Keeps (suc deadline) deadline) (raise-Keeps k.written camera_error)

pub Keeps-at :
    {R : Client → Client → Type 0} {A : Type 0} {m : M A} (s t : Client) (r : Result A)
    → Keeps R m
    → m s ≡ (t, r)
    → R s t
Keeps-at {R} s t r h e = subst (λ x. R s x.0) e (h.keeps s)
