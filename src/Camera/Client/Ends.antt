-- ===== src/Camera/Client/Ends.antt =====
-- Methods that end: their rounds do not run out. Each call of the world takes a nanosecond at least,
-- so a loop that waits for a deadline has no more rounds than the deadline says.
use ino_a9_local_bridge.Base.{
  ℕ, zero, suc, ◌+◌, ◌≤◌, ◌<◌, ◌≡◌, refl, List, [], ◌∷◌, ◌++◌, Option, none, some, Bool, true,
  false, arith, inl, inr,
}
use ino_a9_local_bridge.Base.Tests.{ltb, ltb→lt, if◌then◌else◌, Bool-cases}
use ino_a9_local_bridge.Base.Lists.{is_empty}
use ino_a9_local_bridge.Base.Except.{Exception, Result, ok, err, camera_error, os_error}
use ino_a9_local_bridge.Base.Raises.{
  Raises, IsPython, IsPacketError-IsPython, Raises-weaken, ok-Raises, err-Raises,
}
use ino_a9_local_bridge.Crypto.{Primitives}
use ino_a9_local_bridge.Packet.{Packet, RpcPacket, iter_tcp_packets}
use ino_a9_local_bridge.Packet.Stream.Frames.{iter_tcp_packets-Raises}
use ino_a9_local_bridge.Protobuf.Total.{build_time_sync_response-Raises}
use ino_a9_local_bridge.Camera.Rpc.{pack_rpc, rpc_request}
use ino_a9_local_bridge.Camera.Client.{
  Settings, World, Client, Arrival, timed_out, failed, bytes, M, after, ◌>>=◌, pure, raise, lift,
  ask, modify, or_else, sendall, send, send_request, is_time_request, answer_time_request,
  handle_rpc_request, take_bytes, arrived, read_socket, receive_loop, receive,
}
use ino_a9_local_bridge.Camera.Rpc.Total.{pack_rpc-Raises, decrypt_rpc_payload-Raises}
use ino_a9_local_bridge.Camera.Client.Steps.{Keeps-at, read_socket-Keeps}
use ino_a9_local_bridge.Camera.Client.Connect.Kept.{Later-IsKept}

-- The clock runs.
abbrev pub Advances : World → Type 0
Advances w = (n : ℕ) → n ≤ w.monotonic n

-- A method that never runs out of rounds, whatever the state.
pub record Ends {A : Type 0} (m : M A) : Type 0 where
  pub ends : (s : Client) → Raises IsPython (m s).1

-- The rest may use the state that the first call leaves.
pub after-Raises :
    {A B : Type 0} (r : Client × Result A) (rest : A → M B)
    → Raises IsPython r.1
    → ((a : A) (t : Client) → r ≡ (t, ok a) → Raises IsPython (rest a t).1)
    → Raises IsPython (after r rest).1
after-Raises (t, ok a) rest h k = k a t refl
after-Raises (t, err e) rest h k = record { raises = h.raises }

pub >>=-Ends :
    {A B : Type 0} (m : M A) (f : A → M B) → Ends m → ((a : A) → Ends (f a)) → Ends (m >>= f)
>>=-Ends m f h k = record { ends = λ s. after-Raises (m s) f (h.ends s) (λ a t _. (k a).ends t) }

pub lift-Ends : {A : Type 0} (r : Result A) → Raises IsPython r → Ends (lift r)
lift-Ends r h = record { ends = λ s. h }

pub pure-Ends : {A : Type 0} (a : A) → Ends (pure a)
pure-Ends a = record { ends = λ s. ok-Raises a }

pub raise-Ends : {A : Type 0} (e : Exception) → IsPython e → Ends (let m : M A = raise e in m)
raise-Ends e h = record { ends = λ s. err-Raises e h }

pub ask-Ends : {A : Type 0} (answer : ℕ → A) → Ends (ask answer)
ask-Ends answer = record { ends = λ s. ok-Raises (answer s.tick) }

pub modify-Ends : (f : Client → Client) → Ends (modify f)
modify-Ends f = record { ends = λ s. ok-Raises tt }

pub if_Ends : {A : Type 0} (b : Bool) (m n : M A) → Ends m → Ends n → Ends (if b then m else n)
if_Ends true m n h k = h
if_Ends false m n h k = k

pub guard-Ends :
    {A : Type 0} (test : Client → Bool) (m n : M A)
    → Ends m
    → Ends n
    → Ends (λ s. (if test s then m else n) s)
guard-Ends test m n h k = record { ends = λ s. (if_Ends (test s) m n h k).ends s }

pub or_else-Ends : {A : Type 0} (o : Option A) (next : M A) → Ends next → Ends (or_else o next)
or_else-Ends (some a) next h = pure-Ends a
or_else-Ends none next h = h

module _ (c : Primitives) (w : World) (st : Settings) where
  pub send-Ends : (message : List ℕ) → Ends (send c w st message)
  unfolding send sendall
  send-Ends message =
      guard-Ends (λ s. s.is_open) _ (raise camera_error)
        (>>=-Ends (ask w.sends) _ (ask-Ends w.sends) λ sent.
          if_Ends sent (modify (λ s. record s { sent = s.sent ++ (message ∷ []) })) (raise os_error)
            (modify-Ends _) (raise-Ends os_error tt))
        (raise-Ends camera_error tt)

  pub send_request-Ends :
      (sequence command_id : ℕ) (plaintext : List ℕ)
      → Ends (send_request c w st sequence command_id plaintext)
  unfolding send_request
  send_request-Ends sequence command_id plaintext =
      let prefix = st.bootstrap_prefix in
      >>=-Ends (lift (pack_rpc c sequence command_id plaintext prefix rpc_request 0)) _
        (lift-Ends _ (pack_rpc-Raises c sequence command_id rpc_request 0 plaintext prefix))
        send-Ends

  answer_time_request-Ends : (p : RpcPacket) → Ends (answer_time_request c w st p)
  unfolding answer_time_request
  answer_time_request-Ends p =
      search
        (
          >>=-Ends, lift-Ends, ask-Ends, send-Ends, pack_rpc-Raises, decrypt_rpc_payload-Raises,
          build_time_sync_response-Raises,
        )
        depth 9

  pub handle_rpc_request-Ends : (p : RpcPacket) → Ends (handle_rpc_request c w st p)
  unfolding handle_rpc_request
  handle_rpc_request-Ends p =
      if_Ends (is_time_request p) _ (pure false)
        (>>=-Ends (answer_time_request c w st p) _ (answer_time_request-Ends p) λ _. pure-Ends true)
        (pure-Ends false)

  take_bytes-Ends : (received : List ℕ) → Ends (take_bytes c w st received)
  unfolding take_bytes
  take_bytes-Ends received = record {
    ends = λ s.
        let parsed = iter_tcp_packets (s.buffer ++ received) in
        after-Raises (record s { received = s.received ++ received }, parsed) _
          (Raises-weaken parsed IsPacketError-IsPython
            (iter_tcp_packets-Raises (s.buffer ++ received)))
          λ (packets, rest) t _. ok-Raises packets;
  }

  arrived-Ends : (arrival : Arrival) → Ends (arrived c w st arrival)
  unfolding arrived
  arrived-Ends timed_out = pure-Ends none
  arrived-Ends failed = raise-Ends os_error tt
  arrived-Ends (bytes received) =
      if_Ends (is_empty received) (raise camera_error) _ (raise-Ends camera_error tt) (
        >>=-Ends (take_bytes c w st received) _ (take_bytes-Ends received)
          λ packets. pure-Ends (if is_empty packets then none else some packets))

  read_socket-Ends : Ends (read_socket c w st)
  unfolding read_socket
  read_socket-Ends =
      >>=-Ends (ask w.monotonic) _ (ask-Ends w.monotonic)
        λ _. >>=-Ends (ask w.recv) _ (ask-Ends w.recv) arrived-Ends

  -- What is left of the rounds reaches beyond the deadline.
  module _ (advances : Advances w) where
    receive_loop-Ends :
        (fuel deadline : ℕ) (s : Client)
        → 0 < fuel
        → deadline < fuel + s.tick
        → Raises IsPython (receive_loop c w st fuel deadline s).1
    unfolding receive_loop
    receive_loop-Ends zero deadline s h k = absurd (omega arith)
    receive_loop-Ends (suc fuel) deadline s h k =
        let s1 = record s { tick = s.tick + 1 } in
        elim (Bool-cases (ltb (w.monotonic s.tick) deadline)) [
          | inr q ↦ rw q (ok-Raises [])
          | inl q ↦
              let early : s.tick < deadline =
                omega (arith, ltb→lt (w.monotonic s.tick) deadline q, advances s.tick) in
              rw q (
                after-Raises (read_socket c w st s1) _ (read_socket-Ends.ends s1) λ found t e.
                  let later : s1.tick ≤ t.tick =
                    Keeps-at s1 t (ok found) (read_socket-Keeps Later-IsKept c w st) e in
                  next found t (receive_loop-Ends fuel deadline t (omega arith) (omega arith)))
        ]
      where
        next :
            (found : Option (List Packet)) (t : Client)
            → Raises IsPython (receive_loop c w st fuel deadline t).1
            → Raises IsPython (or_else found (receive_loop c w st fuel deadline) t).1
        next (some ps) t h = ok-Raises ps
        next none t h = h

    pub receive-Ends : (deadline : ℕ) → Ends (receive c w st deadline)
    unfolding receive
    receive-Ends deadline = record {
      ends = λ s.
          guarded s.is_open s
            (receive_loop-Ends (suc deadline) deadline s (omega arith) (omega arith));
    }
      where
        guarded :
            (b : Bool) (s : Client)
            → Raises IsPython (receive_loop c w st (suc deadline) deadline s).1
            → Raises IsPython
                ((if b then receive_loop c w st (suc deadline) deadline else raise camera_error)
                  s).1
        guarded true s h = h
        guarded false s h = err-Raises camera_error tt
