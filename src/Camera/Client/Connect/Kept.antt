-- ===== src/Camera/Client/Connect/Kept.antt =====
-- What the waits of a handshake leave alone.
use ino_a9_local_bridge.Base.{
  ℕ, zero, suc, ◌+◌, ◌*◌, ◌≤◌, ◌≡◌, refl, ◌∙◌, List, [], ◌∷◌, ◌++◌, Option, none, some, false, ◌&&◌,
  arith, inl, inr,
}
use ino_a9_local_bridge.Base.Tests.{ltb, Bool-cases}
use ino_a9_local_bridge.Base.Except.{
  Result, ok, err, camera_error, timeout_error, os_error, out_of_fuel,
}
use ino_a9_local_bridge.Crypto.{Primitives}
use ino_a9_local_bridge.Packet.{Packet, rpc, av, raw, RpcPacket}
use ino_a9_local_bridge.Camera.Client.{
  second, Settings, World, Client, M, pure, raise, modify, handled, close, close_socket, cleared,
  ask, send_request, handle_rpc_request, receive,
}
use ino_a9_local_bridge.Camera.Client.Steps.{
  IsWritten, IsKept, Keeps, after-keeps, >>=-Keeps, pure-Keeps, raise-Keeps, ask-Keeps, if_Keeps,
  modify-Keeps, guard-Keeps, lift-Keeps, send_request-Keeps, handle_rpc_request-Keeps,
  receive-Keeps,
}
use ino_a9_local_bridge.Camera.Client.Connect.{
  put_back, answers, code_is_zero, set_aside, sort_packet, sort_packets, judge, wait_loop,
  wait_response, time_request, answer_packet, answer_packets, sync_loop, answer_initial_time_syncs,
  exchange, authenticate, start_video, handshake, opened, open_socket, connect, request_audio,
  start_audio,
}

-- The connection, the shared calls and what was handed on.
pub record Linked (s t : Client) : Type 0 where
  pub is_open : t.is_open ≡ s.is_open
  pub session_prefix : t.session_prefix ≡ s.session_prefix
  pub calls : t.calls ≡ s.calls
  pub outputs : t.outputs ≡ s.outputs

unchanged : (s : Client) → Linked s s
unchanged s = record { is_open = refl; session_prefix = refl; calls = refl; outputs = refl }

Linked-chain : (s t u : Client) → Linked s t → Linked t u → Linked s u
Linked-chain s t u h k = record {
  is_open = k.is_open ∙ h.is_open;
  session_prefix = k.session_prefix ∙ h.session_prefix;
  calls = k.calls ∙ h.calls;
  outputs = k.outputs ∙ h.outputs;
}

pub Linked-IsKept : IsKept Linked
Linked-IsKept = record {
  written = record {
    same = unchanged;
    chain = Linked-chain;
    ticks = λ s. record { is_open = refl; session_prefix = refl; calls = refl; outputs = refl };
    writes =
        λ s sent. record { is_open = refl; session_prefix = refl; calls = refl; outputs = refl };
  };
  hears = λ s bytes. record { is_open = refl; session_prefix = refl; calls = refl; outputs = refl };
  buffers =
      λ s bytes. record { is_open = refl; session_prefix = refl; calls = refl; outputs = refl };
  queues = λ s ps. record { is_open = refl; session_prefix = refl; calls = refl; outputs = refl };
}

-- Calls of the world are counted upwards.
abbrev pub Later : Client → Client → Type 0
Later s t = s.tick ≤ t.tick

pub Later-IsKept : IsKept Later
Later-IsKept = record {
  written = record {
    same = λ s. omega arith;
    chain = λ s t u h k. omega arith;
    ticks = λ s. omega arith;
    writes = λ s sent. omega arith;
  };
  hears = λ s bytes. omega arith;
  buffers = λ s bytes. omega arith;
  queues = λ s ps. omega arith;
}

module _ {R : Client → Client → Type 0} (k : IsKept R) (c : Primitives) (w : World)
    (st : Settings) where
  put_back-Keeps : (packet : Packet) → Keeps R (put_back packet)
  put_back-Keeps packet = modify-Keeps k.written _ (λ s. k.queues s (s.pending ++ (packet ∷ [])))

  set_aside-Keeps : (packet : Packet) → Keeps R (set_aside c w st packet)
  unfolding set_aside
  set_aside-Keeps (rpc p) =
      >>=-Keeps k.written (handle_rpc_request c w st p) _
        (handle_rpc_request-Keeps k.written c w st p)
        λ done.
          if_Keeps k.written done (pure tt) (put_back (rpc p)) (pure-Keeps k.written tt)
            (put_back-Keeps (rpc p))
  set_aside-Keeps (av p) = put_back-Keeps (av p)
  set_aside-Keeps (raw p) = put_back-Keeps (raw p)

  sort_packet-Keeps :
      (packet : Packet) (answer found : Option RpcPacket)
      → Keeps R (sort_packet c w st packet answer found)
  unfolding sort_packet
  sort_packet-Keeps packet (some p) found = pure-Keeps k.written (some p)
  sort_packet-Keeps packet none found =
      >>=-Keeps k.written (set_aside c w st packet) _ (set_aside-Keeps packet)
        λ _. pure-Keeps k.written found

  pub sort_packets-Keeps :
      (sequence command_id : ℕ) (packets : List Packet) (found : Option RpcPacket)
      → Keeps R (sort_packets c w st sequence command_id packets found)
  unfolding sort_packets
  sort_packets-Keeps sequence command_id [] found = pure-Keeps k.written found
  sort_packets-Keeps sequence command_id (p ∷ ps) found =
      >>=-Keeps k.written (sort_packet c w st p (answers sequence command_id p) found) _
        (sort_packet-Keeps p (answers sequence command_id p) found)
        (sort_packets-Keeps sequence command_id ps)

  judge-Keeps :
      (found : Option RpcPacket) (next : M RpcPacket)
      → Keeps R next
      → Keeps R (judge c w st found next)
  unfolding judge
  judge-Keeps (some p) next h =
      if_Keeps k.written (code_is_zero p) (pure p) (raise camera_error) (pure-Keeps k.written p)
        (raise-Keeps k.written camera_error)
  judge-Keeps none next h = h

  wait_loop-Keeps :
      (fuel sequence command_id deadline : ℕ)
      → Keeps R (wait_loop c w st fuel sequence command_id deadline)
  unfolding wait_loop
  wait_loop-Keeps zero sequence command_id deadline = raise-Keeps k.written out_of_fuel
  wait_loop-Keeps (suc fuel) sequence command_id deadline =
      >>=-Keeps k.written (ask w.monotonic) _ (ask-Keeps k.written w.monotonic) λ now.
        if_Keeps k.written (ltb now deadline) _ (raise timeout_error)
          (>>=-Keeps k.written (receive c w st deadline) _ (receive-Keeps k c w st deadline)
            λ packets.
              >>=-Keeps k.written (sort_packets c w st sequence command_id packets none) _
                (sort_packets-Keeps sequence command_id packets none)
                λ found. judge-Keeps found _ (wait_loop-Keeps fuel sequence command_id deadline))
          (raise-Keeps k.written timeout_error)

  pub wait_response-Keeps :
      (sequence command_id : ℕ) → Keeps R (wait_response c w st sequence command_id)
  unfolding wait_response
  wait_response-Keeps sequence command_id =
      >>=-Keeps k.written (ask w.monotonic) _ (ask-Keeps k.written w.monotonic) λ now.
        wait_loop-Keeps (suc (now + st.connect_timeout)) sequence command_id
          (now + st.connect_timeout)

  answer_packet-Keeps :
      (packet : Packet) (request : Option RpcPacket) (replies : ℕ)
      → Keeps R (answer_packet c w st packet request replies)
  unfolding answer_packet
  answer_packet-Keeps packet (some p) replies =
      >>=-Keeps k.written (handle_rpc_request c w st p) _
        (handle_rpc_request-Keeps k.written c w st p) λ _. pure-Keeps k.written (replies + 1)
  answer_packet-Keeps packet none replies =
      >>=-Keeps k.written (put_back packet) _ (put_back-Keeps packet)
        λ _. pure-Keeps k.written replies

  pub answer_packets-Keeps :
      (packets : List Packet) (replies : ℕ) → Keeps R (answer_packets c w st packets replies)
  unfolding answer_packets
  answer_packets-Keeps [] replies = pure-Keeps k.written replies
  answer_packets-Keeps (p ∷ ps) replies =
      >>=-Keeps k.written (answer_packet c w st p (time_request p) replies) _
        (answer_packet-Keeps p (time_request p) replies) (answer_packets-Keeps ps)

  sync_loop-Keeps : (fuel deadline replies : ℕ) → Keeps R (sync_loop c w st fuel deadline replies)
  unfolding sync_loop
  sync_loop-Keeps zero deadline replies = raise-Keeps k.written out_of_fuel
  sync_loop-Keeps (suc fuel) deadline replies =
      >>=-Keeps k.written (ask w.monotonic) _ (ask-Keeps k.written w.monotonic) λ now.
        if_Keeps k.written (ltb now deadline && ltb replies 2) _ (pure tt)
          (>>=-Keeps k.written (receive c w st deadline) _ (receive-Keeps k c w st deadline)
            λ packets.
              >>=-Keeps k.written (answer_packets c w st packets replies) _
                (answer_packets-Keeps packets replies) (sync_loop-Keeps fuel deadline))
          (pure-Keeps k.written tt)

  answer_initial_time_syncs-Keeps : Keeps R (answer_initial_time_syncs c w st)
  unfolding answer_initial_time_syncs
  answer_initial_time_syncs-Keeps =
      >>=-Keeps k.written (ask w.monotonic) _ (ask-Keeps k.written w.monotonic)
        λ now. sync_loop-Keeps (suc (now + 2 * second)) (now + 2 * second) 0

  exchange-Keeps :
      (sequence command_id : ℕ) (plaintext : List ℕ)
      → Keeps R (exchange c w st sequence command_id plaintext)
  unfolding exchange
  exchange-Keeps sequence command_id plaintext =
      >>=-Keeps k.written (send_request c w st sequence command_id plaintext) _
        (send_request-Keeps k.written c w st sequence command_id plaintext)
        λ _. wait_response-Keeps sequence command_id

  pub authenticate-Keeps : Keeps R (authenticate c w st)
  unfolding authenticate
  authenticate-Keeps =
      search (>>=-Keeps, k.written, lift-Keeps, pure-Keeps, exchange-Keeps) depth 12

  pub start_video-Keeps : Keeps R (start_video c w st)
  unfolding start_video
  start_video-Keeps =
      search
        (
          >>=-Keeps, k.written, lift-Keeps, pure-Keeps, exchange-Keeps,
          answer_initial_time_syncs-Keeps,
        )
        depth 12

  request_audio-Keeps : Keeps R (request_audio c w st)
  unfolding request_audio
  request_audio-Keeps = search (>>=-Keeps, k.written, lift-Keeps, exchange-Keeps) depth 12

  pub start_audio-Keeps : Keeps R (start_audio c w st)
  unfolding start_audio
  start_audio-Keeps =
      guard-Keeps k.written (λ s. s.is_open) (request_audio c w st) (raise camera_error)
        request_audio-Keeps (raise-Keeps k.written camera_error)

-- What was handed on.
abbrev pub SameOutputs : Client → Client → Type 0
SameOutputs s t = t.outputs ≡ s.outputs

pub SameOutputs-IsKept : IsKept SameOutputs
SameOutputs-IsKept = record {
  written = record {
    same = λ s. refl;
    chain = λ s t u h k. k ∙ h;
    ticks = λ s. refl;
    writes = λ s sent. refl;
  };
  hears = λ s bytes. refl;
  buffers = λ s bytes. refl;
  queues = λ s ps. refl;
}

-- What the two writes of `close` do not disturb, it does not.
pub close-Keeps :
    {R : Client → Client → Type 0} (k : IsWritten R) (w : World)
    → ((s : Client) → R s (record s { is_open = false }))
    → ((s : Client) → R s (cleared s))
    → Keeps R (close w)
unfolding close close_socket
close-Keeps k w gives_up clears =
    >>=-Keeps k _ _
      (guard-Keeps k (λ s. s.is_open) (close_socket w) (pure tt)
        (>>=-Keeps k (ask w.closes) _ (ask-Keeps k w.closes) λ closed.
          >>=-Keeps k (modify (λ s. record s { is_open = false })) _ (modify-Keeps k _ gives_up)
            λ _.
              if_Keeps k closed (pure tt) (raise os_error) (pure-Keeps k tt)
                (raise-Keeps k os_error))
        (pure-Keeps k tt))
      (λ _. modify-Keeps k cleared clears)

module _ (c : Primitives) (w : World) (st : Settings) where
  handshake_outputs : Keeps SameOutputs (handshake c w st)
  unfolding handshake
  handshake_outputs =
      let k = SameOutputs-IsKept in
      >>=-Keeps k.written (authenticate c w st) _ (authenticate-Keeps k c w st) λ prefix.
        >>=-Keeps k.written (modify (λ s. record s { session_prefix = some prefix })) _
          (modify-Keeps k.written _ (λ s. refl)) λ _. start_video-Keeps k c w st

  close_outputs : Keeps SameOutputs (close w)
  close_outputs = close-Keeps SameOutputs-IsKept.written w (λ s. refl) (λ s. refl)

  handled_outputs :
      (s : Client) (r : Client × Result (Unit {0}))
      → SameOutputs s r.0
      → SameOutputs s (handled r (close w)).0
  handled_outputs s (t, ok a) h = h
  handled_outputs s (t, err e) h =
      let k = SameOutputs-IsKept.written in
      after-keeps k s (close w t) (λ _. raise {A = Unit {0}} e)
        (k.chain s t (close w t).0 h (close_outputs.keeps t)) (λ a u. refl)

  open_socket_outputs : Keeps SameOutputs (open_socket c w st)
  unfolding open_socket opened
  open_socket_outputs = record {
    keeps = λ s. elim (Bool-cases (w.connects s.tick)) [
      | inr e ↦ rw e refl
      | inl e ↦
          let s1 = opened c w st (record s { tick = s.tick + 1 }) in
          rw e (handled_outputs s (handshake c w st s1) (handshake_outputs.keeps s1))
    ];
  }

  -- Connecting hands nothing on.
  pub connect_outputs : Keeps SameOutputs (connect c w st)
  unfolding connect
  connect_outputs =
      >>=-Keeps SameOutputs-IsKept.written (close w) _ close_outputs λ _. open_socket_outputs
