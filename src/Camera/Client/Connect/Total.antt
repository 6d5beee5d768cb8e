-- ===== src/Camera/Client/Connect/Total.antt =====
-- Connecting ends, whatever the camera does.
use ino_a9_local_bridge.Base.{
  ℕ, zero, suc, ◌+◌, ◌*◌, ◌≤◌, ◌<◌, ◌≡◌, refl, List, [], ◌∷◌, Option, none, some, Bool, true, false,
  ◌&&◌, arith, inl, inr,
}
use ino_a9_local_bridge.Base.Tests.{ltb, ltb→lt, Bool-cases}
use ino_a9_local_bridge.Base.Int.{pos}
use ino_a9_local_bridge.Base.Except.{Result, ok, err, camera_error, timeout_error, os_error}
use ino_a9_local_bridge.Base.Raises.{
  Raises, IsPython, IsCameraError-IsPython, Raises-weaken, ok-Raises, err-Raises, require-Raises,
}
use ino_a9_local_bridge.Crypto.{Primitives}
use ino_a9_local_bridge.Packet.{Packet, rpc, av, raw, RpcPacket}
use ino_a9_local_bridge.Protobuf.{first_bytes_field}
use ino_a9_local_bridge.Protobuf.Total.{
  first_field-Raises, encode_protobuf_varint-Raises, build_lan_auth_request-Raises,
}
use ino_a9_local_bridge.Camera.Rpc.Total.{decrypt_rpc_payload-Raises}
use ino_a9_local_bridge.Camera.Client.{
  second, lan_auth_command, sync_command, video_start_command, Settings, World, Client, M, pure,
  raise, lift, modify, ask, handled, close, close_socket, cleared, send_request, handle_rpc_request,
  receive,
}
use ino_a9_local_bridge.Camera.Client.Steps.{Keeps-at, receive-Keeps}
use ino_a9_local_bridge.Camera.Client.Ends.{
  Advances, Ends, after-Raises, >>=-Ends, lift-Ends, pure-Ends, raise-Ends, modify-Ends, if_Ends,
  ask-Ends, guard-Ends, send_request-Ends, handle_rpc_request-Ends, receive-Ends,
}
use ino_a9_local_bridge.Camera.Client.Connect.{
  put_back, answers, code_is_zero, is_session_prefix, set_aside, sort_packet, sort_packets, judge,
  wait_loop, wait_response, time_request, answer_packet, answer_packets, sync_loop,
  answer_initial_time_syncs, exchange, authenticate, start_video, handshake, open_socket, connect,
}
use ino_a9_local_bridge.Camera.Client.Connect.Kept.{
  Later-IsKept, sort_packets-Keeps, answer_packets-Keeps,
}

module _ (c : Primitives) (w : World) (st : Settings) where
  put_back-Ends : (p : Packet) → Ends (put_back p)
  put_back-Ends p = modify-Ends _

  set_aside-Ends : (p : Packet) → Ends (set_aside c w st p)
  unfolding set_aside
  set_aside-Ends (rpc p) =
      >>=-Ends (handle_rpc_request c w st p) _ (handle_rpc_request-Ends c w st p)
        λ done. if_Ends done (pure tt) (put_back (rpc p)) (pure-Ends tt) (put_back-Ends (rpc p))
  set_aside-Ends (av p) = put_back-Ends (av p)
  set_aside-Ends (raw p) = put_back-Ends (raw p)

  sort_packet-Ends :
      (p : Packet) (answer found : Option RpcPacket) → Ends (sort_packet c w st p answer found)
  unfolding sort_packet
  sort_packet-Ends p (some q) found = pure-Ends (some q)
  sort_packet-Ends p none found =
      >>=-Ends (set_aside c w st p) _ (set_aside-Ends p) λ _. pure-Ends found

  sort_packets-Ends :
      (sequence command_id : ℕ) (ps : List Packet) (found : Option RpcPacket)
      → Ends (sort_packets c w st sequence command_id ps found)
  unfolding sort_packets
  sort_packets-Ends sequence command_id [] found = pure-Ends found
  sort_packets-Ends sequence command_id (p ∷ ps) found =
      >>=-Ends (sort_packet c w st p (answers sequence command_id p) found) _
        (sort_packet-Ends p (answers sequence command_id p) found)
        (sort_packets-Ends sequence command_id ps)

  answer_packet-Ends :
      (p : Packet) (request : Option RpcPacket) (replies : ℕ)
      → Ends (answer_packet c w st p request replies)
  unfolding answer_packet
  answer_packet-Ends p (some q) replies =
      >>=-Ends (handle_rpc_request c w st q) _ (handle_rpc_request-Ends c w st q)
        λ _. pure-Ends (replies + 1)
  answer_packet-Ends p none replies =
      >>=-Ends (put_back p) _ (put_back-Ends p) λ _. pure-Ends replies

  answer_packets-Ends : (ps : List Packet) (replies : ℕ) → Ends (answer_packets c w st ps replies)
  unfolding answer_packets
  answer_packets-Ends [] replies = pure-Ends replies
  answer_packets-Ends (p ∷ ps) replies =
      >>=-Ends (answer_packet c w st p (time_request p) replies) _
        (answer_packet-Ends p (time_request p) replies) (answer_packets-Ends ps)

  judge-Raises :
      (found : Option RpcPacket) (next : M RpcPacket) (s : Client)
      → Raises IsPython (next s).1
      → Raises IsPython (judge c w st found next s).1
  unfolding judge
  judge-Raises (some p) next s h =
      (if_Ends (code_is_zero p) (pure p) (raise camera_error) (pure-Ends p)
          (raise-Ends camera_error tt)).ends
        s
  judge-Raises none next s h = h

  module _ (advances : Advances w) where
    -- A round that begins before the deadline leaves fewer rounds, and time has passed.
    early :
        (deadline : ℕ) (s : Client) → ltb (w.monotonic s.tick) deadline ≡ true → s.tick < deadline
    early deadline s q = omega (arith, ltb→lt (w.monotonic s.tick) deadline q, advances s.tick)

    wait_loop-Ends :
        (fuel sequence command_id deadline : ℕ) (s : Client)
        → 0 < fuel
        → deadline < fuel + s.tick
        → Raises IsPython (wait_loop c w st fuel sequence command_id deadline s).1
    unfolding wait_loop
    wait_loop-Ends zero sequence command_id deadline s h k = absurd (omega arith)
    wait_loop-Ends (suc fuel) sequence command_id deadline s h k =
        let s1 = record s { tick = s.tick + 1 } in
        elim (Bool-cases (ltb (w.monotonic s.tick) deadline)) [
          | inr q ↦ rw q (err-Raises timeout_error tt)
          | inl q ↦
              let soon = early deadline s q in
              rw q (
                after-Raises (receive c w st deadline s1) _
                  ((receive-Ends c w st advances deadline).ends s1)
                  λ ps s2 e.
                    after-Raises (sort_packets c w st sequence command_id ps none s2) _
                      ((sort_packets-Ends sequence command_id ps none).ends s2)
                      λ found t e'.
                        let one : s1.tick ≤ s2.tick =
                          Keeps-at s1 s2 (ok ps) (receive-Keeps Later-IsKept c w st deadline) e in
                        let two : s2.tick ≤ t.tick =
                          Keeps-at s2 t (ok found)
                            (sort_packets-Keeps Later-IsKept c w st sequence command_id ps none)
                            e' in
                        judge-Raises found _ t (
                          wait_loop-Ends fuel sequence command_id deadline t (omega arith)
                            (omega arith)))
        ]

    wait_response-Ends : (sequence command_id : ℕ) → Ends (wait_response c w st sequence command_id)
    unfolding wait_response
    wait_response-Ends sequence command_id = record {
      ends = λ s.
          let deadline = w.monotonic s.tick + st.connect_timeout in
          wait_loop-Ends (suc deadline) sequence command_id deadline
            (record s { tick = s.tick + 1 }) (omega arith) (omega arith);
    }

    sync_loop-Ends :
        (fuel deadline replies : ℕ) (s : Client)
        → 0 < fuel
        → deadline < fuel + s.tick
        → Raises IsPython (sync_loop c w st fuel deadline replies s).1
    unfolding sync_loop
    sync_loop-Ends zero deadline replies s h k = absurd (omega arith)
    sync_loop-Ends (suc fuel) deadline replies s h k =
        let s1 = record s { tick = s.tick + 1 } in
        elim (Bool-cases (ltb (w.monotonic s.tick) deadline && ltb replies 2)) [
          | inr q ↦ rw q (ok-Raises tt)
          | inl q ↦
              let soon = early deadline s (both _ _ q) in
              rw q (
                after-Raises (receive c w st deadline s1) _
                  ((receive-Ends c w st advances deadline).ends s1)
                  λ ps s2 e.
                    after-Raises (answer_packets c w st ps replies s2) _
                      ((answer_packets-Ends ps replies).ends s2)
                      λ replies' t e'.
                        let one : s1.tick ≤ s2.tick =
                          Keeps-at s1 s2 (ok ps) (receive-Keeps Later-IsKept c w st deadline) e in
                        let two : s2.tick ≤ t.tick =
                          Keeps-at s2 t (ok replies')
                            (answer_packets-Keeps Later-IsKept c w st ps replies) e' in
                        sync_loop-Ends fuel deadline replies' t (omega arith) (omega arith))
        ]
      where
        both : (a b : Bool) → (a && b) ≡ true → a ≡ true
        both true b q = refl
        both false b q = cc

    answer_initial_time_syncs-Ends : Ends (answer_initial_time_syncs c w st)
    unfolding answer_initial_time_syncs
    answer_initial_time_syncs-Ends = record {
      ends = λ s.
          let deadline = w.monotonic s.tick + 2 * second in
          sync_loop-Ends (suc deadline) deadline 0 (record s { tick = s.tick + 1 }) (omega arith)
            (omega arith);
    }

    exchange-Ends :
        (sequence command_id : ℕ) (plaintext : List ℕ)
        → Ends (exchange c w st sequence command_id plaintext)
    unfolding exchange
    exchange-Ends sequence command_id plaintext =
        >>=-Ends (send_request c w st sequence command_id plaintext) _
          (send_request-Ends c w st sequence command_id plaintext)
          λ _. wait_response-Ends sequence command_id

    first_bytes-Ends :
        (payload : List ℕ) (number : ℕ) → Ends (lift (first_bytes_field payload number))
    first_bytes-Ends payload number = lift-Ends (first_bytes_field payload number) (
        Raises-weaken (first_bytes_field payload number) IsCameraError-IsPython
          (first_field-Raises payload number).1)

    authenticate-Ends : Ends (authenticate c w st)
    unfolding authenticate
    authenticate-Ends =
        >>=-Ends _ _ (lift-Ends _ (build_lan_auth_request-Raises st.user st.lan_password))
          λ request. >>=-Ends _ _ (exchange-Ends 1 lan_auth_command request) λ auth.
            >>=-Ends _ _ (lift-Ends _ (decrypt_rpc_payload-Raises c auth st.bootstrap_prefix))
              λ payload. >>=-Ends _ _ (first_bytes-Ends payload 1) λ prefix.
                >>=-Ends _ _
                  (lift-Ends _ (require-Raises (is_session_prefix prefix) camera_error tt))
                  λ _. pure-Ends prefix

    start_video-Ends : Ends (start_video c w st)
    unfolding start_video
    start_video-Ends =
        >>=-Ends _ _ (lift-Ends _ (encode_protobuf_varint-Raises (pos 1) (pos 1) tt)) λ sync.
          >>=-Ends _ _ (exchange-Ends 2 sync_command sync) λ _.
            >>=-Ends _ _ answer_initial_time_syncs-Ends λ _.
              >>=-Ends _ _ (lift-Ends _ (encode_protobuf_varint-Raises (pos 2) (pos 30) tt))
                λ qos. >>=-Ends _ _ (exchange-Ends 3 video_start_command qos) λ _. pure-Ends tt

    handshake-Ends : Ends (handshake c w st)
    unfolding handshake
    handshake-Ends = >>=-Ends (authenticate c w st) _ authenticate-Ends λ prefix.
        >>=-Ends (modify (λ s. record s { session_prefix = some prefix })) _ (modify-Ends _)
          λ _. start_video-Ends

    close-Ends : Ends (close w)
    unfolding close close_socket
    close-Ends =
        >>=-Ends _ _
          (guard-Ends (λ s. s.is_open) (close_socket w) (pure tt)
            (>>=-Ends (ask w.closes) _ (ask-Ends w.closes) λ closed.
              >>=-Ends (modify (λ s. record s { is_open = false })) _ (modify-Ends _) λ _.
                if_Ends closed (pure tt) (raise os_error) (pure-Ends tt) (raise-Ends os_error tt))
            (pure-Ends tt))
          (λ _. modify-Ends cleared)

    handled-Raises :
        (r : Client × Result (Unit {0}))
        → Raises IsPython r.1
        → Raises IsPython (handled r (close w)).1
    handled-Raises (s, ok a) h = h
    handled-Raises (s, err e) h =
        after-Raises (close w s) (λ _. raise {A = Unit {0}} e) (close-Ends.ends s)
          (λ a t _. record { raises = h.raises })

    open_socket-Ends : Ends (open_socket c w st)
    unfolding open_socket
    open_socket-Ends = record {
      ends = λ s. elim (Bool-cases (w.connects s.tick)) [
        | inl q ↦ rw q (handled-Raises _ (handshake-Ends.ends _))
        | inr q ↦ rw q (err-Raises os_error tt)
      ];
    }

    -- Where the clock runs, connecting ends, whatever the camera sends, in which pieces, or leaves
    -- out: the rounds of the waits for its answers never run out, and it returns or raises.
    pub connect-Ends : (s : Client) → Raises IsPython (connect c w st s).1
    unfolding connect
    connect-Ends = (>>=-Ends (close w) _ close-Ends λ _. open_socket-Ends).ends
