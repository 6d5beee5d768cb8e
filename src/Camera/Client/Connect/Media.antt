-- ===== src/Camera/Client/Connect/Media.antt =====
-- No media packet that arrives while the client connects is lost.
use ino_a9_local_bridge.Base.{
  ℕ, zero, suc, ◌+◌, ◌*◌, ◌≡◌, sym, ap, ◌∙◌, List, [], ◌∷◌, ◌++◌, Option, none, some, Bool, true,
  false, ◌&&◌,
}
use ino_a9_local_bridge.Base.Tests.{ltb, if◌then◌else◌}
use ino_a9_local_bridge.Base.Except.{camera_error, timeout_error, out_of_fuel}
use ino_a9_local_bridge.Crypto.{Primitives}
use ino_a9_local_bridge.Packet.{Packet, rpc, av, raw, RpcPacket}
use ino_a9_local_bridge.Camera.Client.{
  second, Settings, World, M, pure, raise, ask, send_request, handle_rpc_request,
}
use ino_a9_local_bridge.Camera.Client.Steps.{send_request-Keeps, handle_rpc_request-Keeps}
use ino_a9_local_bridge.Camera.Client.Collects.{
  media, media-append, Silent-IsWritten, Stores, Collects, Silent-Stores, pure-Stores, >>=-Stores,
  Stores-Collects, Silent-Collects, pure-Collects, raise-Collects, ask-Collects, lift-Collects,
  if_Collects, >>=-Collects, receive-Collects,
}
use ino_a9_local_bridge.Camera.Client.Connect.{
  put_back, answers, code_is_zero, set_aside, sort_packet, sort_packets, judge, wait_loop,
  wait_response, time_request, answer_packet, answer_packets, sync_loop, answer_initial_time_syncs,
  exchange, authenticate, start_video,
}

module _ (c : Primitives) (w : World) (st : Settings) where
  put_back-Stores : (p : Packet) → Stores (p ∷ []) (put_back p)
  put_back-Stores p = record {
    stores = λ s t a e.
        let state : record s { pending = s.pending ++ (p ∷ []) } ≡ t = ap (λ x. x.0) e in
        record {
          received = ap (λ x. x.received) (sym state);
          buffer = ap (λ x. x.buffer) (sym state);
          pending = ap (λ x. media x.pending) (sym state) ∙ media-append s.pending (p ∷ []);
        };
  }

  handled-Stores : (p : RpcPacket) → Stores [] (handle_rpc_request c w st p)
  handled-Stores p =
      Silent-Stores (handle_rpc_request c w st p)
        (handle_rpc_request-Keeps Silent-IsWritten c w st p)

  -- An RPC packet is no media packet, put back or not.
  rpc-Stores : {A : Type 0} (p : RpcPacket) (m : M A) → Stores (rpc p ∷ []) m → Stores [] m
  rpc-Stores p m h = record {
    stores = λ s t a e.
        let k = h.stores s t a e in
        record { received = k.received; buffer = k.buffer; pending = k.pending };
  }

  Stores-rpc : {A : Type 0} (p : RpcPacket) (m : M A) → Stores [] m → Stores (rpc p ∷ []) m
  Stores-rpc p m h = record {
    stores = λ s t a e.
        let k = h.stores s t a e in
        record { received = k.received; buffer = k.buffer; pending = k.pending };
  }

  if_Stores :
      {A : Type 0} {hand : List Packet} (b : Bool) (m n : M A)
      → Stores hand m
      → Stores hand n
      → Stores hand (if b then m else n)
  if_Stores true m n h k = h
  if_Stores false m n h k = k

  set_aside-Stores : (p : Packet) → Stores (p ∷ []) (set_aside c w st p)
  unfolding set_aside
  set_aside-Stores (rpc p) = Stores-rpc p _ (
      >>=-Stores [] [] (handle_rpc_request c w st p) _ (handled-Stores p) λ done.
        if_Stores done (pure tt) (put_back (rpc p)) (pure-Stores tt)
          (rpc-Stores p (put_back (rpc p)) (put_back-Stores (rpc p))))
  set_aside-Stores (av p) = put_back-Stores (av p)
  set_aside-Stores (raw p) = put_back-Stores (raw p)

  sort_packet-Stores :
      (sequence command_id : ℕ) (p : Packet) (found : Option RpcPacket)
      → Stores (p ∷ []) (sort_packet c w st p (answers sequence command_id p) found)
  unfolding sort_packet
  sort_packet-Stores sequence command_id (rpc p) found =
      Stores-rpc p _ (by_answer (answers sequence command_id (rpc p)))
    where
      by_answer : (o : Option RpcPacket) → Stores [] (sort_packet c w st (rpc p) o found)
      by_answer (some q) = pure-Stores (some q)
      by_answer none =
          >>=-Stores [] [] (set_aside c w st (rpc p)) _
            (rpc-Stores p (set_aside c w st (rpc p)) (set_aside-Stores (rpc p)))
            λ _. pure-Stores found
  sort_packet-Stores sequence command_id (av p) found =
      >>=-Stores (av p ∷ []) [] (set_aside c w st (av p)) _ (set_aside-Stores (av p))
        λ _. pure-Stores found
  sort_packet-Stores sequence command_id (raw p) found =
      >>=-Stores (raw p ∷ []) [] (set_aside c w st (raw p)) _ (set_aside-Stores (raw p))
        λ _. pure-Stores found

  sort_packets-Stores :
      (sequence command_id : ℕ) (ps : List Packet) (found : Option RpcPacket)
      → Stores ps (sort_packets c w st sequence command_id ps found)
  unfolding sort_packets
  sort_packets-Stores sequence command_id [] found = pure-Stores found
  sort_packets-Stores sequence command_id (p ∷ ps) found =
      >>=-Stores (p ∷ []) ps (sort_packet c w st p (answers sequence command_id p) found) _
        (sort_packet-Stores sequence command_id p found)
        (sort_packets-Stores sequence command_id ps)

  judge-Collects :
      (found : Option RpcPacket) (next : M RpcPacket)
      → Collects [] next
      → Collects [] (judge c w st found next)
  unfolding judge
  judge-Collects (some p) next h =
      if_Collects (code_is_zero p) (pure p) (raise camera_error) (pure-Collects p)
        (raise-Collects [] camera_error)
  judge-Collects none next h = h

  wait_loop-Collects :
      (fuel sequence command_id deadline : ℕ)
      → Collects [] (wait_loop c w st fuel sequence command_id deadline)
  unfolding wait_loop
  wait_loop-Collects zero sequence command_id deadline = raise-Collects [] out_of_fuel
  wait_loop-Collects (suc fuel) sequence command_id deadline =
      >>=-Collects (ask w.monotonic) _ (ask-Collects w.monotonic) λ now.
        if_Collects (ltb now deadline) _ (raise timeout_error)
          (receive-Collects c w st deadline _ λ packets.
            >>=-Collects (sort_packets c w st sequence command_id packets none) _
              (Stores-Collects packets _ (sort_packets-Stores sequence command_id packets none))
              λ found.
                judge-Collects found _ (wait_loop-Collects fuel sequence command_id deadline))
          (raise-Collects [] timeout_error)

  wait_response-Collects :
      (sequence command_id : ℕ) → Collects [] (wait_response c w st sequence command_id)
  unfolding wait_response
  wait_response-Collects sequence command_id =
      >>=-Collects (ask w.monotonic) _ (ask-Collects w.monotonic) λ now.
        wait_loop-Collects (suc (now + st.connect_timeout)) sequence command_id
          (now + st.connect_timeout)

  answer_packet-Stores :
      (p : Packet) (replies : ℕ) → Stores (p ∷ []) (answer_packet c w st p (time_request p) replies)
  unfolding answer_packet
  answer_packet-Stores (rpc p) replies = Stores-rpc p _ (by_request (time_request (rpc p)))
    where
      by_request : (o : Option RpcPacket) → Stores [] (answer_packet c w st (rpc p) o replies)
      by_request (some q) =
          >>=-Stores [] [] (handle_rpc_request c w st q) _ (handled-Stores q)
            λ _. pure-Stores (replies + 1)
      by_request none =
          >>=-Stores [] [] (put_back (rpc p)) _
            (rpc-Stores p (put_back (rpc p)) (put_back-Stores (rpc p))) λ _. pure-Stores replies
  answer_packet-Stores (av p) replies =
      >>=-Stores (av p ∷ []) [] (put_back (av p)) _ (put_back-Stores (av p))
        λ _. pure-Stores replies
  answer_packet-Stores (raw p) replies =
      >>=-Stores (raw p ∷ []) [] (put_back (raw p)) _ (put_back-Stores (raw p))
        λ _. pure-Stores replies

  answer_packets-Stores :
      (ps : List Packet) (replies : ℕ) → Stores ps (answer_packets c w st ps replies)
  unfolding answer_packets
  answer_packets-Stores [] replies = pure-Stores replies
  answer_packets-Stores (p ∷ ps) replies =
      >>=-Stores (p ∷ []) ps (answer_packet c w st p (time_request p) replies) _
        (answer_packet-Stores p replies) (answer_packets-Stores ps)

  sync_loop-Collects :
      (fuel deadline replies : ℕ) → Collects [] (sync_loop c w st fuel deadline replies)
  unfolding sync_loop
  sync_loop-Collects zero deadline replies = raise-Collects [] out_of_fuel
  sync_loop-Collects (suc fuel) deadline replies =
      >>=-Collects (ask w.monotonic) _ (ask-Collects w.monotonic) λ now.
        if_Collects (ltb now deadline && ltb replies 2) _ (pure tt)
          (receive-Collects c w st deadline _ λ packets.
            >>=-Collects (answer_packets c w st packets replies) _
              (Stores-Collects packets _ (answer_packets-Stores packets replies))
              (sync_loop-Collects fuel deadline))
          (pure-Collects tt)

  answer_initial_time_syncs-Collects : Collects [] (answer_initial_time_syncs c w st)
  unfolding answer_initial_time_syncs
  answer_initial_time_syncs-Collects =
      >>=-Collects (ask w.monotonic) _ (ask-Collects w.monotonic)
        λ now. sync_loop-Collects (suc (now + 2 * second)) (now + 2 * second) 0

  pub exchange-Collects :
      (sequence command_id : ℕ) (plaintext : List ℕ)
      → Collects [] (exchange c w st sequence command_id plaintext)
  unfolding exchange
  exchange-Collects sequence command_id plaintext =
      >>=-Collects (send_request c w st sequence command_id plaintext) _
        (Silent-Collects (send_request c w st sequence command_id plaintext)
          (send_request-Keeps Silent-IsWritten c w st sequence command_id plaintext))
        λ _. wait_response-Collects sequence command_id

  pub authenticate-Collects : Collects [] (authenticate c w st)
  unfolding authenticate
  authenticate-Collects =
      search (>>=-Collects, lift-Collects, pure-Collects, exchange-Collects) depth 12

  pub start_video-Collects : Collects [] (start_video c w st)
  unfolding start_video
  start_video-Collects =
      search
        (
          >>=-Collects, lift-Collects, pure-Collects, exchange-Collects,
          answer_initial_time_syncs-Collects,
        )
        depth 12
