-- ===== src/Camera/Client/Connect/Answer.antt =====
-- A request and the response to it.
use ino_a9_local_bridge.Base.{
  ℕ, zero, suc, ◌+◌, ◌≡◌, refl, sym, ap, subst, ◌∙◌, List, [], ◌∷◌, ◌++◌, append_assoc, append-nil,
  Option, none, some, Bool, true, false, ◌&&◌, ◌⊎◌, arith, inl, inr,
}
use ino_a9_local_bridge.Base.Tests.{ltb, ◌==◌, if◌then◌else◌, Option-cases}
use ino_a9_local_bridge.Base.Except.{ok, camera_error, timeout_error, os_error, ok-injective}
use ino_a9_local_bridge.Crypto.{Primitives}
use ino_a9_local_bridge.Packet.{Packet, rpc, av, raw, RpcPacket}
use ino_a9_local_bridge.Camera.Rpc.{pack_rpc, rpc_request, rpc_response}
use ino_a9_local_bridge.Camera.Client.{
  Settings, World, Client, M, pure, modify, sendall, send, send_request, receive,
}
use ino_a9_local_bridge.Camera.Client.Steps.{after-eq-ok, lift-eq-ok, guard-eq-ok, IsKept, Keeps-at}
use ino_a9_local_bridge.Camera.Client.Connect.{
  answers, code_is_zero, set_aside, sort_packet, sort_packets, judge, wait_loop, wait_response,
  exchange,
}
use ino_a9_local_bridge.Camera.Client.Connect.Kept.{wait_response-Keeps}

-- A response to the request, with the code 0.
pub record IsAnswer (sequence command_id : ℕ) (p : RpcPacket) : Type 0 where
  pub is_response : p.rpc_type ≡ rpc_response
  pub sequence_same : p.sequence ≡ sequence
  pub command_same : p.command_id ≡ command_id
  pub code_zero : p.response_code ≡ some 0

record IsResponse (sequence command_id : ℕ) (p : RpcPacket) : Type 0 where
  is_response : p.rpc_type ≡ rpc_response
  sequence_same : p.sequence ≡ sequence
  command_same : p.command_id ≡ command_id

-- What was found so far.
abbrev AreResponses : ℕ → ℕ → Option RpcPacket → Type 0
AreResponses sequence command_id none = Unit
AreResponses sequence command_id (some p) = IsResponse sequence command_id p

answers-AreResponses :
    (sequence command_id : ℕ) (packet : Packet)
    → AreResponses sequence command_id (answers sequence command_id packet)
answers-AreResponses sequence command_id (rpc p) =
    matched (p.rpc_type == rpc_response) (p.sequence == sequence) (p.command_id == command_id) refl
      refl refl
  where
    matched :
        (a b d : Bool)
        → (p.rpc_type == rpc_response) ≡ a
        → (p.sequence == sequence) ≡ b
        → (p.command_id == command_id) ≡ d
        → AreResponses sequence command_id (if a && (b && d) then some p else none)
    matched true true true ha hb hd = record {
      is_response = ground arith;
      sequence_same = ground arith;
      command_same = ground arith;
    }
    matched true true false ha hb hd = tt
    matched true false d ha hb hd = tt
    matched false b d ha hb hd = tt
answers-AreResponses sequence command_id (av p) = tt
answers-AreResponses sequence command_id (raw p) = tt

module _ (c : Primitives) (w : World) (st : Settings) (sequence command_id : ℕ) where
  sort_packet-AreResponses :
      (packet : Packet) (answer found found' : Option RpcPacket) (s t : Client)
      → AreResponses sequence command_id answer
      → AreResponses sequence command_id found
      → sort_packet c w st packet answer found s ≡ (t, ok found')
      → AreResponses sequence command_id found'
  unfolding sort_packet
  sort_packet-AreResponses packet (some p) found found' s t h k e =
      subst (AreResponses sequence command_id) (ok-injective (ap (λ x. x.1) e)) h
  sort_packet-AreResponses packet none found found' s t h k e =
      let (_, s1, _, rest) = after-eq-ok (set_aside c w st packet s) _ t found' e in
      subst (AreResponses sequence command_id) (ok-injective (ap (λ x. x.1) rest)) k

  sort_packets-AreResponses :
      (packets : List Packet) (found found' : Option RpcPacket) (s t : Client)
      → AreResponses sequence command_id found
      → sort_packets c w st sequence command_id packets found s ≡ (t, ok found')
      → AreResponses sequence command_id found'
  unfolding sort_packets
  sort_packets-AreResponses [] found found' s t h e =
      subst (AreResponses sequence command_id) (ok-injective (ap (λ x. x.1) e)) h
  sort_packets-AreResponses (p ∷ ps) found found' s t h e =
      let answer = answers sequence command_id p in
      let (next, s1, first, rest) =
        after-eq-ok (sort_packet c w st p answer found s) _ t found' e in
      let k =
        sort_packet-AreResponses p answer found next s s1
          (answers-AreResponses sequence command_id p) h first in
      sort_packets-AreResponses ps next found' s1 t k rest

  judge-IsAnswer :
      (found : Option RpcPacket) (next : M RpcPacket) (s t : Client) (p : RpcPacket)
      → AreResponses sequence command_id found
      → (next s ≡ (t, ok p) → IsAnswer sequence command_id p)
      → judge c w st found next s ≡ (t, ok p)
      → IsAnswer sequence command_id p
  unfolding judge
  judge-IsAnswer none next s t p h k e = k e
  judge-IsAnswer (some q) next s t p h k e =
      let (zero_code, e1) = guard-eq-ok (code_is_zero q) (pure q) camera_error s t p e in
      subst (IsAnswer sequence command_id) (ok-injective (ap (λ x. x.1) e1)) (record {
        is_response = h.is_response;
        sequence_same = h.sequence_same;
        command_same = h.command_same;
        code_zero = code (Option-cases q.response_code) zero_code;
      })
    where
      code :
          (q.response_code ≡ none) ⊎ ((n : ℕ) × (q.response_code ≡ some n))
          → code_is_zero q ≡ true
          → q.response_code ≡ some 0
      code (inl f) z = cc (rw f at z)
      code (inr (n, f)) z = ground (arith, f)

  wait_loop-IsAnswer :
      (fuel deadline : ℕ) (s t : Client) (p : RpcPacket)
      → wait_loop c w st fuel sequence command_id deadline s ≡ (t, ok p)
      → IsAnswer sequence command_id p
  unfolding wait_loop
  wait_loop-IsAnswer zero deadline s t p e = cc
  wait_loop-IsAnswer (suc fuel) deadline s t p e =
      let s1 = record s { tick = s.tick + 1 } in
      let (_, e1) = guard-eq-ok (ltb (w.monotonic s.tick) deadline) _ timeout_error s1 t p e in
      let (ps, s2, _, e2) = after-eq-ok (receive c w st deadline s1) _ t p e1 in
      let (found, s3, sorted, e3) =
        after-eq-ok (sort_packets c w st sequence command_id ps none s2) _ t p e2 in
      judge-IsAnswer found _ s3 t p (sort_packets-AreResponses ps none found s2 s3 tt sorted)
        (wait_loop-IsAnswer fuel deadline s3 t p) e3

  wait_response-IsAnswer :
      (s t : Client) (p : RpcPacket)
      → wait_response c w st sequence command_id s ≡ (t, ok p)
      → IsAnswer sequence command_id p
  unfolding wait_response
  wait_response-IsAnswer s t p e =
      let deadline = w.monotonic s.tick + st.connect_timeout in
      wait_loop-IsAnswer (suc deadline) deadline (record s { tick = s.tick + 1 }) t p e

-- What was sent stays sent.
abbrev Extends : Client → Client → Type 0
Extends s t = (more : List (List ℕ)) × (t.sent ≡ s.sent ++ more)

Extends-chain : (s t u : Client) → Extends s t → Extends t u → Extends s u
Extends-chain s t u (xs, h) (ys, k) =
    (xs ++ ys, k ∙ ap (λ x. x ++ ys) h ∙ append_assoc s.sent xs ys)

Extends-IsKept : IsKept Extends
Extends-IsKept = record {
  written = record {
    same = λ s. ([], sym (append-nil s.sent));
    chain = Extends-chain;
    ticks = λ s. ([], sym (append-nil s.sent));
    writes = λ s message. (message ∷ [], refl);
  };
  hears = λ s bytes. ([], sym (append-nil s.sent));
  buffers = λ s bytes. ([], sym (append-nil s.sent));
  queues = λ s ps. ([], sym (append-nil s.sent));
}

module _ (c : Primitives) (w : World) (st : Settings) where
  sendall-sent :
      (message : List ℕ) (s t : Client)
      → sendall c w st message s ≡ (t, ok tt)
      → t.sent ≡ s.sent ++ (message ∷ [])
  unfolding sendall
  sendall-sent message s t e =
      let s1 = record s { tick = s.tick + 1 } in
      let (_, e1) =
        guard-eq-ok (w.sends s.tick) (modify (λ x. record x { sent = x.sent ++ (message ∷ []) }))
          os_error s1 t tt e in
      ap (λ x. x.0.sent) (sym e1)

  send_request-sent :
      (sequence command_id : ℕ) (plaintext : List ℕ) (s t : Client)
      → send_request c w st sequence command_id plaintext s ≡ (t, ok tt)
      → (message : List ℕ) × (pack_rpc c sequence command_id plaintext st.bootstrap_prefix
            rpc_request 0
          ≡ ok message)
        × (t.sent ≡ s.sent ++ (message ∷ []))
  unfolding send_request send
  send_request-sent sequence command_id plaintext s t e =
      let packed = pack_rpc c sequence command_id plaintext st.bootstrap_prefix rpc_request 0 in
      let (message, made, e1) = lift-eq-ok packed _ s t tt e in
      let (_, e2) = guard-eq-ok s.is_open (sendall c w st message) camera_error s t tt e1 in
      (message, made, sendall-sent message s t e2)

  -- An exchange that returns has sent its request, before all else that it sent, and returns a
  -- response that carries the sequence number and the command of the request and the code 0.
  pub exchange-IsAnswer :
      (sequence command_id : ℕ) (plaintext : List ℕ) (s t : Client) (p : RpcPacket)
      → exchange c w st sequence command_id plaintext s ≡ (t, ok p)
      → IsAnswer sequence command_id p
        × ((message : List ℕ) × (more : List (List ℕ)) × (pack_rpc c sequence command_id plaintext
                st.bootstrap_prefix rpc_request 0
              ≡ ok message)
            × (t.sent ≡ s.sent ++ (message ∷ more)))
  unfolding exchange
  exchange-IsAnswer sequence command_id plaintext s t p e =
      let (_, s1, asked, e1) =
        after-eq-ok (send_request c w st sequence command_id plaintext s) _ t p e in
      let (message, made, first) = send_request-sent sequence command_id plaintext s s1 asked in
      let (more, rest) =
        Keeps-at s1 t (ok p) (wait_response-Keeps Extends-IsKept c w st sequence command_id) e1 in
      (
        wait_response-IsAnswer c w st sequence command_id s1 t p e1,
        (
          message,
          more,
          made,
          rest ∙ ap (λ x. x ++ more) first ∙ append_assoc s.sent (message ∷ []) more,
        ),
      )
