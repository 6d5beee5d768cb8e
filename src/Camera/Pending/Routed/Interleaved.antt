-- ===== src/Camera/Pending/Routed/Interleaved.antt =====
-- The steps of all threads in any order, and what a call returns behind them.
use ino_a9_local_bridge.Base.{
  ℕ, ◌≡◌, ◌⊎◌, refl, sym, ap, subst, ◌∙◌, List, [], ◌∷◌, Option, none, some, Bool, true, false,
  arith, inl, inr,
}
use ino_a9_local_bridge.Base.Tests.{◌==◌, if◌then◌else◌, Option-cases}
use ino_a9_local_bridge.Base.Dict.{lookup, nat_key, pair_key}
use ino_a9_local_bridge.Base.Except.{Exception, ok, err, camera_error}
use ino_a9_local_bridge.Packet.{RpcPacket}
use ino_a9_local_bridge.Camera.Pending.{
  CallKey, PendingCommand, Calls, no_calls, allocate_sequence, put_command, pop, outcome, finish,
  on_object, find_pending, write_response, write_error, set_event, take_all, reset_sequence,
}
use ino_a9_local_bridge.Camera.Pending.Routed.{
  IsRouted, Keyed, Keyed-new, on_object-Keyed, on_object-IsRouted, put_command-IsRouted,
  pop-IsRouted, some-injective,
}

-- The calls, and the packets for which the reader thread has found the object and which it has in its
-- hands, with their objects.
pub record Threads : Type 0 where
  pub calls : Calls
  pub held : List (RpcPacket × ℕ)

abbrev IsAmong : RpcPacket × ℕ → List (RpcPacket × ℕ) → Type 0
IsAmong p [] = ⊥
IsAmong p (q ∷ qs) = (q ≡ p) ⊎ IsAmong p qs

-- What the threads may do, in any order, each step under one lock or in one write. `puts` takes any
-- sequence number, since the one of a call was allocated at some time before; `writes_error` and
-- `sets` take any object, since those of `_fail_pending` were taken out of the table before, and
-- the packet that `_resolve_pending` writes was looked up before.
pub data Step : Threads → Threads → Type 0 where
  allocates : {t t' : Threads} → t' ≡ record t { calls = (allocate_sequence t.calls).1 } → Step t t'
  puts :
      (command_id sequence : ℕ) {t t' : Threads}
      → t' ≡ record t { calls = put_command command_id sequence t.calls }
      → Step t t'
  pops : (key : CallKey) {t t' : Threads} → t' ≡ record t { calls = pop key t.calls } → Step t t'
  finds :
      (packet : RpcPacket) (object : ℕ) {t t' : Threads}
      → find_pending packet t.calls ≡ some object
      → t' ≡ record t { held = (packet, object) ∷ t.held }
      → Step t t'
  writes_response :
      (packet : RpcPacket) (object : ℕ) {t t' : Threads}
      → IsAmong (packet, object) t.held
      → t' ≡ record t { calls = write_response packet object t.calls }
      → Step t t'
  takes_all : {t t' : Threads} → t' ≡ record t { calls = (take_all t.calls).1 } → Step t t'
  writes_error :
      (error : Exception) (object : ℕ) {t t' : Threads}
      → t' ≡ record t { calls = write_error error object t.calls }
      → Step t t'
  sets :
      (object : ℕ) {t t' : Threads} → t' ≡ record t { calls = set_event object t.calls } → Step t t'
  resets : {t t' : Threads} → t' ≡ record t { calls = reset_sequence t.calls } → Step t t'

pub data Reachable : Threads → Type 0 where
  initial : {t : Threads} → t ≡ record { calls = no_calls; held = [] } → Reachable t
  after : {t t' : Threads} → Reachable t → Step t t' → Reachable t'

-- The objects that are in hands are those of the calls that the packets answer.
record IsOrdered (t : Threads) : Type 0 where
  routed : IsRouted t.calls
  in_hands :
      (packet : RpcPacket) (object : ℕ)
      → IsAmong (packet, object) t.held
      → Keyed object (packet.command_id, packet.sequence) t.calls.objects

on_object-IsOrdered :
    (f : PendingCommand → PendingCommand) (object : ℕ) (t : Threads)
    → ((c : PendingCommand) → (f c).key ≡ c.key)
    → ((c : PendingCommand)
        → lookup object t.calls.objects ≡ some c
        → (packet : RpcPacket) → (f c).response ≡ some packet
        → (packet.command_id, packet.sequence) ≡ (f c).key)
    → IsOrdered t
    → IsOrdered (record t { calls = on_object f object t.calls })
on_object-IsOrdered f object t same own h = record {
  routed = on_object-IsRouted f same object t.calls own h.routed;
  in_hands = λ packet o among.
      on_object-Keyed f same object t.calls o (packet.command_id, packet.sequence)
        (h.in_hands packet o among);
}

-- The response that is written was looked up for the key of its object.
response_own :
    (packet : RpcPacket) (object : ℕ) (t : Threads) (c : PendingCommand)
    → Keyed object (packet.command_id, packet.sequence) t.calls.objects
    → lookup object t.calls.objects ≡ some c
    → (p : RpcPacket) → some packet ≡ some p
    → (p.command_id, p.sequence) ≡ c.key
response_own packet object t c (command, found, own) there p e =
    ap (λ x. (x.command_id, x.sequence)) (sym (some-injective e))
    ∙ sym own
    ∙ ap (λ x. x.key) (some-injective (sym found ∙ there))

Step-IsOrdered : (t t' : Threads) → Step t t' → IsOrdered t → IsOrdered t'
unfolding allocate_sequence put_command pop
Step-IsOrdered t t' (allocates e) h = subst IsOrdered (sym e) (record {
  routed = record { answers = h.routed.answers; owned = h.routed.owned };
  in_hands = h.in_hands;
})
Step-IsOrdered t t' (puts command_id sequence e) h = subst IsOrdered (sym e) (record {
  routed = put_command-IsRouted command_id sequence t.calls h.routed;
  in_hands = λ packet o among.
      Keyed-new t.calls.next_object t.calls.objects _ o (packet.command_id, packet.sequence)
        h.routed.answers (h.in_hands packet o among);
})
Step-IsOrdered t t' (pops key e) h =
    subst IsOrdered (sym e)
      (record { routed = pop-IsRouted key t.calls h.routed; in_hands = h.in_hands })
Step-IsOrdered t t' (finds packet object found e) h = subst IsOrdered (sym e) (record {
  routed = h.routed;
  in_hands = λ p o among. elim among [
    | inl same ↦
        subst (λ x. Keyed (x.1) (x.0.command_id, x.0.sequence) t.calls.objects) same
          (h.routed.owned (packet.command_id, packet.sequence) object found)
    | inr earlier ↦ h.in_hands p o earlier
  ];
})
Step-IsOrdered t t' (writes_response packet object among e) h = subst IsOrdered (sym e) (
    on_object-IsOrdered (λ command. record command { response = some packet }) object t (λ c. refl)
      (λ c there. response_own packet object t c (h.in_hands packet object among) there) h)
Step-IsOrdered t t' (takes_all e) h = subst IsOrdered (sym e) (record {
  routed = record { answers = h.routed.answers; owned = λ key o found. absurd (nothing o found) };
  in_hands = h.in_hands;
})
  where
    nothing : (o : ℕ) → none ≡ some o → ⊥
    nothing o found = cc
Step-IsOrdered t t' (writes_error error object e) h = subst IsOrdered (sym e) (
    on_object-IsOrdered (λ command. record command { error = some error }) object t (λ c. refl)
      (λ c there. (h.routed.answers object c there).1) h)
Step-IsOrdered t t' (sets object e) h = subst IsOrdered (sym e) (
    on_object-IsOrdered (λ command. record command { is_set = true }) object t (λ c. refl)
      (λ c there. (h.routed.answers object c there).1) h)
Step-IsOrdered t t' (resets e) h = subst IsOrdered (sym e) (record {
  routed = record { answers = h.routed.answers; owned = h.routed.owned };
  in_hands = h.in_hands;
})

Reachable-IsOrdered : (t : Threads) → Reachable t → IsOrdered t
Reachable-IsOrdered t (initial e) = subst IsOrdered (sym e) (record {
  routed = record {
    answers = λ o c found. absurd (nothing_there c found);
    owned = λ key o found. absurd (nothing o found);
  };
  in_hands = λ packet o among. absurd among;
})
  where
    nothing_there : (c : PendingCommand) → none ≡ some c → ⊥
    nothing_there c e = cc

    nothing : (o : ℕ) → none ≡ some o → ⊥
    nothing o e = cc
Reachable-IsOrdered t' (after {t = t} r step) = Step-IsOrdered t t' step (Reachable-IsOrdered t r)

outcome-eq-ok :
    (error : Option Exception) (response : Option RpcPacket) (r : RpcPacket)
    → outcome error response ≡ ok r
    → (response ≡ some r) × (r.response_code ≡ some 0)
unfolding outcome
outcome-eq-ok (some x) response r e = cc
outcome-eq-ok none none r e = cc
outcome-eq-ok none (some p) r e = elim (Option-cases p.response_code) [
  | inl k ↦ cc
  | inr (code, k) ↦ zero_code code k (rw (k, outcome) at e)
]
  where
    zero_code :
        (code : ℕ)
        → p.response_code ≡ some code
        → (if code == 0 then ok p else err camera_error) ≡ ok r
        → (some p ≡ some r) × (r.response_code ≡ some 0)
    zero_code code k q = ground (arith, k, q)

-- Whatever the threads do, in any order of their locked parts and single writes: a call of
-- `send_control` that returns, by the answer of its wait, the error that it has read at any time and
-- the response that it reads in its object, returns a packet that carries its own command and its
-- own sequence number, and the code 0.
pub finish-Reachable :
    (t : Threads) (object : ℕ) (command : PendingCommand) (waited : Bool) (error : Option Exception)
    (r : RpcPacket)
    → Reachable t
    → lookup object t.calls.objects ≡ some command
    → finish waited error command.response ≡ ok r
    → ((r.command_id, r.sequence) ≡ command.key) × (r.response_code ≡ some 0)
unfolding finish
finish-Reachable t object command true error r reached found e =
    let (answered, zero_code) = outcome-eq-ok error command.response r e in
    let routed = (Reachable-IsOrdered t reached).routed in
    ((routed.answers object command found).1 r answered, zero_code)
finish-Reachable t object command false error r reached found e = cc
