-- ===== src/Camera/Pending.antt =====
-- The pending commands of `CameraClient` in ino_a9_bridge/src/wificam_bridge/camera.py. A call of
-- `send_control` waits on an object that it shares with the reader thread through a table, so the
-- objects have a store of their own. What runs under a lock, or writes one field of an object, is a
-- function of its own, so that the threads can be interleaved between any two of them.
pub mod Routed
pub mod Examples
use ino_a9_local_bridge.Base.{
  ℕ, ◌+◌, ◌≡◌, refl, List, [], ◌∷◌, Option, none, some, Bool, true, false,
}
use ino_a9_local_bridge.Base.Tests.{◌==◌, if◌then◌else◌}
use ino_a9_local_bridge.Base.Dict.{Dict, lookup, insert, remove, nat_key, pair_key}
use ino_a9_local_bridge.Base.Except.{Exception, Result, ok, err, camera_error, timeout_error}
use ino_a9_local_bridge.Packet.{RpcPacket}

-- The command and the sequence number of a call.
abbrev pub CallKey : Type 0
CallKey = ℕ × ℕ

-- `_PendingCommand`. The key is the one under which its call put it into the table; the code keeps
-- it in a local variable of the call.
pub record PendingCommand : Type 0 where
  pub key : CallKey
  pub is_set : Bool
  pub response : Option RpcPacket
  pub error : Option Exception

-- `_next_sequence` and `_pending_commands`, which names the objects by their place in the store.
pub record Calls : Type 0 where
  pub next_sequence : ℕ
  pub pending_commands : Dict CallKey ℕ
  pub next_object : ℕ
  pub objects : Dict ℕ PendingCommand

-- `__init__`
abbrev pub no_calls : Calls
no_calls = record { next_sequence = 5; pending_commands = []; next_object = 0; objects = [] }

-- `_allocate_sequence`
pub allocate_sequence : Calls → ℕ × Calls
allocate_sequence s = (s.next_sequence, record s { next_sequence = s.next_sequence + 1 })

-- The second lock of `send_control`: a new object is put into the table, under the call's sequence
-- number, which stands in a local variable since it was allocated.
pub put_command : ℕ → ℕ → Calls → Calls
put_command command_id sequence s =
    let key : CallKey = (command_id, sequence) in
    record s {
      pending_commands = insert key s.next_object s.pending_commands;
      next_object = s.next_object + 1;
      objects =
          insert s.next_object (record { key = key; is_set = false; response = none; error = none })
            s.objects;
    }

-- `self._pending_commands.pop(key, None)`
pub pop : CallKey → Calls → Calls
pop key s = record s { pending_commands = remove key s.pending_commands }

-- What a waiting call makes of the error and the response that it reads in its object.
pub outcome : Option Exception → Option RpcPacket → Result RpcPacket
outcome (some error) response = err error
outcome none response = elim response [
  | none ↦ err camera_error
  | some response ↦ elim response.response_code [
    | none ↦ err camera_error
    | some code ↦ if code == 0 then ok response else err camera_error
  ]
]

-- The end of `send_control`, by what its wait for the event has returned. It pops its key before it
-- reads the object, the error first.
pub finish : Bool → Option Exception → Option RpcPacket → Result RpcPacket
unfolding outcome
finish waited error response = if waited then outcome error response else err timeout_error

abbrev pub changed :
    (PendingCommand → PendingCommand)
    → Option PendingCommand
    → ℕ
    → Dict ℕ PendingCommand
    → Dict ℕ PendingCommand
changed f none object objects = objects
changed f (some command) object objects = insert object (f command) objects

-- A write to one object.
abbrev pub on_object : (PendingCommand → PendingCommand) → ℕ → Calls → Calls
on_object f object s = record s { objects = changed f (lookup object s.objects) object s.objects }

-- `pending.response = packet`
abbrev pub write_response : RpcPacket → ℕ → Calls → Calls
write_response packet = on_object λ command. record command { response = some packet }

-- `command.error = error`
abbrev pub write_error : Exception → ℕ → Calls → Calls
write_error error = on_object λ command. record command { error = some error }

-- `event.set()`
abbrev pub set_event : ℕ → Calls → Calls
set_event = on_object λ command. record command { is_set = true }

-- What `_resolve_pending` finds under the lock.
abbrev pub find_pending : RpcPacket → Calls → Option ℕ
find_pending packet s = lookup (packet.command_id, packet.sequence) s.pending_commands

abbrev pub resolve_found : RpcPacket → Option ℕ → Calls → Calls × Bool
resolve_found packet none s = (s, false)
resolve_found packet (some object) s = (set_event object (write_response packet object s), true)

-- `_resolve_pending`, of a thread that no other one interrupts.
pub resolve_pending : RpcPacket → Calls → Calls × Bool
resolve_pending packet s = resolve_found packet (find_pending packet s) s

-- What `_fail_pending` does under the lock: it takes the objects out of the table.
abbrev pub take_all : Calls → Dict CallKey ℕ × Calls
take_all s = (s.pending_commands, record s { pending_commands = [] })

-- The loop over the objects that were taken.
pub fail_all : Exception → Dict CallKey ℕ → Calls → Calls
fail_all error [] s = s
fail_all error ((key, object) ∷ commands) s =
    fail_all error commands (set_event object (write_error error object s))

-- `_fail_pending`, of a thread that no other one interrupts.
pub fail_pending : Exception → Calls → Calls
unfolding fail_all
fail_pending error s = let (commands, s') = take_all s in fail_all error commands s'

fail_all-pending_commands :
    (error : Exception) (commands : Dict CallKey ℕ) (s : Calls)
    → (fail_all error commands s).pending_commands ≡ s.pending_commands
unfolding fail_all
fail_all-pending_commands error [] s = refl
fail_all-pending_commands error ((key, object) ∷ commands) s =
    fail_all-pending_commands error commands (set_event object (write_error error object s))

pub fail_pending_empties :
    (error : Exception) (s : Calls) → (fail_pending error s).pending_commands ≡ []
unfolding fail_pending
fail_pending_empties error s =
    fail_all-pending_commands error s.pending_commands (record s { pending_commands = [] })

-- The reset of the numbers by `connect`.
abbrev pub reset_sequence : Calls → Calls
reset_sequence s = record s { next_sequence = 5 }
