-- ===== src/Camera/Pending/Examples.antt =====
-- A call that is answered by the camera.
use ino_a9_local_bridge.Base.{◌≡◌, refl, inl, [], ◌∷◌, none, some, true, false}
use ino_a9_local_bridge.Base.Dict.{lookup, nat_key}
use ino_a9_local_bridge.Base.Except.{ok}
use ino_a9_local_bridge.Packet.{RpcPacket}
use ino_a9_local_bridge.Camera.Pending.{
  CallKey, PendingCommand, no_calls, allocate_sequence, put_command, find_pending, write_response,
  set_event, take_all, reset_sequence, outcome, finish,
}
use ino_a9_local_bridge.Camera.Pending.Routed.Interleaved.{
  Threads, Reachable, initial, after, allocates, resets, puts, finds, takes_all, writes_response,
  sets, finish-Reachable,
}

abbrev answer : RpcPacket
answer = record {
  header = record { message_type = 4; flag = 8; body_length = 6; is_udp = false; size = 2 };
  sequence = 5;
  command_id = 2649;
  encryption_type = 3;
  rpc_type = 1;
  response_code = some 0;
  payload = [];
}

-- The call is given its number, the numbers are reset by another thread, and then it puts its object
-- into the table.
abbrev idle : Threads
idle = record { calls = no_calls; held = [] }

abbrev numbered : Threads
numbered = record { calls = (allocate_sequence no_calls).1; held = [] }

abbrev renumbered : Threads
renumbered = record { calls = reset_sequence numbered.calls; held = [] }

abbrev called : Threads
called = record { calls = put_command 2649 5 renumbered.calls; held = [] }

abbrev found : Threads
found = record { calls = called.calls; held = (answer, 0) ∷ [] }

-- The table is emptied between the look up and the write.
abbrev emptied : Threads
emptied = record found { calls = (take_all found.calls).1 }

abbrev answered : Threads
answered = record emptied { calls = write_response answer 0 emptied.calls }

abbrev done : Threads
done = record answered { calls = set_event 0 answered.calls }

abbrev command : PendingCommand
command = record { key = (2649, 5); is_set = true; response = some answer; error = none }

answer_found : find_pending answer called.calls ≡ some 0
unfolding put_command allocate_sequence
answer_found = refl

done-Reachable : Reachable done
done-Reachable =
    let started = initial {t = idle} refl in
    let waiting = after (after (after started (allocates refl)) (resets refl)) (puts 2649 5 refl) in
    let written =
      after (after (after waiting (finds answer 0 {t' = found} answer_found refl)) (takes_all refl))
        (writes_response answer 0 (inl refl) refl) in
    after written (sets 0 refl)

command_found : lookup 0 done.calls.objects ≡ some command
unfolding put_command allocate_sequence
command_found = refl

command_finishes : finish true none command.response ≡ ok answer
unfolding finish outcome
command_finishes = refl

abbrev call_key : CallKey
call_key = (2649, 5)

finish-Reachable_example :
    ((answer.command_id, answer.sequence) ≡ call_key) × (answer.response_code ≡ some 0)
finish-Reachable_example =
    finish-Reachable done 0 command true none answer done-Reachable command_found command_finishes
