-- ===== src/Session/Reader/Examples.antt =====
-- A session that starts and connects.
use ino_a9_local_bridge.Base.{◌≡◌, refl, none, true, false}
use ino_a9_local_bridge.Session.Reader.{
  Session, Reachable, Reachable_connected, initial, after, starts, reads, tries, connects,
  streaming, start, new_session, may_be_connected,
}

abbrev connected_session : Session
connected_session = record {
  started = true;
  stop = false;
  connected = true;
  error = none;
  phase = streaming;
}

connected_session-Reachable : Reachable connected_session
unfolding start
connected_session-Reachable =
    after
      (after (after (initial {s = new_session} refl) (starts refl)) (reads (tries refl refl refl)))
      (reads (connects refl refl))

Reachable_connected_example : (true ≡ true) × (may_be_connected streaming ≡ true)
Reachable_connected_example = Reachable_connected connected_session connected_session-Reachable refl
