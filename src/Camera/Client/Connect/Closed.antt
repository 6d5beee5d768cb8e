-- ===== src/Camera/Client/Connect/Closed.antt =====
-- How `connect` ends.
use ino_a9_local_bridge.Base.{
  ℕ, ◌+◌, ◌⊎◌, ◌≡◌, refl, sym, ap, ◌∙◌, List, [], none, some, Bool, true, false, inl, inr,
}
use ino_a9_local_bridge.Base.Tests.{if◌then◌else◌, Bool-cases}
use ino_a9_local_bridge.Base.Except.{
  Exception, Result, ok, err, os_error, camera_error, require, ok-injective,
}
use ino_a9_local_bridge.Crypto.{Primitives}
use ino_a9_local_bridge.Protobuf.{build_lan_auth_request, first_bytes_field}
use ino_a9_local_bridge.Camera.Rpc.{decrypt_rpc_payload}
use ino_a9_local_bridge.Camera.Pending.{fail_pending_empties}
use ino_a9_local_bridge.Camera.Client.{
  lan_auth_command, Settings, World, Client, M, after, pure, modify, raise, handled, close,
  close_socket, cleared,
}
use ino_a9_local_bridge.Camera.Client.Steps.{after-eq-ok, lift-eq-ok, Keeps-at}
use ino_a9_local_bridge.Camera.Client.Connect.{
  is_session_prefix, exchange, authenticate, handshake, opened, open_socket, connect,
}
use ino_a9_local_bridge.Camera.Client.Connect.Kept.{
  Linked-IsKept, authenticate-Keeps, start_video-Keeps,
}

-- Nothing is left of a connection.
pub record IsClosed (s : Client) : Type 0 where
  pub socket_closed : s.is_open ≡ false
  pub no_prefix : s.session_prefix ≡ none
  pub buffer_empty : s.buffer ≡ []
  pub queue_empty : s.pending ≡ []
  pub calls_failed : s.calls.pending_commands ≡ []

-- Media can be read.
pub record IsConnected (s : Client) : Type 0 where
  pub socket_open : s.is_open ≡ true
  pub prefix : List ℕ
  pub prefix_kept : s.session_prefix ≡ some prefix
  pub prefix_valid : is_session_prefix prefix ≡ true
  pub sequence_5 : s.calls.next_sequence ≡ 5
  pub calls_failed : s.calls.pending_commands ≡ []

-- The last call of the world was to close the socket, and it has raised.
pub record IsLeftOver (w : World) (s : Client) (e : Exception) : Type 0 where
  pub socket_closed : s.is_open ≡ false
  pub last : ℕ
  pub last_call : s.tick ≡ last + 1
  pub refused : w.closes last ≡ false
  pub raised : e ≡ os_error

abbrev pub IsConcluded : World → Client × Result (Unit {0}) → Type 0
IsConcluded w (s, ok _) = IsConnected s
IsConcluded w (s, err e) = IsClosed s ⊎ IsLeftOver w s e

IsCleaned : World → Client × Result (Unit {0}) → Type 0
IsCleaned w (s, ok _) = IsClosed s
IsCleaned w (s, err e) = IsLeftOver w s e

cleared-IsClosed : (s : Client) → s.is_open ≡ false → IsClosed (cleared s)
cleared-IsClosed s e = record {
  socket_closed = e;
  no_prefix = refl;
  buffer_empty = refl;
  queue_empty = refl;
  calls_failed = fail_pending_empties camera_error s.calls;
}

close-IsCleaned : (w : World) (s : Client) → IsCleaned w (close w s)
unfolding close close_socket IsCleaned
close-IsCleaned w s = closing s.is_open refl
  where
    closing :
        (b : Bool)
        → s.is_open ≡ b
        → IsCleaned w (
            after
              ((if b then close_socket w else pure tt) s)
              (λ _. let m : M (Unit {0}) = modify cleared in m))
    closing false e = cleared-IsClosed s e
    closing true e = elim (Bool-cases (w.closes s.tick)) [
      | inl f ↦ rw f (cleared-IsClosed (record s { tick = s.tick + 1; is_open = false }) refl)
      | inr f ↦ rw f (record {
        socket_closed = refl;
        last = s.tick;
        last_call = refl;
        refused = f;
        raised = refl;
      })
    ]

require-eq-ok : (b : Bool) → require b camera_error ≡ ok tt → b ≡ true
require-eq-ok true e = refl
require-eq-ok false e = cc

module _ (c : Primitives) (w : World) (st : Settings) where
  authenticate_valid :
      (s t : Client) (prefix : List ℕ)
      → authenticate c w st s ≡ (t, ok prefix)
      → is_session_prefix prefix ≡ true
  unfolding authenticate
  authenticate_valid s t prefix e0 =
      let (request, _, e1) =
        lift-eq-ok (build_lan_auth_request st.user st.lan_password) _ s t prefix e0 in
      let (auth, s1, _, e2) =
        after-eq-ok (exchange c w st 1 lan_auth_command request s) _ t prefix e1 in
      let (payload, _, e3) =
        lift-eq-ok (decrypt_rpc_payload c auth st.bootstrap_prefix) _ s1 t prefix e2 in
      let (found, _, e4) = lift-eq-ok (first_bytes_field payload 1) _ s1 t prefix e3 in
      let (_, valid, e5) =
        lift-eq-ok (require (is_session_prefix found) camera_error) _ s1 t prefix e4 in
      ap is_session_prefix (sym (ok-injective (ap (λ x. x.1) e5)))
      ∙ require-eq-ok (is_session_prefix found) valid

  handshake-IsConnected :
      (s t : Client)
      → s.is_open ≡ true
      → s.calls.next_sequence ≡ 5
      → s.calls.pending_commands ≡ []
      → handshake c w st s ≡ (t, ok tt)
      → IsConnected t
  unfolding handshake
  handshake-IsConnected s t linked five failed e0 =
      let (prefix, s1, found, e1) = after-eq-ok (authenticate c w st s) _ t tt e0 in
      let before = Keeps-at s s1 (ok prefix) (authenticate-Keeps Linked-IsKept c w st) found in
      let s2 = record s1 { session_prefix = some prefix } in
      let behind = Keeps-at s2 t (ok tt) (start_video-Keeps Linked-IsKept c w st) e1 in
      record {
        socket_open = behind.is_open ∙ before.is_open ∙ linked;
        prefix = prefix;
        prefix_kept = behind.session_prefix;
        prefix_valid = authenticate_valid s s1 prefix found;
        sequence_5 = ap (λ x. x.next_sequence) (behind.calls ∙ before.calls) ∙ five;
        calls_failed = ap (λ x. x.pending_commands) (behind.calls ∙ before.calls) ∙ failed;
      }

  -- The exception goes on once the connection is cleaned up.
  cleaned-IsConcluded :
      (r : Client × Result (Unit {0})) (e : Exception)
      → IsCleaned w r
      → IsConcluded w (after r (λ _. raise {A = Unit {0}} e))
  unfolding IsCleaned
  cleaned-IsConcluded (t, ok _) e h = inl h
  cleaned-IsConcluded (t, err x) e h = inr h

  handled-IsConcluded :
      (r : Client × Result (Unit {0}))
      → ((t : Client) → r ≡ (t, ok tt) → IsConnected t)
      → IsConcluded w (handled r (close w))
  handled-IsConcluded (t, ok tt) h = h t refl
  handled-IsConcluded (t, err e) h = cleaned-IsConcluded (close w t) e (close-IsCleaned w t)

  open_socket-IsConcluded : (s : Client) → IsClosed s → IsConcluded w (open_socket c w st s)
  unfolding open_socket opened
  open_socket-IsConcluded s h = elim (Bool-cases (w.connects s.tick)) [
    | inl e ↦ rw e (
        handled-IsConcluded (handshake c w st (opened c w st (record s { tick = s.tick + 1 })))
          (λ t. handshake-IsConnected _ t refl refl h.calls_failed))
    | inr e ↦ rw e (
        inl (record {
          socket_closed = h.socket_closed;
          no_prefix = h.no_prefix;
          buffer_empty = h.buffer_empty;
          queue_empty = h.queue_empty;
          calls_failed = h.calls_failed;
        }))
  ]

  opening-IsConcluded :
      (r : Client × Result (Unit {0}))
      → IsCleaned w r
      → IsConcluded w (after r (λ _. open_socket c w st))
  unfolding IsCleaned
  opening-IsConcluded (t, ok _) h = open_socket-IsConcluded t h
  opening-IsConcluded (t, err e) h = inr h

  -- `connect` either returns with an open socket, a session prefix of 32 hexadecimal digits, the
  -- sequence numbers at 5 and no call that waits for the connection before; or it raises and leaves
  -- nothing of a connection: no socket, no session prefix, no bytes, no packets and no call that waits;
  -- or its last call was to close a socket, which has failed: then it raises the error of that, and
  -- has no socket either.
  pub connect-IsConcluded : (s : Client) → IsConcluded w (connect c w st s)
  unfolding connect
  connect-IsConcluded s = opening-IsConcluded (close w s) (close-IsCleaned w s)
