-- ===== src/Session/Reader.antt =====
-- The life of a session: `start`, `close` and the reader thread's `_reader_main` in
-- ino_a9_bridge/src/wificam_bridge/session.py, as steps of two threads.
pub mod Examples
use ino_a9_local_bridge.Base.{
  ◌≡◌, ◌≢◌, refl, sym, ap, subst, ◌∙◌, Option, none, some, Bool, true, false, inl, inr,
}
use ino_a9_local_bridge.Base.Tests.{Bool-cases}
use ino_a9_local_bridge.Base.Except.{Exception, Result, ok, err, camera_error, ok-injective}

-- Where the reader stands: not started, at the head of its loop, in the calls of `connect` and
-- `start_audio`, in the loop over the frames, in the `finally` block, in the wait behind it, or at
-- its end.
pub data Phase : Type 0 where
  absent at_head connecting streaming cleaning waiting ended : Phase

-- `_started`, `_stop`, `_connected` and `_error`.
pub record Session : Type 0 where
  pub started : Bool
  pub stop : Bool
  pub connected : Bool
  pub error : Option Exception
  pub phase : Phase

-- `__init__`
abbrev pub new_session : Session
new_session = record {
  started = false;
  stop = false;
  connected = false;
  error = none;
  phase = absent;
}

-- `start`
pub start : Session → Result Session
start s = elim s.started [
  | true ↦ err camera_error
  | false ↦ ok (record s { started = true; phase = at_head })
]

-- The two writes of `close`. The reader may run between them.
pub set_stop : Session → Session
set_stop s = record s { stop = true }

pub clear_connected : Session → Session
clear_connected s = record s { connected = false }

-- One step of the reader. What the client does is not known to the session: `connect`, `start_audio`
-- and the frames may succeed or raise, and the frames may end.
pub data ReaderStep (s : Session) : Session → Type 0 where
  ends :
      {s' : Session}
      → s.phase ≡ at_head
      → s.stop ≡ true
      → s' ≡ record s { phase = ended }
      → ReaderStep s s'
  tries :
      {s' : Session}
      → s.phase ≡ at_head
      → s.stop ≡ false
      → s' ≡ record s { phase = connecting }
      → ReaderStep s s'
  connects :
      {s' : Session}
      → s.phase ≡ connecting
      → s' ≡ record s { connected = true; phase = streaming }
      → ReaderStep s s'
  fails_to_connect :
      (e : Exception) {s' : Session}
      → s.phase ≡ connecting
      → s' ≡ record s { error = some e; phase = cleaning }
      → ReaderStep s s'
  hands_on : {s' : Session} → s.phase ≡ streaming → s.stop ≡ false → s' ≡ s → ReaderStep s s'
  breaks :
      {s' : Session} → s.phase ≡ streaming → s' ≡ record s { phase = cleaning } → ReaderStep s s'
  raises :
      (e : Exception) {s' : Session}
      → s.phase ≡ streaming
      → s' ≡ record s { error = some e; phase = cleaning }
      → ReaderStep s s'
  cleans :
      {s' : Session}
      → s.phase ≡ cleaning
      → s' ≡ record s { connected = false; phase = waiting }
      → ReaderStep s s'
  loops : {s' : Session} → s.phase ≡ waiting → s' ≡ record s { phase = at_head } → ReaderStep s s'

-- The steps of all threads.
pub data SessionStep (s : Session) : Session → Type 0 where
  starts : {s' : Session} → start s ≡ ok s' → SessionStep s s'
  stops : {s' : Session} → s' ≡ set_stop s → SessionStep s s'
  disconnects : {s' : Session} → s' ≡ clear_connected s → SessionStep s s'
  reads : {s' : Session} → ReaderStep s s' → SessionStep s s'

pub data Reachable : Session → Type 0 where
  initial : {s : Session} → s ≡ new_session → Reachable s
  after : {s s' : Session} → Reachable s → SessionStep s s' → Reachable s'

-- The phases in which the flag may be set.
abbrev pub may_be_connected : Phase → Bool
may_be_connected streaming = true
may_be_connected cleaning = true
may_be_connected _ = false

-- A phase that only a started session has.
abbrev pub is_absent : Phase → Bool
is_absent absent = true
is_absent _ = false

pub record IsSession (s : Session) : Type 0 where
  pub connected_streams : may_be_connected s.phase ≡ false → s.connected ≡ false
  pub absent_before : s.started ≡ false → s.phase ≡ absent
  pub present_after : s.started ≡ true → is_absent s.phase ≡ false

true≢false : true ≡ false → ⊥
true≢false e = cc

-- A move of a running reader to another phase.
moved :
    (s : Session) (phase : Phase) (connected : Bool) (error : Option Exception)
    → IsSession s
    → is_absent s.phase ≡ false
    → is_absent phase ≡ false
    → (may_be_connected phase ≡ false → connected ≡ false)
    → IsSession (record s { phase = phase; connected = connected; error = error })
moved s phase connected error h running present quiet = record {
  connected_streams = quiet;
  absent_before = λ e. absurd (true≢false (sym (ap is_absent (h.absent_before e)) ∙ running));
  present_after = λ _. present;
}

ReaderStep-IsSession : (s s' : Session) → ReaderStep s s' → IsSession s → IsSession s'
ReaderStep-IsSession s s' (ends p _ e) h = subst IsSession (sym e) (
    moved s ended s.connected s.error h (ap is_absent p) refl
      (λ _. h.connected_streams (ap may_be_connected p)))
ReaderStep-IsSession s s' (tries p _ e) h = subst IsSession (sym e) (
    moved s connecting s.connected s.error h (ap is_absent p) refl
      (λ _. h.connected_streams (ap may_be_connected p)))
ReaderStep-IsSession s s' (connects p e) h =
    subst IsSession (sym e)
      (moved s streaming true s.error h (ap is_absent p) refl (λ q. absurd (true≢false q)))
ReaderStep-IsSession s s' (fails_to_connect x p e) h =
    subst IsSession (sym e)
      (moved s cleaning s.connected (some x) h (ap is_absent p) refl (λ q. absurd (true≢false q)))
ReaderStep-IsSession s s' (hands_on p _ e) h = subst IsSession (sym e) h
ReaderStep-IsSession s s' (breaks p e) h =
    subst IsSession (sym e)
      (moved s cleaning s.connected s.error h (ap is_absent p) refl (λ q. absurd (true≢false q)))
ReaderStep-IsSession s s' (raises x p e) h =
    subst IsSession (sym e)
      (moved s cleaning s.connected (some x) h (ap is_absent p) refl (λ q. absurd (true≢false q)))
ReaderStep-IsSession s s' (cleans p e) h =
    subst IsSession (sym e) (moved s waiting false s.error h (ap is_absent p) refl (λ _. refl))
ReaderStep-IsSession s s' (loops p e) h = subst IsSession (sym e) (
    moved s at_head s.connected s.error h (ap is_absent p) refl
      (λ _. h.connected_streams (ap may_be_connected p)))

start-IsSession : (s s' : Session) → start s ≡ ok s' → IsSession s → IsSession s'
unfolding start
start-IsSession s s' e h = elim (Bool-cases s.started) [
  | inl b ↦ absurd (err≢ok (rw (b, start) at e))
  | inr b ↦ subst IsSession (ok-injective (rw (b, start) at e)) (record {
    connected_streams = λ _. h.connected_streams (ap may_be_connected (h.absent_before b));
    absent_before = λ q. absurd (true≢false q);
    present_after = λ _. refl;
  })
]
  where
    err≢ok : err camera_error ≡ ok s' → ⊥
    err≢ok q = cc

Reachable-IsSession : (s : Session) → Reachable s → IsSession s
unfolding set_stop clear_connected
Reachable-IsSession s (initial e) = subst IsSession (sym e) (record {
  connected_streams = λ _. refl;
  absent_before = λ _. refl;
  present_after = λ q. absurd (true≢false (sym q));
})
Reachable-IsSession s' (after {s = s} r (starts e)) =
    start-IsSession s s' e (Reachable-IsSession s r)
Reachable-IsSession s' (after {s = s} r (stops e)) =
    let h = Reachable-IsSession s r in
    subst IsSession (sym e) (record {
      connected_streams = h.connected_streams;
      absent_before = h.absent_before;
      present_after = h.present_after;
    })
Reachable-IsSession s' (after {s = s} r (disconnects e)) =
    let h = Reachable-IsSession s r in
    subst IsSession (sym e) (record {
      connected_streams = λ _. refl;
      absent_before = h.absent_before;
      present_after = h.present_after;
    })
Reachable-IsSession s' (after {s = s} r (reads step)) =
    ReaderStep-IsSession s s' step (Reachable-IsSession s r)

-- However the threads interleave: where the session is connected, it was started, and its reader
-- stands between a connection that succeeded or was tried and the end of its `finally` block.
pub Reachable_connected :
    (s : Session)
    → Reachable s
    → s.connected ≡ true
    → (s.started ≡ true) × (may_be_connected s.phase ≡ true)
Reachable_connected s r e =
    let h = Reachable-IsSession s r in
    let streams : may_be_connected s.phase ≡ true = elim (Bool-cases (may_be_connected s.phase)) [
      | inl q ↦ q
      | inr q ↦ absurd (true≢false (sym e ∙ h.connected_streams q))
    ] in
    let begun : s.started ≡ true = elim (Bool-cases s.started) [
      | inl q ↦ q
      | inr q ↦ absurd (true≢false (sym streams ∙ ap may_be_connected (h.absent_before q)))
    ] in
    (begun, streams)
