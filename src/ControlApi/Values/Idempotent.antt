-- ===== src/ControlApi/Values/Idempotent.antt =====
-- A value that the API stored is accepted again, unchanged, when the store is read back.
use Prim.Native.Char.{Char}
use Prim.Native.String.{String}
use text.Mathlib.Text.{◌==◌ as str_eq}
use ino_a9_local_bridge.Base.{
  ℕ, ◌<◌, ◌≡◌, refl, sym, ap, subst, ◌∙◌, List, [], ◌∷◌, Option, none, some, Bool, true, false,
  arith, inl, inr,
}
use ino_a9_local_bridge.Base.Tests.{if◌then◌else◌, Option-cases}
use ino_a9_local_bridge.Base.Except.{Result, ok, err, invalid_request, >>=-eq-ok, ok-injective}
use ino_a9_local_bridge.Base.Int.{pos}
use ino_a9_local_bridge.Value.{Value, bool, int, str, array, object, get, get_or_null, elements}
use ino_a9_local_bridge.Controls.{Time, IntrusionSchedule}
use ino_a9_local_bridge.Controls.Laws.{
  IsSchedule, day_values, intrusion_schedule_sound, intrusion_schedule_complete,
}
use ino_a9_local_bridge.Commands.{Table, chosen}
use ino_a9_local_bridge.ControlApi.Values.{
  Five, five, clock_of, two_digits, clock_time, parse_clock, clock_text, clock_from_value,
  as_invalid_request, schedule_of, schedule_from_value, day_array, schedule_value, intrusion_value,
  enum_values, validated_bool, validated_enum, intrusion_of, validated_intrusion,
  validated_control_value,
}
use ino_a9_local_bridge.ControlApi.Values.Clock.{parse_clock-clock_text}

-- A time that a clock text can say.
pub record IsClock (t : Time) : Type 0 where
  pub hour : ℕ
  pub minute : ℕ
  pub hour_below : hour < 24
  pub minute_below : minute < 60
  pub same : t ≡ clock_time hour minute

two_digits_below : (a b : Char) (bound n : ℕ) → two_digits a b bound ≡ some n → n < bound
two_digits_below a b bound n e = ground arith

clock_of-IsClock : (characters : Five) (t : Time) → clock_of characters ≡ ok t → IsClock t
clock_of-IsClock (a, b, colon, c, d) t e = elim (Option-cases (two_digits a b 24)) [
  | inl no_hour ↦ cc
  | inr (hour, eh) ↦ elim (Option-cases (two_digits c d 60)) [
    | inl no_minute ↦ cc
    | inr (minute, em) ↦ record {
      hour = hour;
      minute = minute;
      hour_below = two_digits_below a b 24 hour eh;
      minute_below = two_digits_below c d 60 minute em;
      same = ground arith;
    }
  ]
]

parse_clock-IsClock : (text : String) (t : Time) → parse_clock text ≡ ok t → IsClock t
unfolding parse_clock
parse_clock-IsClock text t e = elim (Option-cases (five text)) [
  | inl n ↦ cc
  | inr (characters, f) ↦ clock_of-IsClock characters t (rw (f, parse_clock) at e)
]

clock_from_value-IsClock : (v : Value) (t : Time) → clock_from_value v ≡ ok t → IsClock t
unfolding clock_from_value
clock_from_value-IsClock (str text) t e = parse_clock-IsClock text t e
clock_from_value-IsClock _ t e = cc

pub clock_from_value-clock_text :
    (t : Time) → IsClock t → clock_from_value (str (clock_text t)) ≡ ok t
unfolding clock_from_value
clock_from_value-clock_text t h =
    rw (h.same) (parse_clock-clock_text h.hour h.minute h.hour_below h.minute_below)

-- A schedule that a request or the state file can give.
pub record IsAccepted (s : IntrusionSchedule) : Type 0 where
  pub schedule : IsSchedule s
  pub start_clock : IsClock s.start
  pub end_clock : IsClock s.end

pub minute_bound : (t : Time) → IsClock t → t.minute < 60
minute_bound t h = omega (arith, ap (λ x. x.minute) h.same, h.minute_below)

as_invalid_request-eq-ok :
    {A : Type 0} (r : Result A) (a : A) → as_invalid_request r ≡ ok a → r ≡ ok a
as_invalid_request-eq-ok (ok a') a e = e
as_invalid_request-eq-ok (err x) a e = cc

schedule_of-IsAccepted :
    (days start stop : Value) (s : IntrusionSchedule)
    → schedule_of days start stop ≡ ok s
    → IsAccepted s
unfolding schedule_of
schedule_of-IsAccepted (array days) start stop s e =
    let (start', e1, rest) =
      >>=-eq-ok (clock_from_value start) _ (as_invalid_request-eq-ok _ s e) in
    let (stop', e2, made) = >>=-eq-ok (clock_from_value stop) _ rest in
    let h1 = clock_from_value-IsClock start start' e1 in
    let h2 = clock_from_value-IsClock stop stop' e2 in
    let (valid, _, same1, same2) =
      intrusion_schedule_sound (elements days) start' stop' s (minute_bound start' h1)
        (minute_bound stop' h2) made in
    record {
      schedule = valid;
      start_clock = subst IsClock (sym same1) h1;
      end_clock = subst IsClock (sym same2) h2;
    }
schedule_of-IsAccepted _ start stop s e = cc

pub elements-day_array : (ns : List ℕ) → elements (day_array ns) ≡ day_values ns
elements-day_array [] = refl
elements-day_array (n ∷ ns) = ap (λ r. int (pos n) ∷ r) (elements-day_array ns)

-- A schedule that was accepted is accepted again from what is stored of it.
pub schedule_from_value-schedule_value :
    (s : IntrusionSchedule) → IsAccepted s → schedule_from_value (schedule_value s) ≡ ok s
unfolding schedule_from_value schedule_value schedule_of get
schedule_from_value-schedule_value s h = ground (
  arith,
  clock_from_value-clock_text s.start h.start_clock,
  clock_from_value-clock_text s.end h.end_clock,
  elements-day_array s.days,
  intrusion_schedule_complete s (minute_bound s.start h.start_clock)
      (minute_bound s.end h.end_clock) h.schedule,
)

-- What a validated intrusion value looks like.
record Stored (v : Value) : Type 0 where
  enabled : Bool
  schedule : IntrusionSchedule
  accepted : IsAccepted schedule
  same : v ≡ intrusion_value enabled schedule

intrusion_of-Stored : (enabled schedule v : Value) → intrusion_of enabled schedule ≡ ok v → Stored v
unfolding intrusion_of schedule_from_value
intrusion_of-Stored (bool enabled) (object m) v e =
    let (s, e1, made) = >>=-eq-ok (schedule_from_value (object m)) _ e in
    record {
      enabled = enabled;
      schedule = s;
      accepted = schedule_of-IsAccepted _ _ _ s e1;
      same = sym (ok-injective made);
    }
intrusion_of-Stored (bool enabled) _ v e = cc
intrusion_of-Stored _ schedule v e = cc

intrusion-Stored : (v v' : Value) → validated_intrusion v ≡ ok v' → Stored v'
unfolding validated_intrusion
intrusion-Stored (object members) v' e =
    intrusion_of-Stored (get_or_null members "enabled") (get_or_null members "schedule") v' e
intrusion-Stored _ v' e = cc

intrusion-again :
    (enabled : Bool) (s : IntrusionSchedule)
    → IsAccepted s
    → validated_intrusion (intrusion_value enabled s) ≡ ok (intrusion_value enabled s)
unfolding validated_intrusion intrusion_value intrusion_of get
intrusion-again enabled s h = rw (schedule_from_value-schedule_value s h) refl

intrusion-idempotent :
    (v v' : Value) → validated_intrusion v ≡ ok v' → validated_intrusion v' ≡ ok v'
intrusion-idempotent v v' e =
    let h = intrusion-Stored v v' e in rw (h.same) (intrusion-again h.enabled h.schedule h.accepted)

bool-idempotent : (v v' : Value) → validated_bool v ≡ ok v' → validated_bool v' ≡ ok v'
bool-idempotent (bool b) v' e = ap validated_bool (sym (ok-injective e)) ∙ e
bool-idempotent _ v' e = cc

enum-idempotent :
    (table : Table) (v v' : Value)
    → validated_enum table v ≡ ok v'
    → validated_enum table v' ≡ ok v'
enum-idempotent table v v' e = elim (Option-cases (chosen table v)) [
  | inl n ↦ cc
  | inr (wire, w) ↦
      let same : v ≡ v' = ok-injective (rw (w, validated_enum) at e) in
      subst (λ x. validated_enum table x ≡ ok x) same (rw (w, validated_enum) refl)
]

-- The branches of `_validated_control_value`, by what the name's tests say.
abbrev validated_by : Bool → Option Table → Bool → Value → Result Value
validated_by is_led table is_intrusion value = if is_led then validated_bool value else elim table [
  | some t ↦ validated_enum t value
  | none ↦ if is_intrusion then validated_intrusion value else err invalid_request
]

validated_by-idempotent :
    (is_led : Bool) (table : Option Table) (is_intrusion : Bool) (v v' : Value)
    → validated_by is_led table is_intrusion v ≡ ok v'
    → validated_by is_led table is_intrusion v' ≡ ok v'
validated_by-idempotent true table i v v' e = bool-idempotent v v' e
validated_by-idempotent false (some t) i v v' e = enum-idempotent t v v' e
validated_by-idempotent false none true v v' e = intrusion-idempotent v v' e
validated_by-idempotent false none false v v' e = cc

-- What `_validated_control_value` returns for a control it returns again for itself: a stored value
-- is in the form that the store accepts.
pub validated_control_value-idempotent :
    (control : String) (v v' : Value)
    → validated_control_value control v ≡ ok v'
    → validated_control_value control v' ≡ ok v'
unfolding validated_control_value
validated_control_value-idempotent control v v' e =
    validated_by-idempotent (str_eq control "led") (enum_values control)
      (str_eq control "intrusion") v v' e
