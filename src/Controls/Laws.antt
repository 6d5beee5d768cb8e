-- ===== src/Controls/Laws.antt =====
-- Which schedules `IntrusionSchedule` accepts.
use ino_a9_local_bridge.Base.{
  ℕ, ◌+◌, ◌*◌, ◌≤◌, ◌<◌, ◌≡◌, refl, sym, ap, subst, ◌∙◌, List, [], ◌∷◌, some, true, false, arith,
  map,
}
use ino_a9_local_bridge.Base.Lists.{is_empty, All}
use ino_a9_local_bridge.Base.Int.{pos}
use ino_a9_local_bridge.Base.Except.{ok}
use ino_a9_local_bridge.Value.{Value, int}
use ino_a9_local_bridge.Controls.{
  Time, IntrusionSchedule, day_numbers, sorted_set, place, list_eq, minute_precision, numbered,
  intrusion_schedule,
}

-- Days that rise, from some day on and up to 6.
abbrev pub RisesFrom : ℕ → List ℕ → Type 0
RisesFrom low [] = Unit
RisesFrom low (n ∷ ns) = (low ≤ n) × (n ≤ 6) × RisesFrom (n + 1) ns

-- What a schedule promises to those who read it.
pub record IsSchedule (s : IntrusionSchedule) : Type 0 where
  pub some_day : is_empty s.days ≡ false
  pub rising : RisesFrom 0 s.days
  pub start_exact : minute_precision s.start ≡ true
  pub end_exact : minute_precision s.end ≡ true
  pub ordered : s.start.hour * 60 + s.start.minute ≤ s.end.hour * 60 + s.end.minute

-- The days of a schedule as the values of a request.
abbrev pub day_values : List ℕ → List Value
day_values = map (λ n. int (pos n))

-- Sorting leaves rising days alone.
place_first : (n : ℕ) (ns : List ℕ) → RisesFrom (n + 1) ns → place n ns ≡ n ∷ ns
unfolding place
place_first n [] r = refl
place_first n (m ∷ ms) r = ground arith

pub sorted_set-rising : (low : ℕ) (ns : List ℕ) → RisesFrom low ns → sorted_set ns ≡ ns
unfolding sorted_set
sorted_set-rising low [] r = refl
sorted_set-rising low (n ∷ ns) r =
    ap (place n) (sorted_set-rising (n + 1) ns r.2) ∙ place_first n ns r.2

pub list_eq_refl : (ns : List ℕ) → list_eq ns ns ≡ true
unfolding list_eq
list_eq_refl [] = refl
list_eq_refl (n ∷ ns) = ground (arith, list_eq_refl ns)

list_eq→eq : (ns ms : List ℕ) → list_eq ns ms ≡ true → ns ≡ ms
unfolding list_eq
list_eq→eq [] [] h = refl
list_eq→eq [] (m ∷ ms) h = cc
list_eq→eq (n ∷ ns) [] h = cc
list_eq→eq (n ∷ ns) (m ∷ ms) h = ground (arith, list_eq→eq ns ms)

place-rising :
    (low n : ℕ) (ns : List ℕ) → low ≤ n → n ≤ 6 → RisesFrom low ns → RisesFrom low (place n ns)
unfolding place
place-rising low n [] h k r = omega arith
place-rising low n (m ∷ ms) h k r = ground (arith, place-rising (m + 1) n ms)

sorted_set-RisesFrom : (ns : List ℕ) → All (λ n. n ≤ 6) ns → RisesFrom 0 (sorted_set ns)
unfolding sorted_set
sorted_set-RisesFrom [] a = tt
sorted_set-RisesFrom (n ∷ ns) a =
    place-rising 0 n (sorted_set ns) (omega arith) a.0 (sorted_set-RisesFrom ns a.1)

-- The day test, and what it lets through.
pub day_numbers-values : (ns : List ℕ) → All (λ n. n ≤ 6) ns → day_numbers (day_values ns) ≡ some ns
unfolding day_numbers
day_numbers-values [] a = refl
day_numbers-values (n ∷ ns) a = ground (arith, day_numbers-values ns)

record Numbered (vs : List Value) (ns : List ℕ) : Type 0 where
  same : vs ≡ day_values ns
  bounded : All (λ n. n ≤ 6) ns

day_numbers-eq-some : (vs : List Value) (ns : List ℕ) → day_numbers vs ≡ some ns → Numbered vs ns
unfolding day_numbers
day_numbers-eq-some [] [] h = record { same = refl; bounded = tt }
day_numbers-eq-some [] (n ∷ ns) h = cc
day_numbers-eq-some (int (pos n) ∷ vs) [] h = ground arith
day_numbers-eq-some (int (pos n) ∷ vs) (m ∷ ms) h =
    let head : (n ≡ m) × (m ≤ 6) × (day_numbers vs ≡ some ms) = ground arith in
    let rest = day_numbers-eq-some vs ms head.2 in
    record { same = cc (head.0, rest.same); bounded = (head.1, rest.bounded) }
day_numbers-eq-some (_ ∷ vs) ns h = cc

pub RisesFrom-All : (low : ℕ) (ns : List ℕ) → RisesFrom low ns → All (λ n. n ≤ 6) ns
RisesFrom-All low [] r = tt
RisesFrom-All low (n ∷ ns) r = (r.1, RisesFrom-All (n + 1) ns r.2)

is_empty-values : (ns : List ℕ) → is_empty (day_values ns) ≡ is_empty ns
is_empty-values [] = refl
is_empty-values (n ∷ ns) = refl

-- A schedule with at least one day, days that rise up to 6, both times to the minute with minutes
-- below 60, and a start not after the end is accepted as it stands.
pub intrusion_schedule_complete :
    (s : IntrusionSchedule)
    → s.start.minute < 60
    → s.end.minute < 60
    → IsSchedule s
    → intrusion_schedule (day_values s.days) s.start s.end ≡ ok s
unfolding intrusion_schedule numbered
intrusion_schedule_complete s hs he v = ground (
  arith,
  day_numbers-values s.days (RisesFrom-All 0 s.days v.rising),
  sorted_set-rising 0 s.days v.rising,
  list_eq_refl s.days,
  v,
)

-- Of two times whose minutes are below 60, what `IntrusionSchedule` accepts has at least one day,
-- days that rise and are at most 6, both times to the minute and without a time zone, and a start
-- not after the end; the days and times are those given.
pub intrusion_schedule_sound :
    (vs : List Value) (start end : Time) (s : IntrusionSchedule)
    → start.minute < 60
    → end.minute < 60
    → intrusion_schedule vs start end ≡ ok s
    → IsSchedule s × (vs ≡ day_values s.days) × (s.start ≡ start) × (s.end ≡ end)
unfolding intrusion_schedule numbered
intrusion_schedule_sound vs start end s hs he e =
    let numbers : day_numbers vs ≡ some s.days = ground arith in
    let n = day_numbers-eq-some vs s.days numbers in
    let sorted : list_eq s.days (sorted_set s.days) ≡ true = ground arith in
    let some_value : is_empty vs ≡ false = ground arith in
    let rising : RisesFrom 0 s.days =
      subst (RisesFrom 0) (sym (list_eq→eq s.days (sorted_set s.days) sorted))
        (sorted_set-RisesFrom s.days n.bounded) in
    (
      record {
        some_day = sym (is_empty-values s.days) ∙ ap is_empty (sym n.same) ∙ some_value;
        rising = rising;
        start_exact = ground arith;
        end_exact = ground arith;
        ordered = ground arith;
      },
      n.same,
      ground arith,
      ground arith,
    )
