-- ===== src/Controls.antt =====
-- The weekly schedule of ino_a9_bridge/src/wificam_bridge/controls.py.
pub mod Laws
pub mod Examples
use ino_a9_local_bridge.Base.{
  ℕ, ◌+◌, ◌*◌, List, [], ◌∷◌, Option, none, some, Bool, true, false, not, ◌&&◌, ◌||◌,
}
use ino_a9_local_bridge.Base.Tests.{ltb, leb, ◌==◌, if◌then◌else◌}
use ino_a9_local_bridge.Base.Lists.{is_empty}
use ino_a9_local_bridge.Base.Int.{ℤ, pos, negsuc}
use ino_a9_local_bridge.Base.Except.{Result, ok, err, value_error, require, ◌>>=◌, ◌>>◌}
use ino_a9_local_bridge.Value.{Value, int}

-- `datetime.time`: `aware` says that it has a time zone.
pub record Time : Type 0 where
  pub hour : ℕ
  pub minute : ℕ
  pub second : ℕ
  pub microsecond : ℕ
  pub aware : Bool

pub record IntrusionSchedule : Type 0 where
  pub days : List ℕ
  pub start : Time
  pub end : Time

-- A day that passes the test: no `bool`, an `int`, and from 0 through 6.
abbrev day_number : Value → Option ℕ
day_number (int (pos n)) = if leb n 6 then some n else none
day_number _ = none

-- The days as numbers, unless `any` day fails the test.
pub day_numbers : List Value → Option (List ℕ)
day_numbers [] = some []
day_numbers (v ∷ vs) = elim (day_number v) [
  | none ↦ none
  | some n ↦ elim (day_numbers vs) [ none ↦ none | some ns ↦ some (n ∷ ns) ]
]

-- `sorted(set(days))`: each day is put in its place once.
place : ℕ → List ℕ → List ℕ
place n [] = n ∷ []
place n (m ∷ ms) = if ltb n m then n ∷ m ∷ ms else if n == m then m ∷ ms else m ∷ place n ms

pub sorted_set : List ℕ → List ℕ
unfolding place
sorted_set [] = []
sorted_set (n ∷ ns) = place n (sorted_set ns)

pub list_eq : List ℕ → List ℕ → Bool
list_eq [] [] = true
list_eq (n ∷ ns) (m ∷ ms) = n == m && list_eq ns ms
list_eq _ _ = false

abbrev pub minute_precision : Time → Bool
minute_precision t = not (t.aware || not (t.second == 0) || not (t.microsecond == 0))

-- `start > end` on times that have minute precision.
abbrev pub after : Time → Time → Bool
after a b = ltb b.hour a.hour || (a.hour == b.hour && ltb b.minute a.minute)

numbered : Option (List ℕ) → Result (List ℕ)
numbered none = err value_error
numbered (some ns) = ok ns

-- `IntrusionSchedule(days, start, end)` with its `__post_init__`. Both times are of their type.
pub intrusion_schedule : List Value → Time → Time → Result IntrusionSchedule
unfolding day_numbers sorted_set list_eq numbered
intrusion_schedule days start end = do
  require (not (is_empty days)) value_error
  numbers ← numbered (day_numbers days)
  require (list_eq numbers (sorted_set numbers)) value_error
  require (minute_precision start) value_error
  require (minute_precision end) value_error
  require (not (after start end)) value_error
  ok (record { days = numbers; start = start; end = end })
