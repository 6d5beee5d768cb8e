-- ===== src/Controls/Examples.antt =====
-- A schedule for the weekend.
use ino_a9_local_bridge.Base.{ℕ, ◌≡◌, refl, [], ◌∷◌, false, arith}
use ino_a9_local_bridge.Base.Except.{ok}
use ino_a9_local_bridge.Controls.{Time, IntrusionSchedule, intrusion_schedule}
use ino_a9_local_bridge.Controls.Laws.{
  IsSchedule, day_values, intrusion_schedule_sound, intrusion_schedule_complete,
}

abbrev clock : ℕ → ℕ → Time
clock hour minute = record {
  hour = hour;
  minute = minute;
  second = 0;
  microsecond = 0;
  aware = false;
}

abbrev weekend : IntrusionSchedule
weekend = record { days = 5 ∷ 6 ∷ []; start = clock 8 30; end = clock 23 59 }

weekend-IsSchedule : IsSchedule weekend
weekend-IsSchedule = record {
  some_day = refl;
  rising = (omega arith, omega arith, (omega arith, omega arith, tt));
  start_exact = refl;
  end_exact = refl;
  ordered = omega arith;
}

intrusion_schedule_complete_example :
    intrusion_schedule (day_values (5 ∷ 6 ∷ [])) (clock 8 30) (clock 23 59) ≡ ok weekend
intrusion_schedule_complete_example =
    intrusion_schedule_complete weekend (omega arith) (omega arith) weekend-IsSchedule

accepted : intrusion_schedule (day_values (5 ∷ 6 ∷ [])) (clock 8 30) (clock 23 59) ≡ ok weekend
accepted = intrusion_schedule_complete weekend (omega arith) (omega arith) weekend-IsSchedule

intrusion_schedule_sound_example :
    IsSchedule weekend
    × (day_values (5 ∷ 6 ∷ []) ≡ day_values weekend.days)
    × (weekend.start ≡ clock 8 30)
    × (weekend.end ≡ clock 23 59)
intrusion_schedule_sound_example =
    intrusion_schedule_sound (day_values (5 ∷ 6 ∷ [])) (clock 8 30) (clock 23 59) weekend
      (omega arith) (omega arith) accepted
