-- ===== src/ControlApi/Values/Clock.antt =====
-- A clock that is written and read again.
use ino_a9_local_bridge.Base.{ℕ, zero, suc, ◌/◌, ◌%◌, ◌<◌, ◌≡◌, refl, some, arith}
use ino_a9_local_bridge.Base.Except.{ok}
use ino_a9_local_bridge.ControlApi.Values.{
  digit, digit_char, two_digits, parse_clock, clock_text, clock_time,
}

digit-digit_char : (n : ℕ) → n < 10 → digit (digit_char n) ≡ some n
digit-digit_char zero h = refl
digit-digit_char (suc zero) h = refl
digit-digit_char (suc (suc zero)) h = refl
digit-digit_char (suc (suc (suc zero))) h = refl
digit-digit_char (suc (suc (suc (suc zero)))) h = refl
digit-digit_char (suc (suc (suc (suc (suc zero))))) h = refl
digit-digit_char (suc (suc (suc (suc (suc (suc zero)))))) h = refl
digit-digit_char (suc (suc (suc (suc (suc (suc (suc zero))))))) h = refl
digit-digit_char (suc (suc (suc (suc (suc (suc (suc (suc zero)))))))) h = refl
digit-digit_char (suc (suc (suc (suc (suc (suc (suc (suc (suc zero))))))))) h = refl
digit-digit_char (suc (suc (suc (suc (suc (suc (suc (suc (suc (suc n)))))))))) h =
    absurd (omega arith)

two_digits-digit_char :
    (n bound : ℕ)
    → n < 100
    → n < bound
    → two_digits (digit_char (n / 10)) (digit_char (n % 10)) bound ≡ some n
two_digits-digit_char n bound h hb =
    ground (arith, digit-digit_char (n / 10) (omega arith), digit-digit_char (n % 10) (omega arith))

-- A time of day, to the minute and without a time zone, is read back from its text.
pub parse_clock-clock_text :
    (hour minute : ℕ)
    → hour < 24
    → minute < 60
    → parse_clock (clock_text (clock_time hour minute)) ≡ ok (clock_time hour minute)
unfolding parse_clock clock_text
parse_clock-clock_text hour minute hh hm = ground (
  arith,
  two_digits-digit_char hour 24 (omega arith) hh,
  two_digits-digit_char minute 60 (omega arith) hm,
)
