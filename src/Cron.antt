-- ===== src/Cron.antt =====
-- controllers/cron.go, and the interval checks of api/v1alpha1/k6test_webhook.go: which intervals are
-- admitted, and the cron expression that a test runs by. Duration.Minutes is a float64, which the code
-- cuts to an int: the whole minutes, for each duration below 2 ^ 18 minutes. A longer one is not
-- admitted either way.
pub mod Schedule
mod Tests
use synthetics_operator.Shared.{
  ℕ, suc, not, Option, none, some, ltb, Bytes, codes, ℤ, pos, negsuc, pos_part, sub_ℕ, ltb_ℤ, leb_ℤ,
  ◌*◌, ◌/◌, ◌%◌, ◌||◌, ◌++◌, ◌==◌, string_eq, bytes_eq, nat_eq, if◌then◌else◌,
}
use synthetics_operator.Scheduler.{probe_offset}
use synthetics_operator.Shared.Strings.{decimal}

pub data IntervalError : Type 0 where
  not_positive below_a_minute : IntervalError
  no_divisor_of_60 no_whole_hours no_divisor_of_24 : IntervalError

abbrev pub minute : ℕ
minute = 60000000000

-- int(d.Minutes())
abbrev pub minutes : ℤ → ℤ
minutes (pos n) = pos (n / minute)
minutes (negsuc n) = sub_ℕ 0 (suc n / minute)

-- Every caller has checked that the minutes are positive.
unfoldable pub validate_minute_interval : ℕ → Option IntervalError
validate_minute_interval total =
    if ltb total 60
    then (if not (60 % total == 0) then some no_divisor_of_60 else none)
    else if not (total % 60 == 0)
    then some no_whole_hours
    else if ltb 24 (total / 60) || not (24 % (total / 60) == 0)
    then some no_divisor_of_24
    else none

unfoldable pub validate_cron_interval : ℤ → Option IntervalError
validate_cron_interval d =
    if ltb_ℤ (minutes d) (pos 1)
    then some below_a_minute
    else validate_minute_interval (pos_part (minutes d))

unfoldable pub validate_probe_interval : ℤ → Option IntervalError
validate_probe_interval d =
    if leb_ℤ d (pos 0)
    then some not_positive
    else if ltb_ℤ d (pos minute)
    then none
    else validate_minute_interval (pos_part (minutes d))

-- A field of a cron expression: `*`, `n`, `start/step`, `*/step`.
pub data Field : Type 0 where
  any : Field
  at : ℕ → Field
  from_every : ℕ → ℕ → Field
  every : ℕ → Field

-- The minute and the hour. The day, the month and the weekday are `*` in each expression.
pub record Cron : Type 0 where
  pub minute_field : Field
  pub hour_field : Field

abbrev print_field : Field → Bytes
print_field any = codes "*"
print_field (at n) = decimal n
print_field (from_every start step) = decimal start ++ codes "/" ++ decimal step
print_field (every step) = codes "*/" ++ decimal step

-- The formats of fmt.Sprintf.
abbrev pub print : Cron → Bytes
print c = print_field c.minute_field ++ codes " " ++ print_field c.hour_field ++ codes " * * *"

pub data Expression : Type 0 where
  cron : Bytes → Expression
  invalid : IntervalError → Expression

abbrev pub daily_or_hourly : ℕ → ℕ → Expression
daily_or_hourly hours offset =
    if hours == 24
    then cron
        (print (record { minute_field = at (offset % 60); hour_field = at (offset / 60 % 24) }))
    else cron (print (record { minute_field = at (offset % 60); hour_field = every hours }))

-- The switch of intervalToCron, by the whole minutes of the interval and of the offset.
unfoldable pub cron_of : ℕ → ℕ → Expression
cron_of total offset =
    if total == 1
    then cron (print (record { minute_field = any; hour_field = any }))
    else if ltb total 60
    then (if not (60 % total == 0)
        then invalid no_divisor_of_60
        else cron
            (print (record { minute_field = from_every (offset % total) total; hour_field = any })))
    else if not (total % 60 == 0)
    then invalid no_whole_hours
    else if ltb 24 (total / 60) || not (24 % (total / 60) == 0)
    then invalid no_divisor_of_24
    else daily_or_hourly (total / 60) offset

module _ (hash : Bytes → ℕ) where
  unfoldable pub interval_to_cron : Bytes → Bytes → ℤ → Expression
  interval_to_cron namespace name interval =
      if ltb_ℤ (minutes interval) (pos 1)
      then invalid below_a_minute
      else cron_of (pos_part (minutes interval))
          (pos_part (minutes (probe_offset hash namespace name interval)))

  abbrev schedule_of : Expression → Option Bytes
  schedule_of (cron text) = some text
  schedule_of (invalid _) = none

  unfoldable pub valid_schedule : Bytes → Bytes → ℤ → Option Bytes
  valid_schedule namespace name interval = schedule_of (interval_to_cron namespace name interval)
