-- ===== src/Cron/Tests.antt =====
-- Runs of controllers/cron.go.
use synthetics_operator.Shared.{ℕ, refl, none, [], Bytes, codes, pos, ◌+◌, ◌*◌, ◌≡◌, ◌∷◌}
use synthetics_operator.Shared.Strings.{decimal_digits}
use synthetics_operator.Cron.{
  validate_minute_interval, cron, invalid, no_divisor_of_60, interval_to_cron, cron_of,
  validate_cron_interval, minutes,
}
use synthetics_operator.Cron.Schedule.{RunsEvery, interval_to_cron-RunsEvery}

abbrev hash : Bytes → ℕ
hash [] = 11
hash (byte ∷ bytes) = byte + 31 * hash bytes

made : cron_of 10 25 ≡ cron (codes "5/10 * * * *")
unfolding cron_of decimal_digits
made = refl

made_hourly : cron_of 360 135 ≡ cron (codes "15 */6 * * *")
unfolding cron_of decimal_digits
made_hourly = refl

made_daily : cron_of 1440 135 ≡ cron (codes "15 2 * * *")
unfolding cron_of decimal_digits
made_daily = refl

refused : cron_of 7 3 ≡ invalid no_divisor_of_60
unfolding cron_of
refused = refl

-- 90 seconds are admitted, and are the schedule of a minute.
between : (validate_cron_interval (pos 90000000000) ≡ none) × (minutes (pos 90000000000) ≡ pos 1)
unfolding validate_cron_interval validate_minute_interval
between = (refl, refl)

each_minute :
    interval_to_cron hash (codes "ns") (codes "load") (pos 90000000000) ≡ cron (codes "* * * * *")
unfolding interval_to_cron cron_of
each_minute = refl

interval_to_cron-RunsEvery_example : RunsEvery 1 (codes "* * * * *")
interval_to_cron-RunsEvery_example =
    interval_to_cron-RunsEvery hash (codes "ns") (codes "load") (pos 90000000000)
      (codes "* * * * *") each_minute
