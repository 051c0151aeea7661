-- ===== src/Cron/Schedule.antt =====
-- An admitted interval has a schedule, and the schedule fires once in each interval.
use synthetics_operator.Shared.{
  ℕ, refl, sym, ap, inl, inr, Bool, true, Option, none, some, arith, ltb, leb, Bool-cases, Bytes, ℤ,
  pos, pos_part, ltb_ℤ, ◌+◌, ◌-◌, ◌*◌, ◌/◌, ◌%◌, ◌≤◌, ◌<◌, ◌≡◌, ◌∙◌, ◌↔◌, ◌&&◌, ◌==◌, string_eq,
  bytes_eq, nat_eq,
}
use native.Mathlib.Nat.{
  mul-mod_right, mod-mod_of_dvd, dvd_of_mod-eq-zero, mod-lt, add-mod-mod, mod-eq_of_lt, div-add-mod,
  mul-add-mod_self_left, mul_assoc,
}
use synthetics_operator.Cron.{
  Field, any, at, from_every, every, Cron, print, cron, cron_of, daily_or_hourly, Expression,
  IntervalError, invalid, validate_minute_interval, validate_cron_interval, interval_to_cron,
  minutes,
}
use mathlib.Core.Path.{subst}
use synthetics_operator.Scheduler.{probe_offset}

-- What a field of a cron expression matches: `start/step` from the start on, `*/step` from 0 on.
abbrev field_matches : Field → ℕ → Bool
field_matches any x = true
field_matches (at n) x = x == n
field_matches (from_every start step) x = leb start x && (x - start) % step == 0
field_matches (every step) x = x % step == 0

-- Whether an expression fires at a minute, counted from a midnight.
abbrev fires : Cron → ℕ → Bool
fires c t = field_matches c.minute_field (t % 60) && field_matches c.hour_field (t / 60 % 24)

shifted_mod :
    (start step x : ℕ) → start < step → start ≤ x → (x - start) % step ≡ 0 → x % step ≡ start
shifted_mod start step x h le e =
    let sum : start + (x - start) ≡ x = omega arith in
    ap (λ (y : ℕ). y % step) (sym sum)
    ∙ sym (add-mod-mod start (x - start) step)
    ∙ ap (λ (y : ℕ). (start + y) % step) e
    ∙ ap (λ (y : ℕ). y % step) (omega arith)
    ∙ mod-eq_of_lt h

shifted_back :
    (start step x : ℕ) → 0 < step → x % step ≡ start → (start ≤ x) × ((x - start) % step ≡ 0)
shifted_back start step x h e =
    let whole = div-add-mod x step in
    (
      omega (arith, whole),
      ap (λ (y : ℕ). y % step) (omega (arith, whole, e)) ∙ mul-mod_right step (x / step),
    )

from_every_iff :
    (start step x : ℕ)
    → start < step
    → ((leb start x && (x - start) % step == 0) ≡ true) ↔ (x % step ≡ start)
from_every_iff start step x h = (
  λ m. ground (arith, m, shifted_mod start step x h),
  λ e. ground (arith, shifted_back start step x (omega arith) e),
)

every_forth : (p h t : ℕ) → p < 60 → 0 < h → t % 60 ≡ p → t / 60 % h ≡ 0 → t % (60 * h) ≡ p
every_forth p h t small positive e f =
    let q : ℕ = t / 60 / h in
    let hours : h * (t / 60 / h) ≡ t / 60 = omega (arith, div-add-mod (t / 60) h) in
    let split : 60 * h * (t / 60 / h) + p ≡ t = omega (arith, hours, mul_assoc 60 h (t / 60 / h)) in
    ap (λ (y : ℕ). y % (60 * h)) (sym split)
    ∙ mul-add-mod_self_left (60 * h) (t / 60 / h) p
    ∙ mod-eq_of_lt (omega arith)

every_back : (p h t : ℕ) → p < 60 → 0 < h → t % (60 * h) ≡ p → (t % 60 ≡ p) × (t / 60 % h ≡ 0)
every_back p h t small positive e =
    let k : ℕ = t / (60 * h) in
    let whole : 60 * (h * (t / (60 * h))) + p ≡ t =
      omega (arith, div-add-mod t (60 * h), mul_assoc 60 h (t / (60 * h))) in
    let hours : t / 60 ≡ h * (t / (60 * h)) = omega (arith, whole) in
    (omega (arith, whole), ap (λ (y : ℕ). y % h) hours ∙ mul-mod_right h (t / (60 * h)))

-- With an hour field `*/h`, an expression that fires at minute p of every such hour.
every_iff : (p h t : ℕ) → p < 60 → 0 < h → ((t % 60 ≡ p) × (t / 60 % h ≡ 0)) ↔ (t % (60 * h) ≡ p)
every_iff p h t small positive =
    (λ m. every_forth p h t small positive m.0 m.1, every_back p h t small positive)

-- The text is that of an expression that fires once in each `total` minutes of every day: where
-- `total` divides a day, at one and the same minute of each of them.
pub record RunsEvery (total : ℕ) (text : Bytes) : Type 0 where
  pub expression : Cron
  pub phase : ℕ
  pub written : text ≡ print expression
  pub within : phase < total
  fires_iff : (t : ℕ) → (fires expression t ≡ true) ↔ (t % total ≡ phase)

each_minute : RunsEvery 1 (print (record { minute_field = any; hour_field = any }))
each_minute = record {
  expression = record { minute_field = any; hour_field = any };
  phase = 0;
  written = refl;
  within = omega arith;
  fires_iff = λ t. (λ _. omega arith, λ _. refl);
}

minutely :
    (total offset : ℕ)
    → 1 < total
    → 60 % total ≡ 0
    → RunsEvery total
        (print (record { minute_field = from_every (offset % total) total; hour_field = any }))
minutely total offset h e = record {
  expression = record { minute_field = from_every (offset % total) total; hour_field = any };
  phase = offset % total;
  written = refl;
  within = mod-lt offset (omega arith);
  fires_iff = λ t.
      let inner = from_every_iff (offset % total) total (t % 60) (mod-lt offset (omega arith)) in
      let same = mod-mod_of_dvd total t (dvd_of_mod-eq-zero total e) in ground (arith, inner, same);
}

hourly :
    (hours offset : ℕ)
    → 0 < hours
    → 24 % hours ≡ 0
    → RunsEvery
        (60 * hours)
        (print (record { minute_field = at (offset % 60); hour_field = every hours }))
hourly hours offset h e = record {
  expression = record { minute_field = at (offset % 60); hour_field = every hours };
  phase = offset % 60;
  written = refl;
  within = omega arith;
  fires_iff = λ t.
      let inner = every_iff (offset % 60) hours t (omega arith) h in
      let same = mod-mod_of_dvd hours (t / 60) (dvd_of_mod-eq-zero hours e) in
      ground (arith, inner, same);
}

daily_iff :
    (m h t : ℕ) → m < 60 → h < 24 → ((t % 60 ≡ m) × (t / 60 % 24 ≡ h)) ↔ (t % 1440 ≡ m + 60 * h)
daily_iff m h t hm hh = (λ e. omega arith, λ e. (omega arith, omega arith))

daily :
    (offset : ℕ)
    → RunsEvery 1440
        (print (record { minute_field = at (offset % 60); hour_field = at (offset / 60 % 24) }))
daily offset = record {
  expression = record { minute_field = at (offset % 60); hour_field = at (offset / 60 % 24) };
  phase = offset % 60 + 60 * (offset / 60 % 24);
  written = refl;
  within = omega arith;
  fires_iff =
      λ t. ground (arith, daily_iff (offset % 60) (offset / 60 % 24) t (omega arith) (omega arith));
}

cron_inj : {s t : Bytes} → cron s ≡ cron t → s ≡ t
cron_inj h = ground (arith, h)

-- A whole number of hours that divides a day.
whole_hours :
    (total offset : ℕ) (text : Bytes)
    → 60 ≤ total
    → total % 60 ≡ 0
    → total / 60 ≤ 24
    → 24 % (total / 60) ≡ 0
    → daily_or_hourly (total / 60) offset ≡ cron text
    → RunsEvery total text
whole_hours total offset text h e small divides made = elim (Bool-cases (total / 60 == 24)) [
  | inl day ↦
      let is_day : total ≡ 1440 = ground (arith, e, day) in
      subst (λ (n : ℕ). RunsEvery n text) (sym is_day)
        (subst (RunsEvery 1440) (cron_inj (rw day at made)) (daily offset))
  | inr hours ↦
      subst (λ (n : ℕ). RunsEvery n text) (omega (arith, e))
        (subst (RunsEvery (60 * (total / 60))) (cron_inj (rw hours at made))
          (hourly (total / 60) offset (omega arith) divides))
]

cron_of-RunsEvery :
    (total offset : ℕ) (text : Bytes)
    → 0 < total
    → cron_of total offset ≡ cron text
    → RunsEvery total text
unfolding cron_of
cron_of-RunsEvery total offset text h made = elim (Bool-cases (total == 1)) [
  | inl one ↦
      let is_one : total ≡ 1 = ground (arith, one) in
      subst (λ (n : ℕ). RunsEvery n text) (sym is_one)
        (subst (RunsEvery 1) (cron_inj (rw one at made)) each_minute)
  | inr more ↦ elim (Bool-cases (ltb total 60)) [
    | inl short ↦ elim (Bool-cases (60 % total == 0)) [
      | inl divides ↦
          subst (RunsEvery total) (cron_inj (rw (more, short, divides) at made))
            (minutely total offset (ground (arith, more)) (ground (arith, divides)))
      | inr rest ↦ absurd (ground (arith, more, short, rest, made))
    ]
    | inr long ↦
        whole_hours total offset text (ground (arith, long)) (ground (arith, more, long, made))
          (ground (arith, more, long, made)) (ground (arith, more, long, made))
          (ground (arith, more, long, made))
  ]
]

-- The error of an expression that could not be made.
abbrev pub error_of : Expression → Option IntervalError
error_of (cron text) = none
error_of (invalid e) = some e

cron_of-error :
    (total offset : ℕ)
    → 0 < total
    → error_of (cron_of total offset) ≡ validate_minute_interval total
unfolding cron_of validate_minute_interval
cron_of-error total offset h = ground arith

module _ (hash : Bytes → ℕ) where
  -- A cron expression that is made for an interval fires exactly once in each run of as many minutes
  -- as the interval has whole ones, at one minute of each: at the minutes of every day whose number
  -- leaves one phase when divided by the interval.
  pub interval_to_cron-RunsEvery :
      (namespace name : Bytes) (interval : ℤ) (text : Bytes)
      → interval_to_cron hash namespace name interval ≡ cron text
      → RunsEvery (pos_part (minutes interval)) text
  unfolding interval_to_cron
  interval_to_cron-RunsEvery namespace name interval text made =
      elim (Bool-cases (ltb_ℤ (minutes interval) (pos 1))) [
        | inl short ↦ absurd (ground (arith, short, made))
        | inr long ↦
            cron_of-RunsEvery (pos_part (minutes interval))
              (pos_part (minutes (probe_offset hash namespace name interval))) text
              (ground (arith, long)) (rw long at made)
      ]

  -- What intervalToCron answers is an error exactly where the webhook refuses the interval, and then
  -- it is the webhook's.
  pub interval_to_cron-error :
      (namespace name : Bytes) (interval : ℤ)
      → error_of (interval_to_cron hash namespace name interval) ≡ validate_cron_interval interval
  unfolding interval_to_cron validate_cron_interval
  interval_to_cron-error namespace name interval = ground (
    arith,
    cron_of-error (pos_part (minutes interval))
        (pos_part (minutes (probe_offset hash namespace name interval))),
  )
