-- ===== src/Lifecycle.antt =====
-- internal/heartbeat/lifecycle/lifecycle.go: the pure rules for the state of a Heartbeat.
pub mod Pings
pub mod Freshness
mod Tests
use synthetics_operator.Shared.{
  Bool, false, not, ℤ, pos, pos_part, ltb_ℤ, leb_ℤ, ◌/◌, ◌&&◌, ◌||◌, if◌then◌else◌,
}
use synthetics_operator.Float.{Float64}
use synthetics_operator.Results.{Time}

pub data Result : Type 0 where
  ok pending missed reported_failure : Result

-- Durations are nanoseconds.
abbrev pub second : ℤ
second = pos 1000000000

-- WriteInterval; Go's division truncates towards zero, and the period is positive where it is
-- divided.
unfoldable pub write_interval : ℤ → ℤ → ℤ
write_interval period override =
    if ltb_ℤ (pos 0) override
    then override
    else if ltb_ℤ (pos 0) period
    then pos (pos_part period / 4)
    else pos 15000000000

-- ShouldPersistPing, with `at.Sub(previous)` as `elapsed`.
unfoldable pub should_persist_ping : Bool → ℤ → Bool → ℤ → Bool
should_persist_ping seen elapsed outcome_changed interval =
    not seen || outcome_changed || leb_ℤ interval elapsed

module _ (F : Float64) where
  open F use {Float, of_int, add, le, lt}

  pub record State : Type 0 where
    pub period_seconds : Float
    pub grace_seconds : Float
    pub last_ping_unix : Float
    pub reported_failure : Bool
    pub exit_code : Float
    pub suspended : Bool

  pub record Seed : Type 0 where
    pub last_ping_unix : Float
    pub failed : Bool

  -- The zero State of Go.
  abbrev pub zero_state : State
  zero_state = record {
    period_seconds = of_int (pos 0);
    grace_seconds = of_int (pos 0);
    last_ping_unix = of_int (pos 0);
    reported_failure = false;
    exit_code = of_int (pos 0);
    suspended = false;
  }

  unfoldable pub apply_spec : State → Bool → Float → Float → Bool → Seed → State
  apply_spec state existing period_seconds grace_seconds suspend seed =
      let spec : State = record state {
        period_seconds = period_seconds;
        grace_seconds = grace_seconds;
        suspended = suspend;
      } in
      if not existing && lt (of_int (pos 0)) seed.last_ping_unix
      then record spec { last_ping_unix = seed.last_ping_unix; reported_failure = seed.failed }
      else spec

  unfoldable pub record_ping : State → Bool → ℤ → Float → State
  record_ping state failed exit_code received_unix =
      if le state.last_ping_unix received_unix
      then record state {
        last_ping_unix = received_unix;
        reported_failure = failed;
        exit_code = of_int exit_code;
      }
      else state

  unfoldable pub deadline : State → Float
  deadline s =
      let grace =
        if le s.grace_seconds (of_int (pos 0)) then s.period_seconds else s.grace_seconds in
      add (add s.last_ping_unix s.period_seconds) grace

  unfoldable pub evaluate : State → Time → Result
  unfolding deadline
  evaluate s now =
      if le s.last_ping_unix (of_int (pos 0))
      then pending
      else if lt (deadline s) (of_int now.unix)
      then missed
      else if s.reported_failure
      then reported_failure
      else ok
