-- ===== src/Lifecycle/Freshness.antt =====
-- When a Heartbeat is healthy, and how its class moves with the clock.
use synthetics_operator.Shared.{true, false, arith, pos, ◌≡◌, ◌↔◌, ◌≤ℤ◌}
use synthetics_operator.Float.{Float64, FloatLaws}
use synthetics_operator.Results.{Time}
use synthetics_operator.Lifecycle.{
  Result, ok, pending, missed, reported_failure, State, evaluate, deadline,
}

module _ (F : Float64) where
  open F use {of_int, add, le, lt}

  -- The four classes, as conditions on the state and the clock.
  abbrev pub IsClass : State F → Time → Result → Type 0
  IsClass s now pending = le s.last_ping_unix (of_int (pos 0)) ≡ true
  IsClass s now missed =
      (le s.last_ping_unix (of_int (pos 0)) ≡ false) × (lt (deadline F s) (of_int now.unix) ≡ true)
  IsClass s now reported_failure =
      (le s.last_ping_unix (of_int (pos 0)) ≡ false)
      × (lt (deadline F s) (of_int now.unix) ≡ false)
      × (s.reported_failure ≡ true)
  IsClass s now ok =
      (le s.last_ping_unix (of_int (pos 0)) ≡ false)
      × (lt (deadline F s) (of_int now.unix) ≡ false)
      × (s.reported_failure ≡ false)

  -- A state is of a class exactly when the class's condition holds.
  evaluate_iff : (s : State F) (now : Time) (r : Result) → (evaluate F s now ≡ r) ↔ IsClass s now r
  unfolding evaluate
  evaluate_iff s now pending = ground arith
  evaluate_iff s now missed = ground arith
  evaluate_iff s now reported_failure = ground arith
  evaluate_iff s now ok = ground arith

  module _ (L : FloatLaws F) where
    open L use {le-of_int, lt-le_trans}

    -- A missed Heartbeat stays missed until a ping or a spec change, however the clock goes on.
    pub missed_stays :
        (s : State F) (now later : Time)
        → evaluate F s now ≡ missed
        → now.unix ≤ℤ later.unix
        → evaluate F s later ≡ missed
    unfolding evaluate
    missed_stays s now later h le = ground (
      arith,
      le-of_int now.unix later.unix le,
      lt-le_trans (deadline F s) (of_int now.unix) (of_int later.unix),
    )
