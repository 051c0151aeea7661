-- ===== src/Lifecycle/Tests.antt =====
-- Runs of the lifecycle rules, and witnesses of their theorems.
use synthetics_operator.Shared.{ℕ, refl, true, false, List, [], pos, negsuc, ◌≡◌, ◌∷◌, ◌+ℤ◌}
use synthetics_operator.Float.Exact.{exact}
use synthetics_operator.Results.{Time}
use synthetics_operator.Lifecycle.{
  ok, pending, missed, reported_failure, State, zero_state, apply_spec, record_ping, evaluate,
  write_interval, should_persist_ping, second,
}
use synthetics_operator.Lifecycle.Pings.{Ping, record_pings}

lifecycle : Unit {0}
unfolding apply_spec record_ping evaluate record_pings write_interval should_persist_ping ◌+ℤ◌
lifecycle = tt

-- A heartbeat every minute, with no grace of its own: it is late after two periods.
abbrev fresh : State exact
fresh = record (zero_state exact) { period_seconds = pos 60000 }

abbrev good : ℕ → Ping
good t = record { failed = false; exit_code = pos 0; received = pos t }

abbrev bad : ℕ → Ping
bad t = record { failed = true; exit_code = pos 2; received = pos t }

abbrev clock : ℕ → Time
clock t = record { unix = pos t; nsec = 0 }

abbrev out_of_order : List Ping
out_of_order = good 100 ∷ bad 40 ∷ []

classes :
    (evaluate exact fresh (clock 50) ≡ pending)
    × (evaluate exact (record_pings exact fresh out_of_order) (clock 220) ≡ ok)
    × (evaluate exact (record_pings exact fresh out_of_order) (clock 221) ≡ missed)
    × (evaluate exact (record_pings exact fresh (good 100 ∷ bad 100 ∷ [])) (clock 220)
        ≡ reported_failure)
unfolding lifecycle
classes = (refl, refl, refl, refl)

intervals :
    (write_interval (pos 60000000000) (pos 0) ≡ pos 15000000000)
    × (write_interval (pos 0) (negsuc 0) ≡ pos 15000000000)
    × (write_interval (pos 60000000000) second ≡ second)
    × (should_persist_ping true (pos 5) false (pos 6) ≡ false)
    × (should_persist_ping true (pos 6) false (pos 6) ≡ true)
unfolding lifecycle
intervals = (refl, refl, refl, refl, refl)
