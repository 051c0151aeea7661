-- ===== src/Sidecar/Waiting.antt =====
-- The wait for a result file ends.
use synthetics_operator.Shared.{
  ℕ, zero, suc, refl, ap, [], Bool, true, false, not, Option, none, some, arith, ltb, ◌≡◌, ◌+◌, ◌*◌,
  ◌≤◌, ◌<◌, if◌then◌else◌,
}
use synthetics_operator.Sidecar.{
  Surroundings, Read, contents, absent, unreadable, Waited, Ended, poll, wait_for_file,
  publish_found, run_sidecar, poll_interval, max_wait, found, gave_up, read_error,
  deadline_exceeded, final_attempt, publish_waited,
}

module _ (world : Surroundings)
    (ticks : (n : ℕ) → world.elapsed n + poll_interval ≤ world.elapsed (suc n)) where
  elapsed-ge : (n : ℕ) → poll_interval * n ≤ world.elapsed n
  elapsed-ge zero = omega arith
  elapsed-ge (suc n) = let before = elapsed-ge n in let tick = ticks n in omega arith

  -- A turn gives a result where the deadline has passed, or where the next turns give one.
  poll-returns :
      (n : ℕ) (rest : Option Waited) (read : Read)
      → (ltb max_wait (world.elapsed n) ≡ false → (w : Waited) × (rest ≡ some w))
      → (w : Waited) × (poll world n rest read ≡ some w)
  unfolding poll
  poll-returns n rest (contents bytes) next = (found bytes, refl)
  poll-returns n rest unreadable next = (gave_up read_error, refl)
  poll-returns n rest absent next =
      of_late (ltb max_wait (world.elapsed n)) (world.is_stopped n) next
    where
      of_late :
          (late stop : Bool)
          → (late ≡ false → (w : Waited) × (rest ≡ some w))
          → (w : Waited) × ((if late
                then some (gave_up deadline_exceeded)
                else if stop
                then some (final_attempt (world.last_read n))
                else rest)
              ≡ some w)
      of_late true stop next = (gave_up deadline_exceeded, refl)
      of_late false true next = (final_attempt (world.last_read n), refl)
      of_late false false next = next refl

  wait_for_file-returns :
      (fuel n : ℕ)
      → max_wait < poll_interval * (fuel + n)
      → (w : Waited) × (wait_for_file world (suc fuel) n ≡ some w)
  unfolding wait_for_file
  wait_for_file-returns zero n past =
      let reached = elapsed-ge n in
      poll-returns n none (world.read n) (λ early. ground (arith, early, reached, past))
  wait_for_file-returns (suc fuel) n past =
      poll-returns n _ (world.read n) (λ early. wait_for_file-returns fuel (suc n) (omega arith))

  wait_for_file-ends :
      (polls : ℕ) → 1202 ≤ polls → (w : Waited) × (wait_for_file world polls 0 ≡ some w)
  wait_for_file-ends zero enough = ground (arith, enough)
  wait_for_file-ends (suc fuel) enough = wait_for_file-returns fuel 0 (omega arith)

  -- The sidecar ends, after 1202 polls at most, whatever the file, the signals and the bus do, where
  -- the clock moves by at least the poll interval from each poll to the next.
  pub run_sidecar-returns :
      (polls : ℕ) → 1202 ≤ polls → (ended : Ended) × (run_sidecar world polls ≡ some ended)
  unfolding run_sidecar
  run_sidecar-returns polls enough = of_test world.connects
    where
      of_test :
          (up : Bool)
          → (ended : Ended) × ((if not up
                then some (record { published = []; failed = true })
                else publish_waited world (wait_for_file world polls 0))
              ≡ some ended)
      of_test true =
          let (w, e) = wait_for_file-ends polls enough in
          (publish_found world w, ap (publish_waited world) e)
      of_test false = (record { published = []; failed = true }, refl)
