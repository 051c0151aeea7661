-- ===== src/Sidecar/Tests.antt =====
-- Runs of the sidecar on a clock that moves by the poll interval, and the witness of the theorem.
use synthetics_operator.Shared.{
  ℕ, suc, refl, true, false, some, [], Bytes, arith, codes, ltb, ◌≡◌, ◌∷◌, ◌*◌, ◌+◌, ◌≤◌,
  if◌then◌else◌,
}
use synthetics_operator.Sidecar.{
  Surroundings, contents, absent, Ended, run_sidecar, wait_for_file, poll, poll_interval,
}
use synthetics_operator.Sidecar.Waiting.{run_sidecar-returns}

abbrev output : Bytes
output = codes "{}"

-- The file is there from the poll on; the signal comes at the other one.
abbrev world : ℕ → ℕ → Surroundings
world written stop = record {
  connects = true;
  read = λ n. if ltb n written then absent else contents output;
  elapsed = λ n. poll_interval * n;
  is_stopped = λ n. ltb stop (suc n);
  last_read = λ n. if ltb (suc n) written then absent else contents output;
  decodes = λ bytes. true;
  publishes = true;
  flushes = true;
}

run_late : run_sidecar (world 3 9) 4 ≡ some (record { published = output ∷ []; failed = false })
unfolding run_sidecar wait_for_file poll
run_late = refl

-- The attempt after the signal finds the file.
run_stopped : run_sidecar (world 3 2) 4 ≡ some (record { published = output ∷ []; failed = false })
unfolding run_sidecar wait_for_file poll
run_stopped = refl

run_without_file : run_sidecar (world 9 2) 4 ≡ some (record { published = []; failed = true })
unfolding run_sidecar wait_for_file poll
run_without_file = refl

ticks : (n : ℕ) → poll_interval * n + poll_interval ≤ poll_interval * suc n
ticks n = omega arith

run_sidecar-returns_example : (ended : Ended) × (run_sidecar (world 5000 9000) 1202 ≡ some ended)
run_sidecar-returns_example = run_sidecar-returns (world 5000 9000) ticks 1202 (omega arith)
