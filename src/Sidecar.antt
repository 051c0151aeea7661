-- ===== src/Sidecar.antt =====
-- images/test-sidecar/main.go: the process beside a test's runner, which waits for the runner's result
-- file and publishes it. A poll has a number, from 0; fuel is the number of polls left. What the file,
-- the clock, the signals and the bus answer is the parameter `Surroundings`.
pub mod Waiting
mod Tests
use synthetics_operator.Shared.{
  ℕ, zero, suc, Bool, true, false, not, Option, none, some, List, [], Bytes, ltb, ◌∷◌,
  if◌then◌else◌,
}

-- What os.ReadFile answers.
pub data Read : Type 0 where
  contents : Bytes → Read
  absent unreadable : Read

pub data WaitError : Type 0 where
  read_error deadline_exceeded stopped : WaitError

pub data Waited : Type 0 where
  found : Bytes → Waited
  gave_up : WaitError → Waited

pub record Surroundings : Type 0 where
  pub connects : Bool
  pub read : ℕ → Read
  -- the nanoseconds from the start to the poll's test of the deadline
  pub elapsed : ℕ → ℕ
  -- the poll's select takes the stop signal, and what the attempt after it reads
  pub is_stopped : ℕ → Bool
  pub last_read : ℕ → Read
  -- json.Unmarshal takes the contents
  pub decodes : Bytes → Bool
  pub publishes : Bool
  pub flushes : Bool

-- In nanoseconds.
abbrev pub poll_interval : ℕ
poll_interval = 500000000

abbrev pub max_wait : ℕ
max_wait = 600000000000

abbrev pub final_attempt : Read → Waited
final_attempt (contents bytes) = found bytes
final_attempt absent = gave_up stopped
final_attempt unreadable = gave_up stopped

-- One turn of the loop; `rest` is what the next turns come to.
unfoldable pub poll : Surroundings → ℕ → Option Waited → Read → Option Waited
poll world n rest (contents bytes) = some (found bytes)
poll world n rest unreadable = some (gave_up read_error)
poll world n rest absent =
    if ltb max_wait (world.elapsed n)
    then some (gave_up deadline_exceeded)
    else if world.is_stopped n
    then some (final_attempt (world.last_read n))
    else rest

unfoldable pub wait_for_file : Surroundings → ℕ → ℕ → Option Waited
wait_for_file world zero n = none
wait_for_file world (suc fuel) n = poll world n (wait_for_file world fuel (suc n)) (world.read n)

-- What the bus has taken, and whether the process ends with an error.
pub record Ended : Type 0 where
  pub published : List Bytes
  pub failed : Bool

abbrev pub publish_found : Surroundings → Waited → Ended
publish_found world (gave_up error) = record { published = []; failed = true }
publish_found world (found bytes) =
    if not (world.decodes bytes)
    then record { published = []; failed = true }
    else if not world.publishes
    then record { published = []; failed = true }
    else record { published = bytes ∷ []; failed = not world.flushes }

abbrev pub publish_waited : Surroundings → Option Waited → Option Ended
publish_waited world none = none
publish_waited world (some waited) = some (publish_found world waited)

unfoldable pub run_sidecar : Surroundings → ℕ → Option Ended
run_sidecar world fuel =
    if not world.connects
    then some (record { published = []; failed = true })
    else publish_waited world (wait_for_file world fuel 0)
