-- ===== src/Scheduler/Tests.antt =====
-- Runs of internal/probes/scheduler.go.
use synthetics_operator.Shared.{
  ℕ, String, refl, false, none, some, List, [], Bytes, codes, pos, ◌+◌, ◌*◌, ◌≤◌, ◌<◌, ◌≡◌, ◌∷◌,
  ◌+ℤ◌, ◌-ℤ◌, string_eq, bytes_eq, nat_eq,
}
use synthetics_operator.Shared.Dict.{lookup, insert, erase}
use synthetics_operator.Results.{SpecUpdate, kind_http_probe}
use synthetics_operator.Scheduler.{
  key_of, Scheduler, initial_delay, probe_offset_for_kind, Call, register_call, unregister_call,
  perform_each, start, finish, new_scheduler, register, unregister,
}
use synthetics_operator.Scheduler.Table.{last_call, spec_at, history-spec_at}
use synthetics_operator.Scheduler.Timers.{IsExact, is_running, history-IsExact, finish_stops}
use synthetics_operator.Scheduler.Delay.{initial_delay-probe_offset_for_kind}

abbrev spec_of : String → ℕ → SpecUpdate
spec_of name interval = record {
  kind = kind_http_probe;
  name = name;
  namespace = "ns";
  generation = pos 1;
  deleted = false;
  suspend = false;
  interval_ms = pos interval;
  depends = [];
  metric_labels = [];
  http_probe = none;
  dns_probe = none;
  tcp_probe = none;
  heartbeat = none;
}

abbrev early : List Call
early = register_call (spec_of "early" 1000) ∷ []

abbrev later : List Call
later =
    register_call (spec_of "web" 1000)
    ∷ register_call (spec_of "api" 2000)
    ∷ register_call (spec_of "web" 3000)
    ∷ unregister_call kind_http_probe (record { namespace = "ns"; name = "api" })
    ∷ []

abbrev at_end : Scheduler
at_end = perform_each later (start (perform_each early new_scheduler))

-- Three timers were started, and two of them are closed: a call before Start starts none.
last_runs : (at_end.loops ≡ 2 ∷ 1 ∷ 0 ∷ []) × (at_end.closed ≡ 1 ∷ 0 ∷ [])
unfolding perform_each start register unregister lookup insert erase
last_runs = (refl, refl)

abbrev hash : Bytes → ℕ
hash [] = 7
hash (byte ∷ bytes) = byte + 31 * hash bytes

-- At 5700 the next time of offset 400 is 6400; at 5400 it is a whole interval away.
lands :
    (initial_delay 5700 (pos 1000) (pos 400) ≡ pos 700)
    × (initial_delay 5400 (pos 1000) (pos 400) ≡ pos 1000)
unfolding initial_delay ◌-ℤ◌ ◌+ℤ◌
lands = (refl, refl)

initial_delay-probe_offset_for_kind_example :
    (o : ℕ) × (probe_offset_for_kind hash (codes "HTTPProbe") (codes "ns") (codes "web") (pos 1000)
      ≡ pos o)
    × (o < 1000)
    × ((now : ℕ)
        → (d : ℕ) × (k : ℕ) × (initial_delay now
              (pos 1000)
              (probe_offset_for_kind hash (codes "HTTPProbe") (codes "ns") (codes "web") (pos 1000))
            ≡ pos d)
          × (0 < d)
          × (d ≤ 1000)
          × (now + d ≡ k * 1000 + o))
initial_delay-probe_offset_for_kind_example =
    initial_delay-probe_offset_for_kind hash (codes "HTTPProbe") (codes "ns") (codes "web") 999

history-IsExact_example : IsExact at_end
history-IsExact_example = history-IsExact early later

finish_stops_example : is_running 2 (finish at_end) ≡ false
finish_stops_example = finish_stops early later 2

history-spec_at_example :
    spec_at (key_of (spec_of "web" 0)) at_end ≡ last_call (key_of (spec_of "web" 0)) later none
history-spec_at_example = history-spec_at early later (key_of (spec_of "web" 0))

-- What the last registration of that probe was.
last_of_web : last_call (key_of (spec_of "web" 0)) later none ≡ some (spec_of "web" 3000)
unfolding last_call
last_of_web = refl
