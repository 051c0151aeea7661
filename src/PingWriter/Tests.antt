-- ===== src/PingWriter/Tests.antt =====
-- Runs of the ping writer, and witnesses of its theorems.
use synthetics_operator.Shared.{
  none_ne, some_inj, ap, arith, ◌<◌, ◌+ℤ◌, ℕ, String, refl, sym, inl, inr, Bool, true, false,
  Option, none, some, [], Bool-cases, string_eq, pos, leb_ℤ, ◌≡◌, ◌∙◌, ◌≢◌, ◌∷◌, ◌==◌, ◌-ℤ◌, ◌<ℤ◌,
  bytes_eq, nat_eq,
}
use synthetics_operator.Shared.Dict.{lookup, insert, erase}
use mathlib.Core.Path.{subst}
use synthetics_operator.Webhooks.{second}
use synthetics_operator.Lifecycle.{write_interval, should_persist_ping}
use synthetics_operator.Results.{since, Time, NamespacedName, name_eq, HeartbeatPing}
use synthetics_operator.Api.{Heartbeat, HeartbeatStatus}
use synthetics_operator.PingWriter.{
  Cluster, stored_time, step, on_ping, should_write, forget, throttle_for, status_of,
}
use synthetics_operator.PingWriter.Throttle.{IsSynced, due_now, step-fresh, on_ping_changed}

writing : Unit {0}
unfolding step on_ping should_write forget lookup insert erase write_interval should_persist_ping
    ◌-ℤ◌
writing = tt

abbrev backup : HeartbeatStatus → Heartbeat
backup status = record {
  object = record {
    name = "backup";
    namespace = "ns";
    generation = pos 1;
    deleting = false;
    suspend = false;
    depends = [];
    metric_labels = [];
  };
  period = pos 60000000000;
  grace = pos 0;
  token_secret_ref = none;
  status = status;
}

abbrev ping : ℕ → Bool → HeartbeatPing
ping second failed = record {
  name = "backup";
  namespace = "ns";
  received_at = record { unix = pos second; nsec = 0 };
  failed = failed;
  exit_code = pos 0;
  output = [];
}

abbrev named : NamespacedName
named = record { namespace = "ns"; name = "backup" }

abbrev at_100 : HeartbeatStatus
at_100 = record {
  observed_generation = pos 1;
  conditions = [];
  url = [];
  token_secret_name = "";
  last_ping_time = some (record { unix = pos 100; nsec = 0 });
  last_result = "ok";
}

-- The last write was nine tenths of a second after second 100, which is stored as second 100.
abbrev last_at : Time
last_at = record { unix = pos 100; nsec = 900000000 }

abbrev written : Cluster (pos 0)
written = record { last_write = (named, last_at) ∷ []; beats = (named, backup at_100) ∷ [] }

abbrev after : Bool → HeartbeatPing → Option (Option Time)
after patched p = elim (lookup named (step (pos 0) patched p written).beats) [
  | none ↦ none
  | some beat ↦ some beat.status.last_ping_time
]

-- A ping eight tenths of a second after second 115, and what the status has after it.
abbrev late_ping : HeartbeatPing
late_ping = record (ping 115 false) { received_at = record { unix = pos 115; nsec = 800000000 } }

behind : after true late_ping ≡ some (some (record { unix = pos 100; nsec = 0 }))
unfolding writing
behind = refl

-- A quarter of the period is 15 seconds.
throttled :
    (after true (ping 110 false) ≡ some (some (record { unix = pos 100; nsec = 0 })))
    × (after true (ping 116 false) ≡ some (some (record { unix = pos 116; nsec = 0 })))
    × (after true (ping 110 true) ≡ some (some (record { unix = pos 110; nsec = 0 })))
    × (after false (ping 116 false) ≡ some (some (record { unix = pos 100; nsec = 0 })))
unfolding writing
throttled = (refl, refl, refl, refl)

-- A late ping of another outcome moves the persisted time back.
late : after true (ping 90 true) ≡ some (some (record { unix = pos 90; nsec = 0 }))
unfolding writing
late = refl

abbrev ok_at_100 : Heartbeat
ok_at_100 = backup at_100

synced : IsSynced (pos 0) written
unfolding lookup
synced name t h = elim (Bool-cases (named == name)) [
  | inl same ↦
      let last : lookup name written.last_write ≡ some last_at = rw same refl in
      let at : last_at ≡ t = some_inj (sym last ∙ h) in
      (
        ok_at_100,
        rw same refl,
        ap (λ (x : Time). some (stored_time x)) at,
        subst (λ (x : Time). x.nsec < second) at (omega arith),
      )
  | inr other ↦
      let last : lookup name written.last_write ≡ none = rw other refl in
      absurd (none_ne (sym last ∙ h))
]

found : lookup named written.beats ≡ some (backup at_100)
unfolding lookup
found = refl

throttle_positive : pos 0 <ℤ throttle_for (pos 0) ok_at_100
unfolding writing
throttle_positive = omega arith

step-fresh_example :
    (beat : Heartbeat) × (t : Time) × (lookup named (step (pos 0) true late_ping written).beats
      ≡ some beat)
    × (beat.status.last_ping_time ≡ some t)
    × (leb_ℤ (throttle_for (pos 0) ok_at_100 +ℤ pos second) (since late_ping.received_at t) ≡ false)
step-fresh_example =
    step-fresh (pos 0) late_ping written ok_at_100 synced (omega arith) found throttle_positive

other_text : (s t : String) → (s == t) ≡ false → s ≢ t
other_text s t h e = cc (h, (string_eq.beq_iff s t).1 e)

on_ping_changed_example :
    (on_ping (pos 0) (some ok_at_100) true (ping 101 true) written.last_write).1
    ≡ some (status_of (pos 0) (ping 101 true) ok_at_100.status)
on_ping_changed_example =
    on_ping_changed (pos 0) ok_at_100 true (ping 101 true) written.last_write
      (other_text "failed" "ok" refl)

due : due_now (pos 0) ok_at_100 (ping 116 false) written ≡ true
unfolding writing
due = refl
