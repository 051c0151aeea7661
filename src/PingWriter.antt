-- ===== src/PingWriter.antt =====
-- controllers/heartbeat_pings.go: the writer that keeps each heartbeat's last ping in its status.
-- What the API server holds and whether it takes a patch are arguments.
pub mod Throttle
mod Tests
use synthetics_operator.Shared.{
  String, Bool, true, false, not, Option, none, some, ℤ, pos, ◌==◌, string_eq, bytes_eq, nat_eq,
  if◌then◌else◌,
}
use synthetics_operator.Shared.Dict.{Dict, lookup, insert, erase}
use synthetics_operator.Lifecycle.{write_interval, should_persist_ping}
use synthetics_operator.Results.{since, Time, NamespacedName, name_eq, HeartbeatPing}
use synthetics_operator.Api.{Heartbeat, HeartbeatStatus}

abbrev heartbeat_result_ok : String
heartbeat_result_ok = "ok"

abbrev pub heartbeat_result_failed : String
heartbeat_result_failed = "failed"

abbrev pub name_of : HeartbeatPing → NamespacedName
name_of ping = record { namespace = ping.namespace; name = ping.name }

abbrev pub result_of : HeartbeatPing → String
result_of ping = if ping.failed then heartbeat_result_failed else heartbeat_result_ok

-- metav1.NewTime, as the API server keeps it: the JSON of a metav1.Time has whole seconds.
abbrev pub stored_time : Time → Time
stored_time t = record { unix = t.unix; nsec = 0 }

-- shouldWrite's test, on the last write's time.
abbrev pub is_due : Option Time → Time → Bool → ℤ → Bool
is_due none at outcome_changed throttle = should_persist_ping false (pos 0) outcome_changed throttle
is_due (some previous) at outcome_changed throttle =
    should_persist_ping true (since at previous) outcome_changed throttle

unfoldable pub should_write :
    NamespacedName → Time → Bool → ℤ → Dict NamespacedName Time → Bool × Dict NamespacedName Time
should_write name at outcome_changed throttle last_write =
    if is_due (lookup name last_write) at outcome_changed throttle
    then (true, insert name at last_write)
    else (false, last_write)

unfoldable pub forget : NamespacedName → Dict NamespacedName Time → Dict NamespacedName Time
forget name last_write = erase name last_write

-- MinWriteInterval, and the writer's map.
module _ (min_write_interval : ℤ) where
  abbrev pub throttle_for : Heartbeat → ℤ
  throttle_for beat = write_interval beat.period min_write_interval

  -- The status that a ping leaves.
  abbrev pub status_of : HeartbeatPing → HeartbeatStatus → HeartbeatStatus
  status_of ping status = record status {
    last_ping_time = some (stored_time ping.received_at);
    last_result = result_of ping;
  }

  -- After shouldWrite: the patch, and the roll-back where it fails.
  abbrev patch_status :
      Bool
      → HeartbeatPing
      → HeartbeatStatus
      → Bool × Dict NamespacedName Time
      → Dict NamespacedName Time × Option HeartbeatStatus
  patch_status patched ping status (false, last_write) = (last_write, none)
  patch_status patched ping status (true, last_write) = (
    if patched then last_write else forget (name_of ping) last_write,
    some (status_of ping status),
  )

  -- `found` is what Get answers, none on an error. The result has the status that is sent, if any.
  unfoldable pub on_ping :
      Option Heartbeat
      → Bool
      → HeartbeatPing
      → Dict NamespacedName Time
      → Dict NamespacedName Time × Option HeartbeatStatus
  on_ping none patched ping last_write = (last_write, none)
  on_ping (some beat) patched ping last_write = patch_status patched ping beat.status (
      should_write (name_of ping) ping.received_at (not (result_of ping == beat.status.last_result))
        (throttle_for beat) last_write)

  -- The writer beside the objects that the API server holds.
  pub record Cluster : Type 0 where
    pub last_write : Dict NamespacedName Time
    pub beats : Dict NamespacedName Heartbeat

  abbrev store_status :
      NamespacedName
      → Option Heartbeat
      → Option HeartbeatStatus
      → Dict NamespacedName Heartbeat
      → Dict NamespacedName Heartbeat
  store_status name none sent beats = beats
  store_status name (some beat) none beats = beats
  store_status name (some beat) (some status) beats =
      insert name (record beat { status = status }) beats

  -- One ping, with whether the API server takes the patch.
  unfoldable pub step : Bool → HeartbeatPing → Cluster → Cluster
  step patched ping c =
      let found = lookup (name_of ping) c.beats in
      let (last_write, sent) = on_ping found patched ping c.last_write in
      record {
        last_write = last_write;
        beats = if patched then store_status (name_of ping) found sent c.beats else c.beats;
      }
