-- ===== src/PingWriter/Throttle.antt =====
-- The throttle of the ping writer: how old a persisted ping can be, and which pings are never held
-- back. A time has less than a second of nanoseconds.
use synthetics_operator.Shared.{
  refl, sym, ap, some_inj, ℕ, inl, inr, Bool, true, false, not, Option, none, some, arith,
  Bool-cases, Option-cases, beq_ne, ℤ, pos, leb_ℤ, ◌≡◌, ◌∙◌, ◌≢◌, ◌==◌, ◌+ℤ◌, ◌<◌, ◌-ℤ◌, ◌<ℤ◌,
  string_eq, bytes_eq, nat_eq,
}
use synthetics_operator.Shared.Dict.{
  Dict, lookup, insert, erase, lookup-insert, lookup-erase, lookup-insert_self, lookup-erase_self,
}
use mathlib.Core.Path.{subst}
use synthetics_operator.Webhooks.{second}
use synthetics_operator.Lifecycle.{should_persist_ping}
use synthetics_operator.Results.{nanos, since, Time, NamespacedName, name_eq, HeartbeatPing}
use synthetics_operator.Api.{Heartbeat}
use synthetics_operator.PingWriter.{
  should_persist_ping, name_of, result_of, is_due, should_write, forget, throttle_for, status_of,
  stored_time, on_ping, Cluster, step,
}

-- A time is less than a second after what is stored of it.
nanos-stored_time : (t : Time) → nanos t ≡ nanos (stored_time t) +ℤ pos t.nsec
unfolding ◌+ℤ◌
nanos-stored_time t = ground arith

cut_time :
    (now full cut throttle : ℤ) (nsec : ℕ)
    → full ≡ cut +ℤ pos nsec
    → nsec < second
    → leb_ℤ throttle (now -ℤ full) ≡ false
    → leb_ℤ (throttle +ℤ pos second) (now -ℤ cut) ≡ false
unfolding ◌-ℤ◌ ◌+ℤ◌
cut_time now full cut throttle nsec e small recent = ground (arith, e, small, recent)

since-stored_time :
    (at t : Time) (throttle : ℤ)
    → t.nsec < second
    → leb_ℤ throttle (since at t) ≡ false
    → leb_ℤ (throttle +ℤ pos second) (since at (stored_time t)) ≡ false
since-stored_time at t throttle small recent =
    cut_time (nanos at) (nanos t) (nanos (stored_time t)) throttle t.nsec (nanos-stored_time t)
      small recent

module _ (min_write_interval : ℤ) where
  -- What the writer remembers of a heartbeat is, to the second, the last ping in its status.
  abbrev pub IsSynced : Cluster min_write_interval → Type 0
  IsSynced c =
      (name : NamespacedName) (t : Time)
      → lookup name c.last_write ≡ some t
      → (beat : Heartbeat) × (lookup name c.beats ≡ some beat)
        × (beat.status.last_ping_time ≡ some (stored_time t))
        × (t.nsec < second)

  -- The three ways a ping ends.
  step-unknown :
      (patched : Bool) (ping : HeartbeatPing) (c : Cluster min_write_interval)
      → lookup (name_of ping) c.beats ≡ none
      → step min_write_interval patched ping c ≡ c
  unfolding step on_ping
  step-unknown true ping c h = rw h refl
  step-unknown false ping c h = rw h refl

  -- The ping is written now.
  abbrev pub due_now : Heartbeat → HeartbeatPing → Cluster min_write_interval → Bool
  due_now beat ping c =
      is_due (lookup (name_of ping) c.last_write) ping.received_at
        (not (result_of ping == beat.status.last_result)) (throttle_for min_write_interval beat)

  step-skipped :
      (patched : Bool) (ping : HeartbeatPing) (c : Cluster min_write_interval) (beat : Heartbeat)
      → lookup (name_of ping) c.beats ≡ some beat
      → due_now beat ping c ≡ false
      → step min_write_interval patched ping c ≡ c
  unfolding step on_ping should_write
  step-skipped true ping c beat found idle = rw (found, idle) refl
  step-skipped false ping c beat found idle = rw (found, idle) refl

  step-written :
      (ping : HeartbeatPing) (c : Cluster min_write_interval) (beat : Heartbeat)
      → lookup (name_of ping) c.beats ≡ some beat
      → due_now beat ping c ≡ true
      → step min_write_interval true ping c ≡ record {
        last_write = insert (name_of ping) ping.received_at c.last_write;
        beats =
            insert
              (name_of ping)
              (record beat { status = status_of min_write_interval ping beat.status })
              c.beats;
      }
  unfolding step on_ping should_write
  step-written ping c beat found due = rw (found, due) refl

  step-failed :
      (ping : HeartbeatPing) (c : Cluster min_write_interval) (beat : Heartbeat)
      → lookup (name_of ping) c.beats ≡ some beat
      → due_now beat ping c ≡ true
      → step min_write_interval false ping c ≡ record c {
        last_write = erase (name_of ping) (insert (name_of ping) ping.received_at c.last_write);
      }
  unfolding step on_ping should_write forget
  step-failed ping c beat found due = rw (found, due) refl

  written-IsSynced :
      (ping : HeartbeatPing) (c : Cluster min_write_interval) (beat : Heartbeat)
      → ping.received_at.nsec < second
      → IsSynced c
      → IsSynced (record {
        last_write = insert (name_of ping) ping.received_at c.last_write;
        beats =
            insert
              (name_of ping)
              (record beat { status = status_of min_write_interval ping beat.status })
              c.beats;
      })
  written-IsSynced ping c beat small synced name t held =
      let written = record beat { status = status_of min_write_interval ping beat.status } in
      let last = lookup-insert (name_of ping) name ping.received_at c.last_write in
      let stored = lookup-insert (name_of ping) name written c.beats in
      elim (Bool-cases (name_of ping == name)) [
        | inl same ↦
            let now : ping.received_at ≡ t = some_inj (sym (last ∙ rw same refl) ∙ held) in
            (
              written,
              stored ∙ rw same refl,
              ap (λ (x : Time). some (stored_time x)) now,
              subst (λ (x : Time). x.nsec < second) now small,
            )
        | inr other ↦
            let (before, found, at, below) = synced name t (sym (last ∙ rw other refl) ∙ held) in
            (before, stored ∙ rw other found, at, below)
      ]

  failed-IsSynced :
      (name : NamespacedName) (at : Time) (c : Cluster min_write_interval)
      → IsSynced c
      → IsSynced (record c { last_write = erase name (insert name at c.last_write) })
  failed-IsSynced name at c synced other t held = synced other t (
      ground (
        arith,
        held,
        lookup-erase name other (insert name at c.last_write),
        lookup-insert name other at c.last_write,
      ))

  -- Whether or not the patch is taken, the writer's memory stays in step with the statuses.
  step-IsSynced :
      (patched : Bool) (ping : HeartbeatPing) (c : Cluster min_write_interval)
      → ping.received_at.nsec < second
      → IsSynced c
      → IsSynced (step min_write_interval patched ping c)
  step-IsSynced patched ping c small synced = elim (Option-cases (lookup (name_of ping) c.beats)) [
    | inl gone ↦ rw (step-unknown patched ping c gone) synced
    | inr (beat, found) ↦ elim (Bool-cases (due_now beat ping c)) [
      | inl due ↦ either patched beat found due
      | inr idle ↦ rw (step-skipped patched ping c beat found idle) synced
    ]
  ]
    where
      either :
          (patched : Bool) (beat : Heartbeat)
          → lookup (name_of ping) c.beats ≡ some beat
          → due_now beat ping c ≡ true
          → IsSynced (step min_write_interval patched ping c)
      either true beat found due =
          rw (step-written ping c beat found due) (written-IsSynced ping c beat small synced)
      either false beat found due =
          rw (step-failed ping c beat found due)
            (failed-IsSynced (name_of ping) ping.received_at c synced)

  -- Not due: less than the throttle has passed since the last write.
  idle-elapsed :
      (at : Time) (changed : Bool) (throttle : ℤ) (last : Option Time)
      → is_due last at changed throttle ≡ false
      → (t : Time) × (last ≡ some t) × (leb_ℤ throttle (since at t) ≡ false)
  unfolding should_persist_ping
  idle-elapsed at changed throttle none h = ground (arith, h)
  idle-elapsed at changed throttle (some t) h = (t, refl, ground (arith, h))

  no_time : (n throttle : ℤ) → pos 0 <ℤ throttle → leb_ℤ throttle (n -ℤ n) ≡ false
  unfolding ◌-ℤ◌
  no_time n throttle h = ground (arith, h)

  -- No time has passed since the ping itself.
  since_self : (at : Time) (throttle : ℤ) → pos 0 <ℤ throttle → leb_ℤ throttle (since at at) ≡ false
  since_self at throttle h = no_time (nanos at) throttle h

  -- While the API server takes the patch, and the writer's memory is in step with the statuses, the
  -- status that a ping of a known heartbeat leaves is less than the throttle and a second behind the
  -- ping, where the throttle is positive and the ping's nanoseconds are below a second.
  pub step-fresh :
      (ping : HeartbeatPing) (c : Cluster min_write_interval) (beat : Heartbeat)
      → IsSynced c
      → ping.received_at.nsec < second
      → lookup (name_of ping) c.beats ≡ some beat
      → pos 0 <ℤ throttle_for min_write_interval beat
      → (after : Heartbeat) × (t : Time) × (lookup
            (name_of ping)
            (step min_write_interval true ping c).beats
          ≡ some after)
        × (after.status.last_ping_time ≡ some t)
        × (leb_ℤ (throttle_for min_write_interval beat +ℤ pos second) (since ping.received_at t)
            ≡ false)
  step-fresh ping c beat synced small found positive = elim (Bool-cases (due_now beat ping c)) [
    | inl due ↦ rw (step-written ping c beat found due) (
      record beat { status = status_of min_write_interval ping beat.status },
      stored_time ping.received_at,
      lookup-insert_self (name_of ping) _ c.beats,
      refl,
      since-stored_time ping.received_at ping.received_at (throttle_for min_write_interval beat)
          small (since_self ping.received_at (throttle_for min_write_interval beat) positive),
    )
    | inr idle ↦
        let (t, held, recent) =
          idle-elapsed ping.received_at _ _ (lookup (name_of ping) c.last_write) idle in
        let (after, stored, at, below) = synced (name_of ping) t held in
        rw (step-skipped true ping c beat found idle) (
          after,
          stored_time t,
          stored,
          at,
          since-stored_time ping.received_at t (throttle_for min_write_interval beat) below recent,
        )
  ]

  -- A ping of which the writer remembers nothing is sent.
  on_ping-first :
      (beat : Heartbeat) (patched : Bool) (ping : HeartbeatPing)
      (last_write : Dict NamespacedName Time)
      → lookup (name_of ping) last_write ≡ none
      → (on_ping min_write_interval (some beat) patched ping last_write).1
        ≡ some (status_of min_write_interval ping beat.status)
  unfolding on_ping should_write should_persist_ping
  on_ping-first beat patched ping last_write h = rw h refl

  -- A ping whose outcome is not the one in the status is sent, whatever was written before.
  pub on_ping_changed :
      (beat : Heartbeat) (patched : Bool) (ping : HeartbeatPing)
      (last_write : Dict NamespacedName Time)
      → result_of ping ≢ beat.status.last_result
      → (on_ping min_write_interval (some beat) patched ping last_write).1
        ≡ some (status_of min_write_interval ping beat.status)
  unfolding on_ping should_write should_persist_ping
  on_ping_changed beat patched ping last_write h =
      elim (Option-cases (lookup (name_of ping) last_write)) [
        | inl first ↦ rw first refl
        | inr (t, seen) ↦ rw (seen, beq_ne (result_of ping) beat.status.last_result h) refl
      ]

  -- After a patch that failed, the next ping of the heartbeat is sent, whatever its time and outcome.
  pub on_ping_retry :
      (ping next : HeartbeatPing) (c : Cluster min_write_interval) (beat later : Heartbeat)
      (patched : Bool)
      → lookup (name_of ping) c.beats ≡ some beat
      → due_now beat ping c ≡ true
      → name_of next ≡ name_of ping
      → (on_ping min_write_interval
          (some later)
          patched
          next
          (step min_write_interval false ping c).last_write).1
        ≡ some (status_of min_write_interval next later.status)
  on_ping_retry ping next c beat later patched found due same =
      let forgotten : lookup (name_of next) (step min_write_interval false ping c).last_write
          ≡ none =
        rw (step-failed ping c beat found due, same) (lookup-erase_self (name_of ping) _) in
      on_ping-first later patched next _ forgotten
