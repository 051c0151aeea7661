-- ===== src/Scheduler.antt =====
-- internal/probes/scheduler.go: the offset of a probe, the delay to its first job, and the table of
-- running timers. The hash is the library's; a goroutine is named by the channel that stops it.
pub mod Delay
pub mod Timers
pub mod Table
mod Tests
use synthetics_operator.Shared.{
  ℕ, zero, suc, Bool, true, false, Option, none, some, List, [], Bytes, codes, ℤ, pos, negsuc,
  sub_ℕ, leb_ℤ, ◌*◌, ◌/◌, ◌%◌, ◌^◌, ◌∷◌, ◌++◌, ◌+ℤ◌, ◌-ℤ◌, string_eq, bytes_eq, nat_eq,
  if◌then◌else◌,
}
use synthetics_operator.Shared.Dict.{Dict, lookup, insert, erase}
use synthetics_operator.Results.{Kind, NamespacedName, SpecUpdate}
use synthetics_operator.Metrics.{CrKey, key_eq}

-- probeOffsetHash, from the 64-bit sum of the identity: the sum's low 63 bits, cut to the interval.
unfoldable pub probe_offset_hash : ℕ → ℤ → ℤ
probe_offset_hash sum (pos zero) = pos 0
probe_offset_hash sum (pos (suc n)) = pos (sum % (2 ^ 63) % suc n)
probe_offset_hash sum (negsuc n) = pos 0

-- `hash` is fnv.New64a over the bytes of the identity.
module _ (hash : Bytes → ℕ) where
  abbrev pub probe_offset : Bytes → Bytes → ℤ → ℤ
  probe_offset namespace name interval =
      probe_offset_hash (hash (namespace ++ codes "/" ++ name)) interval

  abbrev pub probe_offset_for_kind : Bytes → Bytes → Bytes → ℤ → ℤ
  probe_offset_for_kind kind namespace name interval =
      probe_offset_hash (hash (kind ++ codes "/" ++ namespace ++ codes "/" ++ name)) interval

abbrev pub wrap_delay : ℤ → ℤ → ℤ
wrap_delay interval delay = if leb_ℤ delay (pos 0) then delay +ℤ interval else delay

-- initialDelay, for a time after the epoch.
unfoldable pub initial_delay : ℕ → ℤ → ℤ → ℤ
initial_delay now (pos zero) offset = pos 0
initial_delay now (pos (suc n)) offset = wrap_delay (pos (suc n)) (offset -ℤ pos (now % suc n))
initial_delay now (negsuc n) offset = pos 0

-- time.Duration(ms) * time.Millisecond
abbrev pub interval_of : SpecUpdate → ℤ
interval_of spec = elim spec.interval_ms [
  | pos n ↦ pos (n * 1000000)
  | negsuc n ↦ sub_ℕ 0 (suc n * 1000000)
]

pub record ScheduledProbe : Type 0 where
  pub spec : SpecUpdate
  pub interval : ℤ
  -- The identity of the channel `stop`.
  pub stop : ℕ

-- The scheduler, with what happened to its goroutines: `made` channels so far, the loops that were
-- started on them, and the channels that were closed, each in the order of the events.
pub record Scheduler : Type 0 where
  pub probes : Dict CrKey ScheduledProbe
  pub started : Bool
  pub made : ℕ
  pub loops : List ℕ
  pub closed : List ℕ

abbrev pub new_scheduler : Scheduler
new_scheduler = record { probes = []; started = false; made = 0; loops = []; closed = [] }

-- close(scheduled.stop); delete(s.probes, key)
abbrev pub drop_found : CrKey → Option ScheduledProbe → Scheduler → Scheduler
drop_found key none s = s
drop_found key (some scheduled) s = record s {
  probes = erase key s.probes;
  closed = scheduled.stop ∷ s.closed;
}

-- The new entry, and go s.runLoop(…).
abbrev pub launched : CrKey → SpecUpdate → Scheduler → Scheduler
launched key spec s = record s {
  probes = insert key (record { spec = spec; interval = interval_of spec; stop = s.made }) s.probes;
  made = suc s.made;
  loops = s.made ∷ s.loops;
}

abbrev pub launch : CrKey → SpecUpdate → Scheduler → Scheduler
launch key spec s = if s.started then launched key spec s else s

abbrev pub key_of : SpecUpdate → CrKey
key_of spec = record {
  kind = spec.kind;
  name = record { namespace = spec.namespace; name = spec.name };
}

unfoldable pub unregister : CrKey → Scheduler → Scheduler
unregister key s = drop_found key (lookup key s.probes) s

unfoldable pub register : SpecUpdate → Scheduler → Scheduler
register spec s =
    launch (key_of spec) spec (drop_found (key_of spec) (lookup (key_of spec) s.probes) s)

-- The two halves of Start, before and after the wait.
unfoldable pub start : Scheduler → Scheduler
start s = record s { started = true }

unfoldable pub close_all : Dict CrKey ScheduledProbe → List ℕ → List ℕ
close_all [] closed = closed
close_all ((key, scheduled) ∷ rest) closed = scheduled.stop ∷ close_all rest closed

unfoldable pub finish : Scheduler → Scheduler
finish s = record s { probes = []; closed = close_all s.probes s.closed }

-- The calls of the reconcilers.
pub data Call : Type 0 where
  register_call : SpecUpdate → Call
  unregister_call : Kind → NamespacedName → Call

abbrev pub perform : Call → Scheduler → Scheduler
perform (register_call spec) s = register spec s
perform (unregister_call kind name) s = unregister (record { kind = kind; name = name }) s

unfoldable pub perform_each : List Call → Scheduler → Scheduler
perform_each [] s = s
perform_each (call ∷ calls) s = perform_each calls (perform call s)
