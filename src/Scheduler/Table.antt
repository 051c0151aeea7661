-- ===== src/Scheduler/Table.antt =====
-- The table of timers holds the last spec of each key.
use synthetics_operator.Shared.{
  refl, ap, true, Option, none, some, List, [], arith, ◌≡◌, ◌∙◌, ◌∷◌, ◌==◌, string_eq, bytes_eq,
  nat_eq, if◌then◌else◌,
}
use synthetics_operator.Scheduler.{
  perform_each, start, new_scheduler, ScheduledProbe, Scheduler, interval_of, drop_found, launched,
  register, unregister, register_call, unregister_call, perform, Call, key_of, launch,
}
use synthetics_operator.Shared.Dict.{lookup, lookup-insert, lookup-erase}
use synthetics_operator.Results.{SpecUpdate}
use synthetics_operator.Metrics.{crkey, CrKey, key_eq}

-- What the last call about a key leaves: the spec of a registration, nothing after a removal.
unfoldable pub last_call : CrKey → List Call → Option SpecUpdate → Option SpecUpdate
last_call key [] was = was
last_call key (register_call spec ∷ calls) was =
    last_call key calls (if key_of spec == key then some spec else was)
last_call key (unregister_call kind name ∷ calls) was =
    last_call key calls (if (record { kind = kind; name = name }) == key then none else was)

abbrev pub spec_at : CrKey → Scheduler → Option SpecUpdate
spec_at key s = elim (lookup key s.probes) [ none ↦ none | some scheduled ↦ some scheduled.spec ]

drop_found-spec_at :
    (dropped key : CrKey) (found : Option ScheduledProbe) (s : Scheduler)
    → lookup dropped s.probes ≡ found
    → lookup key (drop_found dropped found s).probes
      ≡ (if dropped == key then none else lookup key s.probes)
drop_found-spec_at dropped key none s e =
    ground (arith, e, key_eq.beq_iff dropped key, ap (λ (k : CrKey). lookup k s.probes))
drop_found-spec_at dropped key (some p) s e = lookup-erase dropped key s.probes

drop_found-started :
    (key : CrKey) (found : Option ScheduledProbe) (s : Scheduler)
    → (drop_found key found s).started ≡ s.started
drop_found-started key none s = refl
drop_found-started key (some p) s = refl

launched-spec_at :
    (spec : SpecUpdate) (key at : CrKey) (s : Scheduler)
    → spec_at at (launched key spec s) ≡ (if key == at then some spec else spec_at at s)
launched-spec_at spec key at s = ground (
  arith,
  lookup-insert key at (record { spec = spec; interval = interval_of spec; stop = s.made })
      s.probes,
)

launch-spec_at :
    (spec : SpecUpdate) (key at : CrKey) (s : Scheduler)
    → s.started ≡ true
    → spec_at at (launch key spec s) ≡ (if key == at then some spec else spec_at at s)
launch-spec_at spec key at s h = ground (arith, h, launched-spec_at spec key at s)

launch-started :
    (spec : SpecUpdate) (key : CrKey) (s : Scheduler) → (launch key spec s).started ≡ s.started
launch-started spec key s = ground arith

perform-started : (call : Call) (s : Scheduler) → (perform call s).started ≡ s.started
unfolding register unregister
perform-started (register_call spec) s =
    launch-started spec (key_of spec) (drop_found (key_of spec) (lookup (key_of spec) s.probes) s)
    ∙ drop_found-started (key_of spec) (lookup (key_of spec) s.probes) s
perform-started (unregister_call kind name) s =
    let key = crkey kind name in drop_found-started key (lookup key s.probes) s

pub perform-spec_at :
    (call : Call) (key : CrKey) (s : Scheduler)
    → s.started ≡ true
    → spec_at key (perform call s) ≡ last_call key (call ∷ []) (spec_at key s)
unfolding register unregister last_call
perform-spec_at (register_call spec) key s h = ground (
  arith,
  h,
  launch-spec_at spec (key_of spec) key (drop_found (key_of spec) (lookup (key_of spec) s.probes) s)
      (drop_found-started (key_of spec) (lookup (key_of spec) s.probes) s ∙ h),
  drop_found-spec_at (key_of spec) key (lookup (key_of spec) s.probes) s refl,
)
perform-spec_at (unregister_call kind name) key s h =
    let dropped = crkey kind name in
    ground (arith, drop_found-spec_at dropped key (lookup dropped s.probes) s refl)

perform-new_scheduler : (call : Call) → perform call new_scheduler ≡ new_scheduler
unfolding register unregister lookup
perform-new_scheduler (register_call spec) = refl
perform-new_scheduler (unregister_call kind name) = refl

perform_each-new_scheduler : (calls : List Call) → perform_each calls new_scheduler ≡ new_scheduler
unfolding perform_each
perform_each-new_scheduler [] = refl
perform_each-new_scheduler (call ∷ calls) =
    ap (perform_each calls) (perform-new_scheduler call) ∙ perform_each-new_scheduler calls

last_call-one :
    (call : Call) (calls : List Call) (key : CrKey) (was : Option SpecUpdate)
    → last_call key calls (last_call key (call ∷ []) was) ≡ last_call key (call ∷ calls) was
unfolding last_call
last_call-one (register_call spec) calls key was = refl
last_call-one (unregister_call kind name) calls key was = refl

perform_each-spec_at :
    (calls : List Call) (key : CrKey) (s : Scheduler)
    → s.started ≡ true
    → spec_at key (perform_each calls s) ≡ last_call key calls (spec_at key s)
unfolding perform_each last_call
perform_each-spec_at [] key s h = refl
perform_each-spec_at (call ∷ calls) key s h =
    perform_each-spec_at calls key (perform call s) (perform-started call s ∙ h)
    ∙ ap (last_call key calls) (perform-spec_at call key s h)
    ∙ last_call-one call calls key (spec_at key s)

-- The timer of a key is that of the last Register of the key after Start, where no Unregister
-- follows it; there is none otherwise, whatever was registered before Start.
pub history-spec_at :
    (before after : List Call) (key : CrKey)
    → spec_at key (perform_each after (start (perform_each before new_scheduler)))
      ≡ last_call key after none
unfolding start lookup
history-spec_at before after key =
    ap (λ (s : Scheduler). spec_at key (perform_each after (start s)))
      (perform_each-new_scheduler before)
    ∙ perform_each-spec_at after key (start new_scheduler) refl
