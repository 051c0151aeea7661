-- ===== src/Scheduler/Timers.antt =====
-- Every key has at most one running timer, and every running timer is the timer of a key.
use synthetics_operator.Shared.{
  ℕ, refl, sym, ap, inl, inr, Bool, true, false, not, Option, none, some, List, [], arith,
  Bool-cases, nat_eq, ◌<◌, ◌≡◌, ◌∙◌, ◌≢◌, ◌⊎◌, ◌&&◌, ◌∷◌, string_eq, bytes_eq, if◌then◌else◌,
}
use synthetics_operator.Shared.Dict.{
  Dict, lookup, erase, lookup-insert, lookup-erase, lookup-insert_self, lookup-insert_ne,
  lookup-erase_self, lookup-erase_ne,
}
use mathlib.Core.Path.{subst}
use synthetics_operator.Shared.Graph.{member}
use synthetics_operator.Results.{SpecUpdate}
use synthetics_operator.Metrics.{CrKey, key_eq}
use synthetics_operator.Scheduler.{
  launched, ScheduledProbe, Scheduler, new_scheduler, drop_found, launch, Call, register_call,
  unregister_call, perform, perform_each, key_of, interval_of, register, unregister, start,
  close_all, finish,
}

-- A loop runs from its start until its channel is closed.
abbrev pub is_running : ℕ → Scheduler → Bool
is_running i s = member i s.loops && not (member i s.closed)

pub record IsExact (s : Scheduler) : Type 0 where
  -- Channels are used in the order in which they are made.
  pub loops_made : (i : ℕ) → member i s.loops ≡ true → i < s.made
  pub closed_made : (i : ℕ) → member i s.closed ≡ true → i < s.made
  -- A key's timer runs, and is no other key's.
  pub runs :
      (key : CrKey) (p : ScheduledProbe) → lookup key s.probes ≡ some p → is_running p.stop s ≡ true
  pub apart :
      (key other : CrKey) (p q : ScheduledProbe)
      → lookup key s.probes ≡ some p
      → lookup other s.probes ≡ some q
      → p.stop ≡ q.stop
      → key ≡ other
  -- A running timer is a key's.
  pub timed :
      (i : ℕ)
      → is_running i s ≡ true
      → (key : CrKey) × (p : ScheduledProbe) × (lookup key s.probes ≡ some p) × (p.stop ≡ i)

drop_found-IsExact :
    (key : CrKey) (found : Option ScheduledProbe) (s : Scheduler)
    → lookup key s.probes ≡ found
    → IsExact s
    → IsExact (drop_found key found s)
unfolding member
drop_found-IsExact key none s e x = x
drop_found-IsExact key (some p) s e x = record {
  loops_made = x.loops_made;
  closed_made = λ i h. closed_made i h;
  runs = λ j q h.
      still_running q.stop (x.runs j q (kept j q h))
        (λ same. gone j q h (x.apart j key q p (kept j q h) e same));
  apart = λ j l q r hj hl. x.apart j l q r (kept j q hj) (kept l r hl);
  timed = λ i h. of_key i h (x.timed i (was_running i h));
}
  where
    kept :
        (j : CrKey) (q : ScheduledProbe)
        → lookup j (erase key s.probes) ≡ some q
        → lookup j s.probes ≡ some q
    kept j q h = ground (arith, h, lookup-erase key j s.probes)

    gone : (j : CrKey) (q : ScheduledProbe) → lookup j (erase key s.probes) ≡ some q → j ≢ key
    gone j q h same = ground (arith, h, lookup-erase key j s.probes, same, key_eq.beq_iff key j)

    closed_made : (i : ℕ) → member i (p.stop ∷ s.closed) ≡ true → i < s.made
    closed_made i h =
        ground
          (arith, h, x.closed_made i, x.loops_made p.stop, x.runs key p e, nat_eq.beq_iff p.stop i)

    still_running :
        (i : ℕ)
        → is_running i s ≡ true
        → i ≢ p.stop
        → is_running i (drop_found key (some p) s) ≡ true
    still_running i h ne = ground (arith, h, ne, nat_eq.beq_iff p.stop i)

    was_running : (i : ℕ) → is_running i (drop_found key (some p) s) ≡ true → is_running i s ≡ true
    was_running i h = ground (arith, h)

    not_this : (i : ℕ) → is_running i (drop_found key (some p) s) ≡ true → p.stop ≢ i
    not_this i h same = ground (arith, h, same, nat_eq.beq_iff p.stop i)

    the_stop :
        (j : CrKey) (q : ScheduledProbe) → key ≡ j → lookup j s.probes ≡ some q → p.stop ≡ q.stop
    the_stop j q k found =
        ap (λ (r : Option ScheduledProbe). elim r [ none ↦ p.stop | some o ↦ o.stop ])
          (sym e ∙ ap (λ (l : CrKey). lookup l s.probes) k ∙ found)

    of_key :
        (i : ℕ)
        → is_running i (drop_found key (some p) s) ≡ true
        → (j : CrKey) × (q : ScheduledProbe) × (lookup j s.probes ≡ some q) × (q.stop ≡ i)
        → (j : CrKey) × (q : ScheduledProbe) × (lookup j (erase key s.probes) ≡ some q)
          × (q.stop ≡ i)
    of_key i h (j, q, found, same) = (
      j,
      q,
      lookup-erase_ne key j s.probes (λ (k : key ≡ j). not_this i h (the_stop j q k found ∙ same))
          ∙ found,
      same,
    )

drop_found-lookup :
    (key : CrKey) (found : Option ScheduledProbe) (s : Scheduler)
    → lookup key s.probes ≡ found
    → lookup key (drop_found key found s).probes ≡ none
drop_found-lookup key none s e = e
drop_found-lookup key (some p) s e = lookup-erase_self key s.probes

launched-IsExact :
    (key : CrKey) (spec : SpecUpdate) (s : Scheduler)
    → lookup key s.probes ≡ none
    → IsExact s
    → IsExact (launched key spec s)
unfolding member
launched-IsExact key spec s e x = record {
  loops_made = λ i h. ground (arith, h, x.loops_made i, nat_eq.beq_iff s.made i);
  closed_made = λ i h. ground (arith, h, x.closed_made i);
  runs = λ j q h.
      ground (arith, fresh, entry j q h, older j q, nat_eq.beq_iff s.made q.stop, x.runs j q);
  apart = λ j l q r hj hl same.
      ground (arith, same, entry j q hj, entry l r hl, older j q, older l r, x.apart j l q r);
  timed = λ i h. timed i h (Bool-cases (nat_eq.beq s.made i));
}
  where
    new : ScheduledProbe
    new = record { spec = spec; interval = interval_of spec; stop = s.made }

    fresh : member s.made s.closed ≡ false
    fresh = ground (arith, x.closed_made s.made)

    older : (j : CrKey) (q : ScheduledProbe) → lookup j s.probes ≡ some q → q.stop < s.made
    older j q h = ground (arith, x.runs j q h, x.loops_made q.stop)

    entry :
        (j : CrKey) (q : ScheduledProbe)
        → lookup j (launched key spec s).probes ≡ some q
        → ((key ≡ j) × (q.stop ≡ s.made)) ⊎ (lookup j s.probes ≡ some q)
    entry j q h = ground (arith, h, lookup-insert key j new s.probes, key_eq.beq_iff key j)

    absent : (j : CrKey) (q : ScheduledProbe) → key ≡ j → lookup j s.probes ≡ some q → ⊥
    absent j q k found = ground (arith, sym e ∙ ap (λ (l : CrKey). lookup l s.probes) k ∙ found)

    timed :
        (i : ℕ)
        → is_running i (launched key spec s) ≡ true
        → (nat_eq.beq s.made i ≡ true) ⊎ (nat_eq.beq s.made i ≡ false)
        → (j : CrKey) × (q : ScheduledProbe) × (lookup j (launched key spec s).probes ≡ some q)
          × (q.stop ≡ i)
    timed i h (inl b) =
        (key, new, lookup-insert_self key new s.probes, (nat_eq.beq_iff s.made i).0 b)
    timed i h (inr b) =
        let was = x.timed i (ground (arith, h, b)) in
        (
          was.0,
          was.1,
          lookup-insert_ne key was.0 new s.probes (λ (k : key ≡ was.0). absent was.0 was.1 k was.2)
              ∙ was.2,
          was.3,
        )

launch-IsExact :
    (key : CrKey) (spec : SpecUpdate) (s : Scheduler)
    → lookup key s.probes ≡ none
    → IsExact s
    → IsExact (launch key spec s)
launch-IsExact key spec s e x = of_cases s.started (launched-IsExact key spec s e x)
  where
    of_cases :
        (b : Bool) → IsExact (launched key spec s) → IsExact (if b then launched key spec s else s)
    of_cases true y = y
    of_cases false y = x

register-IsExact : (spec : SpecUpdate) (s : Scheduler) → IsExact s → IsExact (register spec s)
unfolding register
register-IsExact spec s x =
    launch-IsExact key spec (drop_found key (lookup key s.probes) s)
      (drop_found-lookup key (lookup key s.probes) s refl)
      (drop_found-IsExact key (lookup key s.probes) s refl x)
  where
    key : CrKey
    key = key_of spec

unregister-IsExact : (key : CrKey) (s : Scheduler) → IsExact s → IsExact (unregister key s)
unfolding unregister
unregister-IsExact key s x = drop_found-IsExact key (lookup key s.probes) s refl x

start-IsExact : (s : Scheduler) → IsExact s → IsExact (start s)
unfolding start
start-IsExact s x = record {
  loops_made = x.loops_made;
  closed_made = x.closed_made;
  runs = x.runs;
  apart = x.apart;
  timed = x.timed;
}

new_scheduler-IsExact : IsExact new_scheduler
unfolding member lookup
new_scheduler-IsExact = record {
  loops_made = λ i h. ground arith;
  closed_made = λ i h. ground arith;
  runs = λ key p h. ground arith;
  apart = λ key other p q h. ground arith;
  timed = λ i h. ground arith;
}

perform-IsExact : (call : Call) (s : Scheduler) → IsExact s → IsExact (perform call s)
perform-IsExact (register_call spec) s x = register-IsExact spec s x
perform-IsExact (unregister_call kind name) s x =
    unregister-IsExact (record { kind = kind; name = name }) s x

perform_each-IsExact :
    (calls : List Call) (s : Scheduler) → IsExact s → IsExact (perform_each calls s)
unfolding perform_each
perform_each-IsExact [] s x = x
perform_each-IsExact (call ∷ calls) s x =
    perform_each-IsExact calls (perform call s) (perform-IsExact call s x)

-- After any calls of Register and Unregister, before and after Start, every key in the table has a
-- running timer of its own, and every timer that runs is that of a key in the table.
pub history-IsExact :
    (before after : List Call)
    → IsExact (perform_each after (start (perform_each before new_scheduler)))
history-IsExact before after =
    perform_each-IsExact after (start (perform_each before new_scheduler)) (
      start-IsExact (perform_each before new_scheduler)
        (perform_each-IsExact before new_scheduler new_scheduler-IsExact))

close_all-kept :
    (probes : Dict CrKey ScheduledProbe) (closed : List ℕ) (i : ℕ)
    → member i closed ≡ true
    → member i (close_all probes closed) ≡ true
unfolding close_all member
close_all-kept [] closed i h = h
close_all-kept ((key, scheduled) ∷ rest) closed i h = ground (arith, close_all-kept rest closed i h)

close_all-lookup :
    (probes : Dict CrKey ScheduledProbe) (closed : List ℕ) (key : CrKey) (p : ScheduledProbe)
    → lookup key probes ≡ some p
    → member p.stop (close_all probes closed) ≡ true
unfolding close_all member lookup
close_all-lookup ((j, q) ∷ rest) closed key p h =
    ground (arith, h, close_all-lookup rest closed key p, nat_eq.beq_iff q.stop p.stop)
close_all-lookup [] closed key p h = ground (arith, h)

close_all-running :
    (s : Scheduler) (i : ℕ)
    → IsExact s
    → is_running i s ≡ true
    → member i (close_all s.probes s.closed) ≡ true
close_all-running s i x h =
    let was = x.timed i h in
    subst (λ (j : ℕ). member j (close_all s.probes s.closed) ≡ true) was.3
      (close_all-lookup s.probes s.closed was.0 was.1 was.2)

finish-IsExact : (s : Scheduler) (i : ℕ) → IsExact s → is_running i (finish s) ≡ false
unfolding finish
finish-IsExact s i x = ground (arith, close_all-running s i x, close_all-kept s.probes s.closed i)

-- When the scheduler stops, after any calls of Register and Unregister, no timer is left running.
pub finish_stops :
    (before after : List Call) (i : ℕ)
    → is_running i (finish (perform_each after (start (perform_each before new_scheduler)))) ≡ false
finish_stops before after i =
    finish-IsExact (perform_each after (start (perform_each before new_scheduler))) i
      (history-IsExact before after)
