-- ===== src/Scheduler/Delay.antt =====
-- The first job of a probe comes within an interval, at the probe's own offset.
use synthetics_operator.Shared.{
  ℕ, suc, refl, inl, inr, arith, leb, Bool-cases, Bytes, codes, pos, ◌+◌, ◌-◌, ◌*◌, ◌/◌, ◌%◌, ◌^◌,
  ◌≤◌, ◌<◌, ◌≡◌, ◌++◌, ◌+ℤ◌, ◌-ℤ◌,
}
use native.Mathlib.Nat.{mod-lt, div-add-mod'}
use synthetics_operator.Scheduler.{
  probe_offset_for_kind, probe_offset_hash, wrap_delay, initial_delay,
}

wrap_delay_lands :
    (now m e q o : ℕ)
    → e < m
    → o < m
    → q * m + e ≡ now
    → (d : ℕ) × (k : ℕ) × (wrap_delay (pos m) (pos o -ℤ pos e) ≡ pos d)
      × (0 < d)
      × (d ≤ m)
      × (now + d ≡ k * m + o)
unfolding ◌-ℤ◌ ◌+ℤ◌
wrap_delay_lands now m e q o he ho s = elim (Bool-cases (leb o e)) [
  | inl late ↦
      let le : o ≤ e = ground (arith, late) in
      (o + m - e, suc q, ground arith, omega arith, omega arith, omega arith)
  | inr early ↦
      let lt : e < o = ground (arith, early) in
      (o - e, q, ground arith, omega arith, omega arith, omega arith)
]

initial_delay_lands :
    (now n o : ℕ)
    → o < suc n
    → (d : ℕ) × (k : ℕ) × (initial_delay now (pos (suc n)) (pos o) ≡ pos d)
      × (0 < d)
      × (d ≤ suc n)
      × (now + d ≡ k * suc n + o)
unfolding initial_delay
initial_delay_lands now n o h =
    wrap_delay_lands now (suc n) (now % suc n) (now / suc n) o (mod-lt now (omega arith)) h
      (div-add-mod' now (suc n))

module _ (hash : Bytes → ℕ) where
  -- Where the interval is positive, the first job of a probe comes after now, within one interval, at
  -- a multiple of the interval plus the probe's own offset, which does not depend on the time.
  pub initial_delay-probe_offset_for_kind :
      (kind namespace name : Bytes) (n : ℕ)
      → (o : ℕ) × (probe_offset_for_kind hash kind namespace name (pos (suc n)) ≡ pos o)
        × (o < suc n)
        × ((now : ℕ)
            → (d : ℕ) × (k : ℕ) × (initial_delay now
                  (pos (suc n))
                  (probe_offset_for_kind hash kind namespace name (pos (suc n)))
                ≡ pos d)
              × (0 < d)
              × (d ≤ suc n)
              × (now + d ≡ k * suc n + o))
  unfolding probe_offset_hash
  initial_delay-probe_offset_for_kind kind namespace name n =
      (sum % suc n, refl, below, λ now. initial_delay_lands now n (sum % suc n) below)
    where
      sum : ℕ
      sum = hash (kind ++ codes "/" ++ namespace ++ codes "/" ++ name) % (2 ^ 63)

      below : sum % suc n < suc n
      below = mod-lt sum (omega arith)
