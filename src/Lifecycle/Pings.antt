-- ===== src/Lifecycle/Pings.antt =====
-- What a run of pings leaves in the state, in whatever order they arrive.
use synthetics_operator.Shared.{
  refl, inl, inr, Bool, true, false, List, [], arith, Bool-cases, All, In, ℤ, ≤ℤ_total, ◌≡◌, ◌∙◌,
  ◌⊎◌, ◌∷◌,
}
use synthetics_operator.Float.{Float64, FloatLaws}
use synthetics_operator.Lifecycle.{State, record_ping}

-- A ping as the store hands it on: outcome, exit code, and Unix second of receipt.
pub record Ping : Type 0 where
  pub failed : Bool
  pub exit_code : ℤ
  pub received : ℤ

module _ (F : Float64) where
  open F use {of_int, le}

  unfoldable pub record_pings : State F → List Ping → State F
  record_pings s [] = s
  record_pings s (p ∷ ps) =
      record_pings (record_ping F s p.failed p.exit_code (of_int p.received)) ps

  -- The state shows the outcome of ping `p`.
  abbrev Shows : State F → Ping → Type 0
  Shows s p =
      (s.last_ping_unix ≡ of_int p.received)
      × (s.reported_failure ≡ p.failed)
      × (s.exit_code ≡ of_int p.exit_code)

  -- The last ping, its outcome and its exit code are untouched.
  abbrev pub SamePing : State F → State F → Type 0
  SamePing s t =
      (s.last_ping_unix ≡ t.last_ping_unix)
      × (s.reported_failure ≡ t.reported_failure)
      × (s.exit_code ≡ t.exit_code)

  module _ (L : FloatLaws F) where
    open L use {le-of_int, le_trans}

    le-or-ge : (m n : ℤ) → le (of_int m) (of_int n) ≡ false → le (of_int n) (of_int m) ≡ true
    le-or-ge m n h = elim (≤ℤ_total m n) [ inl p ↦ cc (le-of_int m n p) | inr p ↦ le-of_int n m p ]

    record_ping-le :
        (s : State F) (t : ℤ) (p : Ping)
        → s.last_ping_unix ≡ of_int t
        → (u : ℤ) × ((record_ping F s p.failed p.exit_code (of_int p.received)).last_ping_unix
            ≡ of_int u)
          × (le (of_int t) (of_int u) ≡ true)
          × (le (of_int p.received) (of_int u) ≡ true)
    unfolding record_ping
    record_ping-le s t p e = elim (Bool-cases (le (of_int t) (of_int p.received))) [
      | inl newer ↦ (p.received, ground arith, newer, le-of_int p.received p.received (omega arith))
      | inr older ↦ (t, ground arith, le-of_int t t (omega arith), le-or-ge t p.received older)
    ]

    -- The last ping is at least as late as the first state's and as every ping received.
    pub record_pings-le :
        (s : State F) (t : ℤ) (ps : List Ping)
        → s.last_ping_unix ≡ of_int t
        → (u : ℤ) × ((record_pings s ps).last_ping_unix ≡ of_int u)
          × (le (of_int t) (of_int u) ≡ true)
          × All (λ p. le (of_int p.received) (of_int u) ≡ true) ps
    unfolding record_pings
    record_pings-le s t [] e = (t, e, le-of_int t t (omega arith), tt)
    record_pings-le s t (p ∷ ps) e =
        let (v, ev, tv, pv) = record_ping-le s t p e in
        let (u, eu, vu, rest) =
          record_pings-le (record_ping F s p.failed p.exit_code (of_int p.received)) v ps ev in
        (u, eu, le_trans _ _ _ tv vu, (le_trans _ _ _ pv vu, rest))

  Shows-SamePing : (s t : State F) (p : Ping) → SamePing s t → Shows t p → Shows s p
  Shows-SamePing s t p h k = (h.0 ∙ k.0, h.1 ∙ k.1, h.2 ∙ k.2)

  record_ping-Shows :
      (s : State F) (p : Ping)
      → SamePing (record_ping F s p.failed p.exit_code (of_int p.received)) s
        ⊎ Shows (record_ping F s p.failed p.exit_code (of_int p.received)) p
  unfolding record_ping
  record_ping-Shows s p = elim (Bool-cases (le s.last_ping_unix (of_int p.received))) [
    | inl newer ↦ inr (ground arith)
    | inr older ↦ inl (ground arith)
  ]

  SamePing-trans : (s t u : State F) → SamePing s t → SamePing t u → SamePing s u
  SamePing-trans s t u h k = (h.0 ∙ k.0, h.1 ∙ k.1, h.2 ∙ k.2)

  -- What the state shows is one received ping, whole, or what it showed before.
  pub record_pings-Shows :
      (s : State F) (ps : List Ping)
      → SamePing (record_pings s ps) s ⊎ ((p : Ping) × In p ps × Shows (record_pings s ps) p)
  unfolding record_pings
  record_pings-Shows s [] = inl (refl, refl, refl)
  record_pings-Shows s (p ∷ ps) =
      let t = record_ping F s p.failed p.exit_code (of_int p.received) in
      let first = record_ping-Shows s p in
      elim (record_pings-Shows t ps) [
        | inr (q, i, sh) ↦ inr (q, inr i, sh)
        | inl same ↦ elim first [
          | inl e ↦ inl (SamePing-trans (record_pings t ps) t s same e)
          | inr sh ↦ inr (p, inl refl, Shows-SamePing (record_pings t ps) t p same sh)
        ]
      ]
