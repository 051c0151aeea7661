-- ===== src/Receiver/Served.antt =====
-- The token index of internal/heartbeat/receiver.go: when a heartbeat's token resolves to it.
use synthetics_operator.Shared.{
  none_ne, refl, sym, inl, inr, true, Option, none, some, List, [], arith, Bool-cases, Bytes,
  bytes_eq, beq_refl, beq_ne, All, ◌≡◌, ◌∙◌, ◌≢◌, ◌↔◌, ◌∷◌, ◌==◌, string_eq, nat_eq,
}
use synthetics_operator.Shared.Dict.{lookup, lookup-insert, lookup-erase, lookup-erase_self}
use synthetics_operator.Results.{kind_heartbeat, NamespacedName, name_eq, SpecUpdate}
use synthetics_operator.Receiver.{
  Receiver, cold, live_token, drop_previous, install, on_spec, lookup_token,
}
use synthetics_operator.Receiver.Index.{
  subject, run, current, on_spec-tokens, run-tokens, lookup_token-current,
}

-- Of the Heartbeats' specs, only this heartbeat's carry the token.
abbrev pub IsExclusive : Bytes → NamespacedName → SpecUpdate → Type 0
IsExclusive token name msg =
    (msg.kind == kind_heartbeat) ≡ true → live_token msg ≡ some token → name ≡ subject msg

-- No other heartbeat holds the token.
abbrev HasNoRival : Bytes → NamespacedName → Receiver → Type 0
HasNoRival token name r =
    (other : NamespacedName) → name ≢ other → lookup other r.tokens ≢ some token

-- Where the heartbeat holds the token, the token resolves to it.
abbrev IsServed : Bytes → NamespacedName → Receiver → Type 0
IsServed token name r = lookup name r.tokens ≡ some token → lookup token r.identities ≡ some name

on_spec-HasNoRival :
    (token : Bytes) (name : NamespacedName) (msg : SpecUpdate) (r : Receiver)
    → IsExclusive token name msg
    → HasNoRival token name r
    → HasNoRival token name (on_spec msg r)
on_spec-HasNoRival token name msg r only alone other differs held = ground (
  arith,
  on_spec-tokens other msg r,
  only,
  alone other differs,
  name_eq.beq_iff (subject msg) other,
  held,
)

drop_previous-IsServed :
    (token : Bytes) (name about : NamespacedName) (held : Option Bytes) (r : Receiver)
    → lookup about r.tokens ≡ held
    → HasNoRival token name r
    → IsServed token name r
    → IsServed token name (drop_previous about held r)
drop_previous-IsServed token name about none r h alone served = served
drop_previous-IsServed token name about (some previous) r h alone served = ground (
  arith,
  lookup-erase about name r.tokens,
  lookup-erase previous token r.identities,
  bytes_eq.beq_iff previous token,
  name_eq.beq_iff about name,
  alone about,
  served,
)

install-IsServed :
    (token : Bytes) (name about : NamespacedName) (live : Option Bytes) (r : Receiver)
    → (live ≡ some token → name ≡ about)
    → IsServed token name r
    → IsServed token name (install about live r)
install-IsServed token name about none r only served = served
install-IsServed token name about (some new) r only served = ground (
  arith,
  lookup-insert about name new r.tokens,
  lookup-insert new token about r.identities,
  bytes_eq.beq_iff new token,
  name_eq.beq_iff about name,
  only,
  served,
)

on_spec-IsServed :
    (token : Bytes) (name : NamespacedName) (msg : SpecUpdate) (r : Receiver)
    → IsExclusive token name msg
    → HasNoRival token name r
    → IsServed token name r
    → IsServed token name (on_spec msg r)
unfolding on_spec
on_spec-IsServed token name msg r only alone served =
    elim (Bool-cases (msg.kind == kind_heartbeat)) [
      | inr other ↦ rw other served
      | inl beat ↦
          let warm : Receiver = record r { warm = true } in
          rw beat (
            install-IsServed token name (subject msg) (live_token msg) _ (only beat) (
              drop_previous-IsServed token name (subject msg) (lookup (subject msg) r.tokens) warm
                refl alone served))
    ]

run-IsServed :
    (token : Bytes) (name : NamespacedName) (msgs : List SpecUpdate) (r : Receiver)
    → All (IsExclusive token name) msgs
    → HasNoRival token name r
    → IsServed token name r
    → IsServed token name (run msgs r)
unfolding run
run-IsServed token name [] r only alone served = served
run-IsServed token name (msg ∷ msgs) r (this, rest) alone served =
    run-IsServed token name msgs (on_spec msg r) rest
      (on_spec-HasNoRival token name msg r this alone)
      (on_spec-IsServed token name msg r this alone served)

-- After any stream of specs from a cold start in which no other heartbeat's spec carries a token,
-- the token resolves to its heartbeat exactly while the heartbeat's latest spec carries it.
pub lookup_token_iff :
    (token : Bytes) (name : NamespacedName) (msgs : List SpecUpdate)
    → All (IsExclusive token name) msgs
    → (lookup_token (run msgs cold) token ≡ some name) ↔ (current name msgs none ≡ some token)
unfolding lookup_token lookup
lookup_token_iff token name msgs only = (
  lookup_token-current msgs token name,
  λ held.
      run-IsServed token name msgs cold only (λ other differs found. none_ne found)
        (λ found. absurd (none_ne found)) (run-tokens name msgs cold ∙ held),
)

-- A spec of a live heartbeat, with a token.
abbrev IsLive : Bytes → SpecUpdate → Type 0
IsLive token msg = ((msg.kind == kind_heartbeat) ≡ true) × (live_token msg ≡ some token)

abbrev IsTombstone : SpecUpdate → Type 0
IsTombstone msg = ((msg.kind == kind_heartbeat) ≡ true) × (msg.deleted ≡ true)

on_spec-evicts :
    (token : Bytes) (gone : SpecUpdate) (r : Receiver)
    → IsTombstone gone
    → lookup (subject gone) r.tokens ≡ some token
    → lookup_token (on_spec gone r) token ≡ none
unfolding on_spec lookup_token
on_spec-evicts token gone r (beat, dead) held =
    rw (beat, dead, held) (lookup-erase_self token r.identities)

-- Where two heartbeats carry the same token and the first is deleted, the token resolves to
-- nothing, although the second still holds it.
pub lookup_token-shared :
    (token : Bytes) (a b gone : SpecUpdate) (r : Receiver)
    → IsLive token a
    → IsLive token b
    → IsTombstone gone
    → subject gone ≡ subject a
    → subject b ≢ subject a
    → (lookup_token (run (a ∷ b ∷ gone ∷ []) r) token ≡ none)
      × (lookup (subject b) (run (a ∷ b ∷ gone ∷ []) r).tokens ≡ some token)
unfolding run
lookup_token-shared token a b gone r (beat_a, live_a) (beat_b, live_b) dead same differs = (
  on_spec-evicts token gone (on_spec b (on_spec a r)) dead (
      rw same (
        on_spec-tokens (subject a) b (on_spec a r)
        ∙ rw (beq_ne (subject b) (subject a) differs, beat_b)
            (on_spec-tokens (subject a) a r ∙ rw (beat_a, beq_refl (subject a)) live_a))),
  on_spec-tokens (subject b) gone (on_spec b (on_spec a r))
      ∙ rw (beq_ne (subject gone) (subject b) (λ e. differs (sym e ∙ same)), dead.0)
          (on_spec-tokens (subject b) b (on_spec a r) ∙ rw (beat_b, beq_refl (subject b)) live_b),
)
