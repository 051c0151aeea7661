-- ===== src/Receiver/Index.antt =====
-- The token index of internal/heartbeat/receiver.go: which heartbeat a token resolves to.
use mathlib.Core.Path.{subst}
use synthetics_operator.Shared.{
  refl, sym, ap, inl, inr, Bool, true, Option, none, some, List, [], arith, Bool-cases,
  Option-cases, Bytes, bytes_eq, beq_refl, ◌≡◌, ◌∙◌, ◌&&◌, ◌∷◌, ◌==◌, string_eq, nat_eq,
  if◌then◌else◌,
}
use synthetics_operator.Shared.Dict.{Dict, lookup, lookup-insert, lookup-erase}
use synthetics_operator.Results.{kind_heartbeat, NamespacedName, name_eq, SpecUpdate}
use synthetics_operator.Receiver.{
  Receiver, cold, live_token, drop_previous, install, on_spec, lookup_token,
}

abbrev pub subject : SpecUpdate → NamespacedName
subject msg = record { namespace = msg.namespace; name = msg.name }

-- The receiver after a stream of specs, the first of the list first.
unfoldable pub run : List SpecUpdate → Receiver → Receiver
run [] r = r
run (msg ∷ msgs) r = run msgs (on_spec msg r)

-- The message is a Heartbeat's, and about this one.
abbrev pub is_about : NamespacedName → SpecUpdate → Bool
is_about name msg = msg.kind == kind_heartbeat && subject msg == name

-- The token of the last spec about a heartbeat; where there is none, the one held before.
unfoldable pub current : NamespacedName → List SpecUpdate → Option Bytes → Option Bytes
current name [] held = held
current name (msg ∷ msgs) held =
    current name msgs (if is_about name msg then live_token msg else held)

-- An indexed token is the one that its heartbeat holds.
abbrev pub IsSound : Receiver → Type 0
IsSound r =
    (token : Bytes) (name : NamespacedName)
    → lookup token r.identities ≡ some name
    → lookup name r.tokens ≡ some token

-- A name without a token may be skipped.
lookup-absent :
    (name other : NamespacedName) (tokens : Dict NamespacedName Bytes)
    → lookup name tokens ≡ none
    → lookup other tokens ≡ (if name == other then none else lookup other tokens)
lookup-absent name other tokens h = elim (Bool-cases (name == other)) [
  | inl same ↦ rw same (subst (λ n. lookup n tokens ≡ none) ((name_eq.beq_iff name other).0 same) h)
  | inr differ ↦ rw differ
]

drop_previous-tokens :
    (name other : NamespacedName) (held : Option Bytes) (r : Receiver)
    → lookup name r.tokens ≡ held
    → lookup other (drop_previous name held r).tokens
      ≡ (if name == other then none else lookup other r.tokens)
drop_previous-tokens name other none r h = lookup-absent name other r.tokens h
drop_previous-tokens name other (some held) r h = lookup-erase name other r.tokens

install-tokens :
    (name other : NamespacedName) (token : Option Bytes) (r : Receiver)
    → lookup name r.tokens ≡ none
    → lookup other (install name token r).tokens
      ≡ (if name == other then token else lookup other r.tokens)
install-tokens name other none r h = lookup-absent name other r.tokens h
install-tokens name other (some token) r h = lookup-insert name other token r.tokens

-- The entry of one heartbeat after a spec: its own spec decides, another one leaves it.
pub on_spec-tokens :
    (name : NamespacedName) (msg : SpecUpdate) (r : Receiver)
    → lookup name (on_spec msg r).tokens
      ≡ (if is_about name msg then live_token msg else lookup name r.tokens)
unfolding on_spec
on_spec-tokens name msg r = elim (Bool-cases (msg.kind == kind_heartbeat)) [
  | inr other ↦ rw other
  | inl beat ↦
      let dropped = drop_previous-tokens (subject msg) in
      let held = lookup (subject msg) r.tokens in
      rw beat (
        install-tokens (subject msg) name (live_token msg) _
          (dropped (subject msg) held (record r { warm = true }) refl ∙ rw (beq_refl (subject msg)))
        ∙ rw (dropped name held (record r { warm = true }) refl) (ground arith))
]

pub run-tokens :
    (name : NamespacedName) (msgs : List SpecUpdate) (r : Receiver)
    → lookup name (run msgs r).tokens ≡ current name msgs (lookup name r.tokens)
unfolding run current
run-tokens name [] r = refl
run-tokens name (msg ∷ msgs) r =
    run-tokens name msgs (on_spec msg r) ∙ ap (current name msgs) (on_spec-tokens name msg r)

drop_previous-IsSound :
    (name : NamespacedName) (r : Receiver)
    → IsSound r
    → IsSound (drop_previous name (lookup name r.tokens) r)
drop_previous-IsSound name r sound = elim (Option-cases (lookup name r.tokens)) [
  | inl absent ↦ rw absent sound
  | inr (previous, held) ↦ rw held λ token other found. ground (
    arith,
    lookup-erase previous token r.identities,
    lookup-erase name other r.tokens,
    sound token other,
    bytes_eq.beq_iff previous token,
    name_eq.beq_iff name other,
  )
]

install-IsSound :
    (name : NamespacedName) (token : Option Bytes) (r : Receiver)
    → IsSound r
    → lookup name r.tokens ≡ none
    → IsSound (install name token r)
install-IsSound name none r sound absent other owner found = sound other owner found
install-IsSound name (some token) r sound absent other owner found = ground (
  arith,
  lookup-insert token other name r.identities,
  lookup-insert name owner token r.tokens,
  sound other owner,
  bytes_eq.beq_iff token other,
  name_eq.beq_iff name owner,
)

pub on_spec-IsSound : (msg : SpecUpdate) (r : Receiver) → IsSound r → IsSound (on_spec msg r)
unfolding on_spec
on_spec-IsSound msg r sound = elim (Bool-cases (msg.kind == kind_heartbeat)) [
  | inr other ↦ rw other sound
  | inl beat ↦
      let warm : Receiver = record r { warm = true } in
      rw beat (
        install-IsSound (subject msg) (live_token msg) _
          (drop_previous-IsSound (subject msg) warm sound)
          (drop_previous-tokens (subject msg) (subject msg) (lookup (subject msg) r.tokens) warm
              refl
            ∙ rw (beq_refl (subject msg))))
]

pub run-IsSound : (msgs : List SpecUpdate) (r : Receiver) → IsSound r → IsSound (run msgs r)
unfolding run
run-IsSound [] r sound = sound
run-IsSound (msg ∷ msgs) r sound = run-IsSound msgs (on_spec msg r) (on_spec-IsSound msg r sound)

-- A token that resolves is the one in the latest spec of its heartbeat.
pub lookup_token-current :
    (msgs : List SpecUpdate) (token : Bytes) (name : NamespacedName)
    → lookup_token (run msgs cold) token ≡ some name
    → current name msgs none ≡ some token
unfolding lookup_token lookup
lookup_token-current msgs token name found =
    sym (run-tokens name msgs cold)
    ∙ run-IsSound msgs cold (λ t n found. ground arith) token name found
