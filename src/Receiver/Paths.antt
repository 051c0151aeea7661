-- ===== src/Receiver/Paths.antt =====
-- The ping URLs of internal/heartbeat/receiver.go: what parsePath reads and what it refuses.
use synthetics_operator.Shared.{
  some_inj, none_ne, ℕ, refl, sym, ap, true, false, Option, none, some, List, [], arith, Bytes,
  beq_refl, beq_ne, All, pos, ltb_ℤ, ◌≡◌, ◌∙◌, ◌≢◌, ◌∷◌, ◌++◌, ◌==◌, string_eq, bytes_eq, nat_eq,
  if◌then◌else◌,
}
use mathlib.Core.Path.{subst}
use mathlib.Core.List.{append_assoc, reverse, reverse-append, reverse-cons, reverse-reverse}
use synthetics_operator.Shared.Strings.{trim, trim_left, split}
use synthetics_operator.Receiver.{
  Outcome, run_ok, all_unreserved, acceptable_token, parse_suffix, parse_segments, parse_path,
  with_token,
}

-- No byte is the separator.
abbrev pub Lacks : ℕ → Bytes → Type 0
Lacks sep = All (λ c. (c == sep) ≡ false)

Lacks-append : (sep : ℕ) (s t : Bytes) → Lacks sep s → Lacks sep t → Lacks sep (s ++ t)
Lacks-append sep [] t _ h = h
Lacks-append sep (c ∷ s) t (this, rest) h = (this, Lacks-append sep s t rest h)

Lacks-reverse : (sep : ℕ) (s : Bytes) → Lacks sep s → Lacks sep (reverse s)
Lacks-reverse sep [] h = h
Lacks-reverse sep (c ∷ s) (this, rest) =
    rw (reverse-cons c s)
      (Lacks-append sep (reverse s) (c ∷ []) (Lacks-reverse sep s rest) (this, tt))

trim_left-Lacks : (sep : ℕ) (s : Bytes) → Lacks sep s → trim_left sep s ≡ s
unfolding trim_left
trim_left-Lacks sep [] h = refl
trim_left-Lacks sep (c ∷ s) (this, rest) = rw this refl

-- A text that starts with another byte keeps its start.
trim_left-append : (sep : ℕ) (s t : Bytes) → s ≢ [] → Lacks sep s → trim_left sep (s ++ t) ≡ s ++ t
unfolding trim_left
trim_left-append sep [] t h _ = absurd (h refl)
trim_left-append sep (c ∷ s) t h (this, rest) = rw this refl

split-Lacks : (sep : ℕ) (s : Bytes) → Lacks sep s → split sep s ≡ s ∷ []
unfolding split
split-Lacks sep [] h = refl
split-Lacks sep (c ∷ s) (this, rest) = rw (this, split-Lacks sep s rest) refl

split-append : (sep : ℕ) (s t : Bytes) → Lacks sep s → split sep (s ++ sep ∷ t) ≡ s ∷ split sep t
unfolding split
split-append sep [] t h = rw (beq_refl sep) refl
split-append sep (c ∷ s) t (this, rest) = rw (this, split-append sep s t rest) refl

reverse-nonempty : (s : Bytes) → s ≢ [] → reverse s ≢ []
reverse-nonempty s h e = h (sym (reverse-reverse s) ∙ ap (λ (t : Bytes). reverse t) e)

-- A leading separator is trimmed; what starts and ends with other bytes is kept.
trim-leading :
    (sep : ℕ) (s : Bytes)
    → trim_left sep s ≡ s
    → trim_left sep (reverse s) ≡ reverse s
    → trim sep (sep ∷ s) ≡ s
unfolding trim trim_left
trim-leading sep s front back = rw (beq_refl sep) (rw front (rw back (reverse-reverse s)))

trim-one : (sep : ℕ) (s : Bytes) → Lacks sep s → trim sep (sep ∷ s) ≡ s
trim-one sep s h =
    trim-leading sep s (trim_left-Lacks sep s h)
      (trim_left-Lacks sep (reverse s) (Lacks-reverse sep s h))

trim-two :
    (sep : ℕ) (s t : Bytes)
    → s ≢ []
    → t ≢ []
    → Lacks sep s
    → Lacks sep t
    → trim sep (sep ∷ s ++ sep ∷ t) ≡ s ++ sep ∷ t
trim-two sep s t hs ht lacks_s lacks_t =
    trim-leading sep (s ++ sep ∷ t) (trim_left-append sep s (sep ∷ t) hs lacks_s) (
      rw
        (
          reverse-append s (sep ∷ t),
          reverse-cons sep t,
          append_assoc (reverse t) (sep ∷ []) (reverse s),
        )
        (trim_left-append sep (reverse t) (sep ∷ reverse s) (reverse-nonempty t ht)
          (Lacks-reverse sep t lacks_t)))

-- An unreserved byte is not the slash.
all_unreserved-Lacks : (s : Bytes) → all_unreserved s ≡ true → Lacks b'/' s
unfolding all_unreserved
all_unreserved-Lacks [] h = tt
all_unreserved-Lacks (c ∷ s) h = (ground (arith, h), all_unreserved-Lacks s (ground (arith, h)))

acceptable_token-Lacks : (s : Bytes) → acceptable_token s ≡ true → Lacks b'/' s
unfolding acceptable_token
acceptable_token-Lacks s h = all_unreserved-Lacks s (ground (arith, h))

acceptable_token-nonempty : (s : Bytes) → acceptable_token s ≡ true → s ≢ []
unfolding acceptable_token
acceptable_token-nonempty s h e =
    ground (arith, subst (λ (t : Bytes). acceptable_token t ≡ true) e h)

-- A path of a slash and an acceptable token is a successful run.
pub parse_path-token :
    (token : Bytes)
    → acceptable_token token ≡ true
    → parse_path (b'/' ∷ token) ≡ some (token, run_ok)
unfolding parse_path parse_segments
parse_path-token token ok =
    let lacks = acceptable_token-Lacks token ok in
    rw (trim-one b'/' token lacks) (
      rw (split-Lacks b'/' token lacks)
        (rw (beq_ne token [] (acceptable_token-nonempty token ok), ok) refl))

-- A path of a slash, an acceptable token, a slash and a suffix that is not empty and has no slash is
-- read as the token with the outcome of the suffix.
parse_path-suffix :
    (token suffix : Bytes)
    → acceptable_token token ≡ true
    → Lacks b'/' suffix
    → suffix ≢ []
    → parse_path (b'/' ∷ token ++ b'/' ∷ suffix) ≡ with_token token (parse_suffix suffix)
unfolding parse_path parse_segments
parse_path-suffix token suffix ok lacks some_suffix =
    let some_token = acceptable_token-nonempty token ok in
    let lacks_token = acceptable_token-Lacks token ok in
    rw (trim-two b'/' token suffix some_token some_suffix lacks_token lacks) (
      rw (split-append b'/' token suffix lacks_token)
        (rw (split-Lacks b'/' suffix lacks) (rw (beq_ne token [] some_token, ok) refl)))

-- An exit code from 0, which fails above 0.
abbrev IsSane : Outcome → Type 0
IsSane outcome =
    (ltb_ℤ outcome.exit_code (pos 0) ≡ false)
    × (ltb_ℤ (pos 0) outcome.exit_code ≡ true → outcome.failed ≡ true)

parse_suffix-IsSane :
    (suffix : Bytes) (outcome : Outcome) → parse_suffix suffix ≡ some outcome → IsSane outcome
unfolding parse_suffix
parse_suffix-IsSane suffix outcome h = ground (arith, h)

guards-passed :
    (t : Bytes) (o : Option (Bytes × Outcome)) (x : Bytes × Outcome)
    → (if t == [] then none else if acceptable_token t then o else none) ≡ some x
    → (acceptable_token t ≡ true) × (o ≡ some x)
guards-passed t o x h = ground (arith, h)

with_token-some :
    (t token : Bytes) (o : Option Outcome) (outcome : Outcome)
    → with_token t o ≡ some (token, outcome)
    → (t ≡ token) × (o ≡ some outcome)
with_token-some t token none outcome h = absurd (none_ne h)
with_token-some t token (some o) outcome h =
    (ap (λ p. p.0) (some_inj h), ap (λ p. some p.1) (some_inj h))

parse_segments-IsSane :
    (segments : List Bytes) (token : Bytes) (outcome : Outcome)
    → parse_segments segments ≡ some (token, outcome)
    → (acceptable_token token ≡ true) × IsSane outcome
unfolding parse_segments
parse_segments-IsSane [] token outcome h = absurd (none_ne h)
parse_segments-IsSane (t ∷ []) token outcome h =
    let (ok, is) = guards-passed t (some (t, run_ok)) (token, outcome) h in
    let same = some_inj is in
    (
      subst (λ (u : Bytes). acceptable_token u ≡ true) (ap (λ p. p.0) same) ok,
      subst IsSane (ap (λ p. p.1) same) (refl, λ bad. ground (arith, bad)),
    )
parse_segments-IsSane (t ∷ suffix ∷ []) token outcome h =
    let (ok, is) = guards-passed t (with_token t (parse_suffix suffix)) (token, outcome) h in
    let (same, parses) = with_token-some t token (parse_suffix suffix) outcome is in
    (
      subst (λ (u : Bytes). acceptable_token u ≡ true) same ok,
      parse_suffix-IsSane suffix outcome parses,
    )
parse_segments-IsSane (t ∷ suffix ∷ more ∷ rest) token outcome h =
    absurd (none_ne (guards-passed t none (token, outcome) h).1)

-- What is read is an acceptable token and an exit code that is not negative, and an exit code above
-- 0 is a failure.
parse_path-IsSane :
    (path token : Bytes) (outcome : Outcome)
    → parse_path path ≡ some (token, outcome)
    → (acceptable_token token ≡ true) × IsSane outcome
unfolding parse_path
parse_path-IsSane path token outcome h =
    parse_segments-IsSane (split b'/' (trim b'/' path)) token outcome h
