-- ===== src/Assertions.antt =====
-- api/v1alpha1/assertion_expr.go and internal/probes/assertions.go: assertions on a probe's result,
-- as the webhook admits them and as the prober evaluates them.
pub mod Verdicts
pub mod Splitting
mod Tests
use synthetics_operator.Shared.{
  ℕ, String, Bool, true, false, not, Option, none, some, List, [], Bytes, codes, ℤ, pos, negsuc,
  ◌<◌, ◌&&◌, ◌∷◌, ◌==◌, string_eq, bytes_eq, nat_eq, if◌then◌else◌,
}
use synthetics_operator.Shared.Dict.{Dict, lookup}
use synthetics_operator.Shared.Graph.{member}
use synthetics_operator.Shared.Strings.{trim_space}
use synthetics_operator.Float.{Float64}
use synthetics_operator.Results.{Assertion, AssertionResult}

-- The variables of each kind of probe.
abbrev pub http_assertion_vars : List Bytes
http_assertion_vars = codes "status_code" ∷ codes "duration_ms" ∷ codes "ssl_expiry_days" ∷ []

abbrev pub dns_assertion_vars : List Bytes
dns_assertion_vars = codes "answer_count" ∷ codes "duration_ms" ∷ []

abbrev pub tcp_assertion_vars : List Bytes
tcp_assertion_vars = codes "duration_ms" ∷ []

-- The rest of `s` after the prefix `sep`.
unfoldable pub after_prefix : Bytes → Bytes → Option Bytes
after_prefix [] s = some s
after_prefix (c ∷ sep) [] = none
after_prefix (c ∷ sep) (d ∷ s) = let rest = after_prefix sep s in if c == d then rest else none

abbrev cons_before : ℕ → Option (Bytes × Bytes) → Option (Bytes × Bytes)
cons_before c none = none
cons_before c (some (before, after)) = some (c ∷ before, after)

-- At the byte `c`: what the rest gives, unless the separator starts here.
abbrev cut_here : ℕ → Option (Bytes × Bytes) → Option Bytes → Option (Bytes × Bytes)
cut_here c rest none = cons_before c rest
cut_here c rest (some after) = some ([], after)

-- strings.Cut for a separator that is not empty.
unfoldable pub cut : Bytes → Bytes → Option (Bytes × Bytes)
cut sep [] = none
cut sep (c ∷ s) = let rest = cut sep s in cut_here c rest (after_prefix sep (c ∷ s))

-- The order in which SplitAssertionExpr tries the operators.
abbrev pub candidates : List String
candidates = "<=" ∷ ">=" ∷ "!=" ∷ "<" ∷ ">" ∷ "=" ∷ []

-- A failed evaluation counts as a failed assertion.
abbrev pub passed : Option Bool → Bool
passed none = false
passed (some b) = b

module _ (F : Float64) where
  open F use {Float, of_int, le, lt, eq, parse}

  pub data SplitExpr : Type 0 where
    no_operator : SplitExpr
    bad_value : (var : Bytes) (op : String) → SplitExpr
    parsed : (var : Bytes) (op : String) (value : Float) → SplitExpr

  abbrev pub with_value : Bytes → String → Option Float → SplitExpr
  with_value var op none = bad_value var op
  with_value var op (some value) = parsed var op value

  -- One round of the loop: `rest` is what the later candidates give.
  abbrev pub try_one : String → SplitExpr → Option (Bytes × Bytes) → SplitExpr
  try_one op rest none = rest
  try_one op rest (some (before, after)) =
      with_value (trim_space before) op (parse (trim_space after))

  unfoldable pub try_candidates : List String → Bytes → SplitExpr
  try_candidates [] expr = no_operator
  try_candidates (op ∷ ops) expr =
      let rest = try_candidates ops expr in try_one op rest (cut (codes op) expr)

  unfoldable pub split_assertion_expr : Bytes → SplitExpr
  split_assertion_expr = try_candidates candidates

  -- Whether ValidateAssertionExpr answers nil.
  abbrev pub is_known : List Bytes → SplitExpr → Bool
  is_known valid_vars no_operator = false
  is_known valid_vars (bad_value var op) = false
  is_known valid_vars (parsed var op value) = member var valid_vars

  unfoldable pub validate_assertion_expr : Bytes → List Bytes → Bool
  validate_assertion_expr expr valid_vars = is_known valid_vars (split_assertion_expr expr)

  -- The switch of evalAssertion; none at an unknown operator.
  unfoldable pub compare_by : String → Float → Float → Option Bool
  compare_by op actual value =
      if op == "="
      then some (eq actual value)
      else if op == "!="
      then some (not (eq actual value))
      else if op == "<"
      then some (lt actual value)
      else if op == "<="
      then some (le actual value)
      else if op == ">"
      then some (lt value actual)
      else if op == ">="
      then some (le value actual)
      else none

  abbrev compare_found : String → Float → Option Float → Option Bool
  compare_found op value none = none
  compare_found op value (some actual) = compare_by op actual value

  abbrev pub eval_split : Dict Bytes Float → SplitExpr → Option Bool
  eval_split ctx no_operator = none
  eval_split ctx (bad_value var op) = none
  eval_split ctx (parsed var op value) = compare_found op value (lookup var ctx)

  -- evalAssertion; none where it returns an error.
  unfoldable pub eval_assertion : Bytes → Dict Bytes Float → Option Bool
  eval_assertion expr ctx = eval_split ctx (split_assertion_expr expr)

  abbrev pub result_of : Assertion → Bool → AssertionResult F
  result_of a pass = record {
    name = a.name;
    expr = a.expr;
    result = if pass then of_int (pos 1) else of_int (pos 0);
  }

  -- The loop of evalAssertions: `ok` and `failed` so far go in, and come out with the results.
  unfoldable pub eval_loop :
      Dict Bytes Float → List Assertion → Bool → String → Bool × String × List (AssertionResult F)
  eval_loop ctx [] ok failed = (ok, failed, [])
  eval_loop ctx (a ∷ rest) ok failed =
      let pass = passed (eval_assertion a.expr ctx) in
      let (ok_after, failed_after, out) =
        eval_loop ctx rest (ok && pass) (if not pass && ok then a.name else failed) in
      (ok_after, failed_after, result_of a pass ∷ out)

  unfoldable pub eval_assertions :
      List Assertion → Dict Bytes Float → Bool × String × List (AssertionResult F)
  eval_assertions assertions ctx = eval_loop ctx assertions true ""

  abbrev outcome_from_ok : Bool → String
  outcome_from_ok ok = if ok then "ok" else "assertion_failed"

  -- The contexts of the three kinds.
  abbrev pub http_context : Float → Float → Float → Dict Bytes Float
  http_context status_code duration_ms ssl_expiry_days =
      (codes "status_code", status_code)
      ∷ (codes "duration_ms", duration_ms)
      ∷ (codes "ssl_expiry_days", ssl_expiry_days)
      ∷ []

  abbrev pub dns_context : Float → Float → Dict Bytes Float
  dns_context answer_count duration_ms =
      (codes "answer_count", answer_count) ∷ (codes "duration_ms", duration_ms) ∷ []

  abbrev pub tcp_context : Float → Dict Bytes Float
  tcp_context duration_ms = (codes "duration_ms", duration_ms) ∷ []

  unfoldable pub eval_in_context :
      Dict Bytes Float → List Assertion → String × String × List (AssertionResult F)
  eval_in_context ctx assertions =
      let (ok, failed, out) = eval_assertions assertions ctx in (outcome_from_ok ok, failed, out)

  -- evalHTTPAssertions: without a certificate the days to its expiry are -1.
  unfoldable pub eval_http_assertions :
      ℤ → ℤ → Option Float → List Assertion → String × String × List (AssertionResult F)
  eval_http_assertions status_code duration_ms expiry_days = eval_in_context (
      http_context (of_int status_code) (of_int duration_ms)
        (elim expiry_days [ none ↦ of_int (negsuc 0) | some days ↦ days ]))

  unfoldable pub eval_dns_assertions :
      ℤ → ℤ → List Assertion → String × String × List (AssertionResult F)
  eval_dns_assertions answer_count duration_ms =
      eval_in_context (dns_context (of_int answer_count) (of_int duration_ms))

  unfoldable pub eval_tcp_assertions :
      ℤ → List Assertion → String × String × List (AssertionResult F)
  eval_tcp_assertions duration_ms = eval_in_context (tcp_context (of_int duration_ms))
