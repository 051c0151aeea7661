-- ===== src/Assertions/Verdicts.antt =====
-- What the assertions of a probe say: an admitted expression always has a verdict, and the loop
-- over the assertions is a conjunction that keeps the name of the first failure.
use synthetics_operator.Shared.{
  String, refl, inl, inr, Bool, true, false, Option, none, some, List, [], arith, Bool-cases, Bytes,
  codes, bytes_beq, All, In, ◌≡◌, ◌&&◌, ◌∷◌, string_eq, bytes_eq, nat_eq, if◌then◌else◌,
}
use synthetics_operator.Shared.Dict.{Dict, lookup}
use synthetics_operator.Shared.Graph.{In-member, All-In}
use synthetics_operator.Float.{Float64}
use synthetics_operator.Results.{Assertion, AssertionResult}
use synthetics_operator.Assertions.{
  SplitExpr, no_operator, bad_value, parsed, with_value, try_one, try_candidates, candidates,
  split_assertion_expr, is_known, validate_assertion_expr, compare_by, eval_split, eval_assertion,
  passed, result_of, eval_loop, eval_assertions, cut, http_context, dns_context, tcp_context,
  http_assertion_vars, dns_assertion_vars, tcp_assertion_vars,
}

module _ (F : Float64) where
  open F use {Float, parse}

  -- The operator of a split is one of the candidates.
  abbrev IsCandidate : List String → SplitExpr F → Type 0
  IsCandidate ops no_operator = Unit
  IsCandidate ops (bad_value var op) = In op ops
  IsCandidate ops (parsed var op value) = In op ops

  -- The context has a value for each variable.
  abbrev Covers : Dict Bytes Float → List Bytes → Type 0
  Covers ctx = All (λ var. (x : Float) × (lookup var ctx ≡ some x))

  compare_by-some :
      (op : String) (a b : Float) → In op candidates → (v : Bool) × (compare_by F op a b ≡ some v)
  unfolding compare_by
  compare_by-some op a b (inl e) = rw (← e) (_, refl)
  compare_by-some op a b (inr (inl e)) = rw (← e) (_, refl)
  compare_by-some op a b (inr (inr (inl e))) = rw (← e) (_, refl)
  compare_by-some op a b (inr (inr (inr (inl e)))) = rw (← e) (_, refl)
  compare_by-some op a b (inr (inr (inr (inr (inl e))))) = rw (← e) (_, refl)
  compare_by-some op a b (inr (inr (inr (inr (inr (inl e)))))) = rw (← e) (_, refl)
  compare_by-some op a b (inr (inr (inr (inr (inr (inr i)))))) = elim i [ ]

  with_value-IsCandidate :
      (op : String) (ops : List String) (var : Bytes) (value : Option Float)
      → In op ops
      → IsCandidate ops (with_value F var op value)
  with_value-IsCandidate op ops var none i = i
  with_value-IsCandidate op ops var (some x) i = i

  IsCandidate-cons :
      (op : String) (ops : List String) (s : SplitExpr F)
      → IsCandidate ops s
      → IsCandidate (op ∷ ops) s
  IsCandidate-cons op ops no_operator h = tt
  IsCandidate-cons op ops (bad_value var o) h = inr h
  IsCandidate-cons op ops (parsed var o value) h = inr h

  try_one-IsCandidate :
      (op : String) (ops : List String) (rest : SplitExpr F) (found : Option (Bytes × Bytes))
      → IsCandidate ops rest
      → IsCandidate (op ∷ ops) (try_one F op rest found)
  try_one-IsCandidate op ops rest none h = IsCandidate-cons op ops rest h
  try_one-IsCandidate op ops rest (some (before, after)) h =
      with_value-IsCandidate op (op ∷ ops) _ _ (inl refl)

  try_candidates-IsCandidate :
      (ops : List String) (expr : Bytes) → IsCandidate ops (try_candidates F ops expr)
  unfolding try_candidates
  try_candidates-IsCandidate [] expr = tt
  try_candidates-IsCandidate (op ∷ ops) expr =
      try_one-IsCandidate op ops _ (cut (codes op) expr) (try_candidates-IsCandidate ops expr)

  eval_split-some :
      (vars : List Bytes) (ctx : Dict Bytes Float) (s : SplitExpr F)
      → Covers ctx vars
      → IsCandidate candidates s
      → is_known F vars s ≡ true
      → (v : Bool) × (eval_split F ctx s ≡ some v)
  eval_split-some vars ctx no_operator c i h = ground (arith, h)
  eval_split-some vars ctx (bad_value var op) c i h = ground (arith, h)
  eval_split-some vars ctx (parsed var op value) c i h =
      let (x, e) = All-In _ var vars c (In-member var vars h) in rw e (compare_by-some op x value i)

  -- An expression that the webhook admits for some variables has a verdict, and no error, in every
  -- context that has a value for each of them.
  pub eval_assertion-admitted :
      (expr : Bytes) (vars : List Bytes) (ctx : Dict Bytes Float)
      → validate_assertion_expr F expr vars ≡ true
      → Covers ctx vars
      → (v : Bool) × (eval_assertion F expr ctx ≡ some v)
  unfolding validate_assertion_expr eval_assertion split_assertion_expr
  eval_assertion-admitted expr vars ctx h c =
      eval_split-some vars ctx (split_assertion_expr F expr) c
        (try_candidates-IsCandidate candidates expr) h

  -- Each kind's context has a value for each of the kind's variables.
  pub contexts-Covers :
      (a b c : Float)
      → Covers (http_context F a b c) http_assertion_vars
        × Covers (dns_context F a b) dns_assertion_vars
        × Covers (tcp_context F a) tcp_assertion_vars
  unfolding lookup bytes_beq
  contexts-Covers a b c =
      (((a, refl), ((b, refl), ((c, refl), tt))), ((a, refl), ((b, refl), tt)), ((a, refl), tt))

  -- A reference for the loop: the verdicts, their conjunction, and the first that fails.
  abbrev pub verdict : Dict Bytes Float → Assertion → Bool
  verdict ctx a = passed (eval_assertion F a.expr ctx)

  unfoldable pub all_pass : Dict Bytes Float → List Assertion → Bool
  all_pass ctx [] = true
  all_pass ctx (a ∷ rest) = verdict ctx a && all_pass ctx rest

  unfoldable pub first_failing : Dict Bytes Float → List Assertion → String
  first_failing ctx [] = ""
  first_failing ctx (a ∷ rest) =
      let below = first_failing ctx rest in if verdict ctx a then below else a.name

  unfoldable pub outcomes : Dict Bytes Float → List Assertion → List (AssertionResult F)
  outcomes ctx [] = []
  outcomes ctx (a ∷ rest) = result_of F a (verdict ctx a) ∷ outcomes ctx rest

  eval_loop-false :
      (ctx : Dict Bytes Float) (items : List Assertion) (failed : String)
      → eval_loop F ctx items false failed ≡ (false, failed, outcomes ctx items)
  unfolding eval_loop outcomes
  eval_loop-false ctx [] failed = refl
  eval_loop-false ctx (a ∷ rest) failed = elim (Bool-cases (verdict ctx a)) [
    | inl pass ↦ rw pass (rw (eval_loop-false ctx rest failed) refl)
    | inr fail ↦ rw fail (rw (eval_loop-false ctx rest failed) refl)
  ]

  eval_loop-true :
      (ctx : Dict Bytes Float) (items : List Assertion)
      → eval_loop F ctx items true ""
        ≡ (all_pass ctx items, first_failing ctx items, outcomes ctx items)
  unfolding eval_loop outcomes all_pass first_failing
  eval_loop-true ctx [] = refl
  eval_loop-true ctx (a ∷ rest) = elim (Bool-cases (verdict ctx a)) [
    | inl pass ↦ rw pass (rw (eval_loop-true ctx rest) refl)
    | inr fail ↦ rw fail (rw (eval_loop-false ctx rest a.name) refl)
  ]

  -- The loop answers whether all pass, the name of the first that fails (empty where none does), and
  -- one result for each assertion, in order: 1 where it passes, else 0.
  pub eval_assertions-eq :
      (items : List Assertion) (ctx : Dict Bytes Float)
      → eval_assertions F items ctx
        ≡ (all_pass ctx items, first_failing ctx items, outcomes ctx items)
  unfolding eval_assertions
  eval_assertions-eq items ctx = eval_loop-true ctx items
