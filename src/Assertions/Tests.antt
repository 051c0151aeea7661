-- ===== src/Assertions/Tests.antt =====
-- Runs of the assertions, and witnesses of their theorems.
use synthetics_operator.Shared.{
  refl, inl, inr, Bool, true, false, none, some, List, [], codes, bytes_beq, pos, ◌≡◌, ◌∷◌,
  string_eq, bytes_eq, nat_eq,
}
use synthetics_operator.Shared.Dict.{lookup}
use synthetics_operator.Shared.Graph.{member}
use synthetics_operator.Shared.Strings.{trim_space, drop_space, space_width, space_width_end}
use synthetics_operator.Float.Exact.{exact, digits, number}
use synthetics_operator.Results.{Assertion}
use synthetics_operator.Assertions.{
  parsed, no_operator, bad_value, with_value, try_candidates, split_assertion_expr,
  validate_assertion_expr, compare_by, eval_assertion, eval_loop, eval_assertions, eval_in_context,
  eval_http_assertions, cut, after_prefix, http_context, http_assertion_vars, tcp_assertion_vars,
}
use synthetics_operator.Assertions.Verdicts.{eval_assertion-admitted, contexts-Covers}
use synthetics_operator.Assertions.Splitting.{IsOperand, split_assertion_expr-written}

evaluating : Unit {0}
unfolding bytes_beq member lookup trim_space drop_space space_width space_width_end digits number
    try_candidates split_assertion_expr validate_assertion_expr compare_by eval_assertion eval_loop
    eval_assertions eval_in_context eval_http_assertions cut after_prefix
evaluating = tt

splits :
    (split_assertion_expr exact (codes "status_code = 200")
      ≡ parsed (codes "status_code") "=" (pos 200000))
    × (split_assertion_expr exact (codes "duration_ms<=5")
        ≡ parsed (codes "duration_ms") "<=" (pos 5000))
    × (split_assertion_expr exact (codes "duration_ms < x") ≡ bad_value (codes "duration_ms") "<")
    × (split_assertion_expr exact (codes "ok") ≡ no_operator)
unfolding evaluating
splits = (refl, refl, refl, refl)

validated :
    (validate_assertion_expr exact (codes "duration_ms < 500") http_assertion_vars ≡ true)
    × (validate_assertion_expr exact (codes "status_code = 200") tcp_assertion_vars ≡ false)
    × (validate_assertion_expr exact (codes "duration_ms => 5") tcp_assertion_vars ≡ false)
unfolding evaluating
validated = (refl, refl, refl)

abbrev checks : List Assertion
checks =
    record { name = "fast"; expr = codes "duration_ms < 500" }
    ∷ record { name = "status_ok"; expr = codes "status_code = 200" }
    ∷ record { name = "fresh"; expr = codes "ssl_expiry_days >= 14" }
    ∷ []

evaluated : eval_http_assertions exact (pos 503) (pos 120) none checks ≡ (
  "assertion_failed",
  "status_ok",
  record { name = "fast"; expr = codes "duration_ms < 500"; result = pos 1000 }
      ∷ record { name = "status_ok"; expr = codes "status_code = 200"; result = pos 0 }
      ∷ record { name = "fresh"; expr = codes "ssl_expiry_days >= 14"; result = pos 0 }
      ∷ [],
)
unfolding evaluating
evaluated = refl

eval_assertion-admitted_example :
    (v : Bool) × (eval_assertion exact
        (codes "duration_ms < 500")
        (http_context exact (pos 1) (pos 2) (pos 3))
      ≡ some v)
eval_assertion-admitted_example =
    eval_assertion-admitted exact (codes "duration_ms < 500") http_assertion_vars
      (http_context exact (pos 1) (pos 2) (pos 3)) validated.0
      (contexts-Covers exact (pos 1) (pos 2) (pos 3)).0

name-IsOperand : IsOperand (codes "duration_ms ")
name-IsOperand = record {
  no_less = (
    refl,
    (refl, (refl, (refl, (refl, (refl, (refl, (refl, (refl, (refl, (refl, (refl, tt))))))))))),
  );
  no_greater = (
    refl,
    (refl, (refl, (refl, (refl, (refl, (refl, (refl, (refl, (refl, (refl, (refl, tt))))))))))),
  );
  no_equal = (
    refl,
    (refl, (refl, (refl, (refl, (refl, (refl, (refl, (refl, (refl, (refl, (refl, tt))))))))))),
  );
  no_bang = (
    refl,
    (refl, (refl, (refl, (refl, (refl, (refl, (refl, (refl, (refl, (refl, (refl, tt))))))))))),
  );
}

number-IsOperand : IsOperand (codes " 500")
number-IsOperand = record {
  no_less = (refl, (refl, (refl, (refl, tt))));
  no_greater = (refl, (refl, (refl, (refl, tt))));
  no_equal = (refl, (refl, (refl, (refl, tt))));
  no_bang = (refl, (refl, (refl, (refl, tt))));
}

split_assertion_expr-written_example :
    split_assertion_expr exact (codes "duration_ms >= 500")
    ≡ with_value exact
        (trim_space (codes "duration_ms "))
        ">="
        (exact.parse (trim_space (codes " 500")))
split_assertion_expr-written_example =
    split_assertion_expr-written exact (codes "duration_ms ") (codes " 500") name-IsOperand
      number-IsOperand ">=" (inr (inl refl))
