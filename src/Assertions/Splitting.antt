-- ===== src/Assertions/Splitting.antt =====
-- SplitAssertionExpr reads back what an assertion is written as.
use mathlib.Core.Path.{subst}
use synthetics_operator.Shared.{
  ℕ, String, refl, inl, inr, false, none, some, [], arith, Bytes, codes, beq_refl, All, In,
  All-append, ◌≡◌, ◌∷◌, ◌++◌, ◌==◌, string_eq, bytes_eq, nat_eq,
}
use synthetics_operator.Shared.Strings.{trim_space}
use synthetics_operator.Float.{Float64}
use synthetics_operator.Assertions.{
  with_value, try_candidates, candidates, split_assertion_expr, cut, after_prefix,
}

-- The byte does not occur.
abbrev pub Lacks : ℕ → Bytes → Type 0
Lacks c = All (λ d. (c == d) ≡ false)

-- No byte of an operator occurs.
pub record IsOperand (s : Bytes) : Type 0 where
  pub no_less : Lacks b'<' s
  pub no_greater : Lacks b'>' s
  pub no_equal : Lacks b'=' s
  pub no_bang : Lacks b'!' s

after_prefix-ne :
    (c d : ℕ) (sep s : Bytes) → (c == d) ≡ false → after_prefix (c ∷ sep) (d ∷ s) ≡ none
unfolding after_prefix
after_prefix-ne c d sep s h = rw h refl

-- The separator's first byte does not occur, so the separator is not found.
cut-Lacks : (c : ℕ) (sep s : Bytes) → Lacks c s → cut (c ∷ sep) s ≡ none
unfolding cut
cut-Lacks c sep [] h = refl
cut-Lacks c sep (d ∷ s) (this, rest) =
    rw (after_prefix-ne c d sep s this, cut-Lacks c sep s rest) refl

after_prefix-second : (c d : ℕ) (s : Bytes) → Lacks d s → after_prefix (c ∷ d ∷ []) s ≡ none
unfolding after_prefix
after_prefix-second c d [] h = refl
after_prefix-second c d (e ∷ []) h = ground arith
after_prefix-second c d (e ∷ f ∷ s) (_, (this, _)) = ground (arith, this)

-- Nor is it found where its second byte does not occur.
cut-second : (c d : ℕ) (s : Bytes) → Lacks d s → cut (c ∷ d ∷ []) s ≡ none
unfolding cut
cut-second c d [] h = refl
cut-second c d (e ∷ s) h = rw (after_prefix-second c d (e ∷ s) h, cut-second c d s h.1) refl

after_prefix-append : (sep y : Bytes) → after_prefix sep (sep ++ y) ≡ some y
unfolding after_prefix
after_prefix-append [] y = refl
after_prefix-append (c ∷ sep) y = rw (beq_refl c) (after_prefix-append sep y)

-- The separator is found where it first stands.
cut-at : (c : ℕ) (sep x y : Bytes) → Lacks c x → cut (c ∷ sep) (x ++ c ∷ sep ++ y) ≡ some (x, y)
unfolding cut
cut-at c sep [] y h = rw (after_prefix-append (c ∷ sep) y) refl
cut-at c sep (d ∷ x) y (this, rest) =
    rw (after_prefix-ne c d sep _ this, cut-at c sep x y rest) refl

module _ (F : Float64) (x y : Bytes) (left : IsOperand x) (right : IsOperand y) where
  -- The operator between the two operands.
  abbrev pub written : String → Bytes
  written op = x ++ codes op ++ y

  -- What it is to be read as.
  abbrev Reads : String → Type 0
  Reads op =
      split_assertion_expr F (written op) ≡ with_value F (trim_space x) op (F.parse (trim_space y))

  Lacks-written :
      (c : ℕ) (op : String) → Lacks c x → Lacks c (codes op) → Lacks c y → Lacks c (written op)
  Lacks-written c op hx ho hy =
      All-append (λ d. (c == d) ≡ false) (x ++ codes op) y
        (All-append (λ d. (c == d) ≡ false) x (codes op) hx ho) hy

  le-Reads : Reads "<="
  unfolding split_assertion_expr try_candidates
  le-Reads = rw (cut-at b'<' (codes "=") x y left.no_less) refl

  ge-Reads : Reads ">="
  unfolding split_assertion_expr try_candidates
  ge-Reads =
      rw
        (
          cut-Lacks b'<' (codes "=") _
              (Lacks-written b'<' ">=" left.no_less (refl, (refl, tt)) right.no_less),
          cut-at b'>' (codes "=") x y left.no_greater,
        )
        refl

  ne-Reads : Reads "!="
  unfolding split_assertion_expr try_candidates
  ne-Reads =
      rw
        (
          cut-Lacks b'<' (codes "=") _
              (Lacks-written b'<' "!=" left.no_less (refl, (refl, tt)) right.no_less),
          cut-Lacks b'>' (codes "=") _
              (Lacks-written b'>' "!=" left.no_greater (refl, (refl, tt)) right.no_greater),
          cut-at b'!' (codes "=") x y left.no_bang,
        )
        refl

  -- None of the operators of two bytes is found where there is no '='.
  none_of_two :
      (op : String)
      → Lacks b'=' (codes op)
      → (cut (codes "<=") (written op) ≡ none)
        × (cut (codes ">=") (written op) ≡ none)
        × (cut (codes "!=") (written op) ≡ none)
  none_of_two op h =
      let no_equal = Lacks-written b'=' op left.no_equal h right.no_equal in
      (
        cut-second b'<' b'=' (written op) no_equal,
        cut-second b'>' b'=' (written op) no_equal,
        cut-second b'!' b'=' (written op) no_equal,
      )

  lt-Reads : Reads "<"
  unfolding split_assertion_expr try_candidates
  lt-Reads =
      let (no_le, no_ge, no_ne) = none_of_two "<" (refl, tt) in
      rw (no_le, no_ge, no_ne, cut-at b'<' [] x y left.no_less) refl

  gt-Reads : Reads ">"
  unfolding split_assertion_expr try_candidates
  gt-Reads =
      let (no_le, no_ge, no_ne) = none_of_two ">" (refl, tt) in
      rw
        (
          no_le,
          no_ge,
          no_ne,
          cut-Lacks b'<' [] _ (Lacks-written b'<' ">" left.no_less (refl, tt) right.no_less),
          cut-at b'>' [] x y left.no_greater,
        )
        refl

  eq-Reads : Reads "="
  unfolding split_assertion_expr try_candidates
  eq-Reads =
      let no_less = Lacks-written b'<' "=" left.no_less (refl, tt) right.no_less in
      let no_greater = Lacks-written b'>' "=" left.no_greater (refl, tt) right.no_greater in
      let no_bang = Lacks-written b'!' "=" left.no_bang (refl, tt) right.no_bang in
      rw
        (
          cut-Lacks b'<' (codes "=") _ no_less,
          cut-Lacks b'>' (codes "=") _ no_greater,
          cut-Lacks b'!' (codes "=") _ no_bang,
          cut-Lacks b'<' [] _ no_less,
          cut-Lacks b'>' [] _ no_greater,
          cut-at b'=' [] x y left.no_equal,
        )
        refl

  -- Two texts without a byte of an operator, with any of the six operators between them, are read as
  -- the first text trimmed, that operator, and the number that the second one trimmed is.
  pub split_assertion_expr-written : (op : String) → In op candidates → Reads op
  split_assertion_expr-written op (inl e) = subst Reads e le-Reads
  split_assertion_expr-written op (inr (inl e)) = subst Reads e ge-Reads
  split_assertion_expr-written op (inr (inr (inl e))) = subst Reads e ne-Reads
  split_assertion_expr-written op (inr (inr (inr (inl e)))) = subst Reads e lt-Reads
  split_assertion_expr-written op (inr (inr (inr (inr (inl e))))) = subst Reads e gt-Reads
  split_assertion_expr-written op (inr (inr (inr (inr (inr (inl e)))))) = subst Reads e eq-Reads
  split_assertion_expr-written op (inr (inr (inr (inr (inr (inr i)))))) = elim i [ ]
