-- ===== src/Metrics/Observe/Collisions.antt =====
-- The attributes of a scrape: a user's labels never stand beside a label of the same name.
use synthetics_operator.Shared.{
  String, refl, sym, ap, inl, inr, Bool, true, false, Option, none, some, List, [], arith, In, ◌≡◌,
  ◌∙◌, ◌&&◌, ◌∷◌, ◌++◌, if◌then◌else◌,
}
use mathlib.Core.List.{append-nil}
use mathlib.Core.Path.{subst}
use synthetics_operator.Shared.Graph.{member}
use synthetics_operator.Labels.{is_system_label}
use synthetics_operator.Float.{Float64}
use synthetics_operator.Results.{Kind, DependencyRef, TestCase, AssertionResult}
use synthetics_operator.Metrics.{Result, ProbeState, TestState}
use synthetics_operator.Metrics.Observe.{
  Attrs, Gauge, Observation, text, observe_tcp, observe_http, observe_dns, observe_assertions,
  observe_suppressed, observe_by_kind, observe_playwright, observe_cases,
}
use synthetics_operator.Metrics.Observe.Keys.{
  keys, distinct, all_system, none_system, keys-append, distinct-append,
}

unfoldable every : {A : Type 0} → (A → Bool) → List A → Bool
every p [] = true
every p (x ∷ xs) = p x && every p xs

every-In :
    {A : Type 0} (p : A → Bool) (x : A) (xs : List A) → every p xs ≡ true → In x xs → p x ≡ true
unfolding every
every-In p x (y ∷ xs) h (inl e) = ap p (sym e) ∙ ground (arith, h)
every-In p x (y ∷ xs) h (inr i) = every-In p x xs (ground (arith, h)) i
every-In p x [] h i = elim i [ ]

abbrev pub fits : List String → List String → Bool
fits pre post = all_system (pre ++ post) && distinct (pre ++ post)

abbrev pub base : List String
base = "name" ∷ "namespace" ∷ "kind" ∷ []

-- The keys that may stand before a user's labels.
abbrev pub prefixes : List (List String)
prefixes =
    base
    ∷ (base ++ "url" ∷ [])
    ∷ (base ++ "host" ∷ "port" ∷ [])
    ∷ (base ++ "query" ∷ [])
    ∷ (base ++ "resolver" ∷ [])
    ∷ (base ++ "query" ∷ "resolver" ∷ [])
    ∷ []

-- The keys that may stand after them.
abbrev suffixes : List (List String)
suffixes =
    []
    ∷ ("result" ∷ [])
    ∷ ("result" ∷ "failed_assertion" ∷ [])
    ∷ ("unhealthy_dependency" ∷ "unhealthy_dependency_kind" ∷ [])
    ∷ ("assertion" ∷ "expr" ∷ [])
    ∷ ("method" ∷ [])
    ∷ ("phase" ∷ [])
    ∷ ("value" ∷ [])
    ∷ ("type" ∷ [])
    ∷ ("suite" ∷ "test" ∷ [])
    ∷ []

all_fit : every (λ pre. every (fits pre) suffixes) prefixes ≡ true
unfolding every distinct all_system is_system_label member
all_fit = refl

prefix-fits : (pre post : List String) → In pre prefixes → In post suffixes → fits pre post ≡ true
prefix-fits pre post i j =
    every-In (fits pre) post suffixes
      (every-In (λ pre. every (fits pre) suffixes) pre prefixes all_fit i) j

-- The operator's keys around the user's.
pub record IsClean (user : List String) (attrs : Attrs) : Type 0 where
  pub pre : List String
  pub post : List String
  pub is_split : keys attrs ≡ pre ++ user ++ post
  pub fit : fits pre post ≡ true

pub IsClean-distinct :
    (user : List String) (attrs : Attrs)
    → none_system user ≡ true
    → distinct user ≡ true
    → IsClean user attrs
    → distinct (keys attrs) ≡ true
IsClean-distinct user attrs hu du c =
    subst (λ ks. distinct ks ≡ true) (sym c.is_split)
      (distinct-append c.pre user c.post hu du (ground (arith, c.fit)) (ground (arith, c.fit)))

-- Every observation of the list is clean.
pub data AreClean (F : Float64) (user : List String) : List (Observation F) → Type 0 where
  no_more : AreClean F user []
  more :
      {o : Observation F} {rest : List (Observation F)}
      → IsClean user o.attrs
      → AreClean F user rest
      → AreClean F user (o ∷ rest)

pub AreClean-append :
    {F : Float64} {user : List String} {xs ys : List (Observation F)}
    → AreClean F user xs
    → AreClean F user ys
    → AreClean F user (xs ++ ys)
AreClean-append no_more h = h
AreClean-append (more c cs) h = more c (AreClean-append cs h)

pub AreClean-if :
    {F : Float64} {user : List String} (b : Bool) {xs ys : List (Observation F)}
    → AreClean F user xs
    → AreClean F user ys
    → AreClean F user (if b then xs else ys)
AreClean-if true hx hy = hx
AreClean-if false hx hy = hy

-- Attributes whose keys are a known prefix and then the user's.
module _ (F : Float64) (user : List String) (attrs : Attrs) (pre : List String)
    (i : In pre prefixes) (e : keys attrs ≡ pre ++ user) where
  IsClean-extra : (extra : Attrs) → In (keys extra) suffixes → IsClean user (attrs ++ extra)
  IsClean-extra extra j = record {
    pre = pre;
    post = keys extra;
    is_split = keys-append attrs extra ∙ ap (λ ks. ks ++ keys extra) e;
    fit = prefix-fits pre (keys extra) i j;
  }

  pub IsClean-plain : IsClean user attrs
  IsClean-plain = record {
    pre = pre;
    post = [];
    is_split = e ∙ sym (append-nil (pre ++ user));
    fit = prefix-fits pre [] i (inl refl);
  }

  pub suppressed-AreClean :
      (gauge : Gauge) (result : Result) (dep : Option DependencyRef)
      → AreClean F user (observe_suppressed F gauge attrs result dep)
  unfolding keys
  suppressed-AreClean gauge result none = no_more
  suppressed-AreClean gauge result (some dep) =
      AreClean-if _ no_more (more (IsClean-extra _ (inr (inr (inr (inl refl))))) no_more)

  pub assertions-AreClean :
      (ars : List (AssertionResult F)) → AreClean F user (observe_assertions F attrs ars)
  unfolding observe_assertions keys
  assertions-AreClean [] = no_more
  assertions-AreClean (ar ∷ rest) =
      more (IsClean-extra _ (inr (inr (inr (inr (inl refl)))))) (assertions-AreClean rest)

  pub results-IsClean :
      (result assertion : String)
      → IsClean user (attrs ++ ("result", text result) ∷ ("failed_assertion", text assertion) ∷ [])
  unfolding keys
  results-IsClean result assertion = IsClean-extra _ (inr (inr (inl refl)))

  pub result-IsClean : (result : String) → IsClean user (attrs ++ ("result", text result) ∷ [])
  unfolding keys
  result-IsClean result = IsClean-extra _ (inr (inl refl))

  phase-IsClean : (name : String) → IsClean user (attrs ++ ("phase", text name) ∷ [])
  unfolding keys
  phase-IsClean name = IsClean-extra _ (inr (inr (inr (inr (inr (inr (inl refl)))))))

  http-AreClean : (state : ProbeState F) → AreClean F user (observe_http F attrs state)
  unfolding observe_http keys
  http-AreClean state =
      AreClean-append
        (more (IsClean-extra _ (inr (inr (inr (inr (inr (inl refl))))))) (
          more IsClean-plain
            (more IsClean-plain (AreClean-if _ (more IsClean-plain no_more) no_more))))
        (more (phase-IsClean "dns") (
          more (phase-IsClean "connect") (
            more (phase-IsClean "tls")
              (more (phase-IsClean "processing") (more (phase-IsClean "transfer") no_more)))))

  dns-AreClean : (state : ProbeState F) → AreClean F user (observe_dns F attrs state)
  unfolding observe_dns keys
  dns-AreClean state =
      AreClean-append
        (more IsClean-plain (
          more IsClean-plain (
            more IsClean-plain (
              more IsClean-plain (
                AreClean-if _ no_more (
                  more (IsClean-extra _ (inr (inr (inr (inr (inr (inr (inr (inl refl)))))))))
                    no_more))))))
        (AreClean-if _ no_more (
          more (IsClean-extra _ (inr (inr (inr (inr (inr (inr (inr (inr (inl refl))))))))))
            no_more))

  tcp-AreClean : AreClean F user (observe_tcp F attrs)
  unfolding observe_tcp
  tcp-AreClean = more IsClean-plain no_more

  pub by_kind-AreClean :
      (kind : Kind) (state : ProbeState F) → AreClean F user (observe_by_kind F kind attrs state)
  by_kind-AreClean kind state =
      AreClean-if _ (http-AreClean state)
        (AreClean-if _ (dns-AreClean state) (AreClean-if _ tcp-AreClean no_more))

  case-IsClean :
      (tc : TestCase)
      → IsClean user (attrs ++ ("suite", text tc.suite) ∷ ("test", text tc.test) ∷ [])
  unfolding keys
  case-IsClean tc = IsClean-extra _ (inr (inr (inr (inr (inr (inr (inr (inr (inr (inl refl))))))))))

  cases-AreClean :
      (tcs : List TestCase) (passed failed : F.Float)
      → AreClean F user (observe_cases F attrs tcs passed failed).2
  unfolding observe_cases
  cases-AreClean [] passed failed = no_more
  cases-AreClean (tc ∷ rest) passed failed =
      more (case-IsClean tc) (more (case-IsClean tc) (cases-AreClean rest _ _))

  pub playwright-AreClean :
      (state : TestState F) → AreClean F user (observe_playwright F attrs state)
  unfolding observe_playwright
  playwright-AreClean state =
      AreClean-append (cases-AreClean state.playwright_tests _ _)
        (more IsClean-plain (more IsClean-plain (more IsClean-plain no_more)))
