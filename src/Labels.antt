-- ===== src/Labels.antt =====
-- api/v1alpha1/metriclabels.go: which labels a user may put on the metrics of an object.
use synthetics_operator.Shared.{
  append-nil_iff, ℕ, String, refl, Bool, true, false, not, List, [], arith, leb, Bytes, codes, All,
  ◌≡◌, ◌↔◌, ◌&&◌, ◌||◌, ◌∷◌, ◌++◌, ◌==◌, string_eq, bytes_eq, nat_eq, if◌then◌else◌,
}
use synthetics_operator.Shared.Dict.{Dict}
use synthetics_operator.Shared.Graph.{member}

-- isSystemLabel
abbrev system_labels : List String
system_labels =
    "name" ∷ "namespace" ∷ "kind" ∷ "result" ∷ "failed_assertion" ∷ "url" ∷ "method" ∷ "phase"
    ∷ "query" ∷ "resolver" ∷ "assertion" ∷ "expr" ∷ "value" ∷ "type" ∷ "suite" ∷ "test" ∷ "host"
    ∷ "port" ∷ "outcome" ∷ "unhealthy_dependency" ∷ "unhealthy_dependency_kind" ∷ "__name__" ∷ "le"
    ∷ "quantile" ∷ "job" ∷ "instance" ∷ []

unfoldable pub is_system_label : String → Bool
is_system_label key = member key system_labels

abbrev is_letter : ℕ → Bool
is_letter c = leb b'a' c && leb c b'z' || leb b'A' c && leb c b'Z' || c == b'_'

abbrev is_word : ℕ → Bool
is_word c = is_letter c || leb b'0' c && leb c b'9'

unfoldable pub all_word : Bytes → Bool
all_word [] = true
all_word (c ∷ s) = is_word c && all_word s

-- promLabelNameRe: `^[a-zA-Z_][a-zA-Z0-9_]*$`.
unfoldable pub is_prom_label_name : Bytes → Bool
is_prom_label_name [] = false
is_prom_label_name (c ∷ s) = is_letter c && all_word s

-- strings.HasPrefix(key, "__")
unfoldable pub has_dunder : Bytes → Bool
has_dunder (a ∷ b ∷ _) = a == b'_' && b == b'_'
has_dunder _ = false

pub data LabelError : Type 0 where
  bad_format : String → LabelError
  reserved : String → LabelError
  collides : String → LabelError

-- One round of the loop. The key's text is walked as its code points; a point above 127 is no word
-- byte, as the first byte of its UTF-8 form is none.
unfoldable pub check_label : String → List LabelError
check_label key =
    if not (is_prom_label_name (codes key))
    then bad_format key ∷ []
    else if has_dunder (codes key)
    then reserved key ∷ []
    else if is_system_label key
    then collides key ∷ []
    else []

-- The errors, in the order in which the map is walked.
unfoldable pub validate_metric_labels : Dict String String → List LabelError
validate_metric_labels [] = []
validate_metric_labels ((key, value) ∷ rest) = check_label key ++ validate_metric_labels rest

-- A key that Prometheus takes, that it does not reserve, and that the operator does not emit.
abbrev pub IsUserLabel : String → Type 0
IsUserLabel key =
    (is_prom_label_name (codes key) ≡ true)
    × (has_dunder (codes key) ≡ false)
    × (is_system_label key ≡ false)

check_label_iff : (key : String) → (check_label key ≡ []) ↔ IsUserLabel key
unfolding check_label
check_label_iff key = ground arith

-- A label map is admitted exactly when each of its keys is a Prometheus name, does not start with
-- two underscores, and is not a label of the operator.
pub validate_metric_labels_iff :
    (labels : Dict String String)
    → (validate_metric_labels labels ≡ []) ↔ All (λ label. IsUserLabel label.0) labels
unfolding validate_metric_labels
validate_metric_labels_iff [] = (λ _. tt, λ _. refl)
validate_metric_labels_iff ((key, value) ∷ rest) =
    let both = append-nil_iff (check_label key) (validate_metric_labels rest) in
    let here = check_label_iff key in
    let below = validate_metric_labels_iff rest in
    (λ h. (here.0 (both.0 h).0, below.0 (both.0 h).1), λ h. both.1 (here.1 h.0, below.1 h.1))
