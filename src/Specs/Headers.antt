-- ===== src/Specs/Headers.antt =====
-- controllers/http_headers.go: which headers a probe's request gets.
use synthetics_operator.Shared.{
  none_ne, some_inj, String, refl, sym, ap, inl, inr, Option, none, some, List, [], Option-cases,
  Bytes, In, ◌≡◌, ◌∙◌, ◌↔◌, ◌∷◌, ◌==◌, string_eq, bytes_eq, nat_eq, if◌then◌else◌,
}
use synthetics_operator.Shared.Dict.{Dict, lookup, insert, lookup-insert}
use synthetics_operator.Results.{NamespacedName}
use synthetics_operator.Api.{HeaderFromSource, HttpRequestSpec}
use synthetics_operator.Specs.{
  copy, secret_value, put_header, resolve_from, resolve_sources, resolve_request_headers,
}

lookup-copy : (name : String) (m : Dict String Bytes) → lookup name (copy [] m) ≡ lookup name m
unfolding copy lookup
lookup-copy name [] = refl
lookup-copy name ((k, v) ∷ m) = lookup-insert k name v (copy [] m) ∙ rw (lookup-copy name m) refl

module _ (read : NamespacedName → Option (Dict String Bytes)) (namespace : String) where
  -- The value of the last source that sets the header; where there is none, the one held before.
  unfoldable pub last_source : String → List HeaderFromSource → Option Bytes → Option Bytes
  last_source name [] held = held
  last_source name (h ∷ hs) held =
      last_source name hs (if h.name == name then secret_value read namespace h else held)

  -- The Secret of a source is missing, or has no such key.
  abbrev pub IsMissing : HeaderFromSource → Type 0
  IsMissing h = secret_value read namespace h ≡ none

  -- One round, where the source's value is known.
  resolve_from-step :
      (h : HeaderFromSource) (hs : List HeaderFromSource) (merged : Dict String Bytes)
      (value : Option Bytes)
      → secret_value read namespace h ≡ value
      → resolve_from read namespace (h ∷ hs) (some merged)
        ≡ resolve_from read namespace hs (put_header read namespace h.name value merged)
  unfolding resolve_from
  resolve_from-step h hs merged value e =
      ap (λ v. resolve_from read namespace hs (put_header read namespace h.name v merged)) e

  -- A missing value is an error, whatever follows.
  resolve_from-error : (hs : List HeaderFromSource) → resolve_from read namespace hs none ≡ none
  unfolding resolve_from
  resolve_from-error [] = refl
  resolve_from-error (h ∷ hs) = refl

  resolve_from-lookup :
      (name : String) (hs : List HeaderFromSource) (merged out : Dict String Bytes)
      → resolve_from read namespace hs (some merged) ≡ some out
      → lookup name out ≡ last_source name hs (lookup name merged)
  unfolding resolve_from last_source
  resolve_from-lookup name [] merged out h = ap (lookup name) (sym (some_inj h))
  resolve_from-lookup name (h ∷ hs) merged out e =
      elim (Option-cases (secret_value read namespace h)) [
        | inl missing ↦
            absurd (
              none_ne
                (sym (resolve_from-step h hs merged none missing ∙ resolve_from-error hs) ∙ e))
        | inr (value, found) ↦
            resolve_from-lookup name hs (insert h.name value merged) out
              (sym (resolve_from-step h hs merged (some value) found) ∙ e)
            ∙ ap (last_source name hs) (
                lookup-insert h.name name value merged
                ∙ ap (λ v. if h.name == name then v else lookup name merged) (sym found))
      ]

  resolve_from-none :
      (hs : List HeaderFromSource) (merged : Dict String Bytes)
      → resolve_from read namespace hs (some merged) ≡ none
      → (h : HeaderFromSource) × In h hs × IsMissing h
  unfolding resolve_from
  resolve_from-none [] merged e = absurd (none_ne (sym e))
  resolve_from-none (h ∷ hs) merged e = elim (Option-cases (secret_value read namespace h)) [
    | inl missing ↦ (h, inl refl, missing)
    | inr (value, found) ↦
        let (j, i, missing) =
          resolve_from-none hs (insert h.name value merged)
            (sym (resolve_from-step h hs merged (some value) found) ∙ e) in
        (j, inr i, missing)
  ]

  resolve_from-missing :
      (h : HeaderFromSource) (hs : List HeaderFromSource) (merged : Dict String Bytes)
      → In h hs
      → IsMissing h
      → resolve_from read namespace hs (some merged) ≡ none
  unfolding resolve_from
  resolve_from-missing h [] merged i missing = elim i [ ]
  resolve_from-missing h (j ∷ hs) merged (inl same) missing =
      resolve_from-step j hs merged none (ap (secret_value read namespace) same ∙ missing)
      ∙ resolve_from-error hs
  resolve_from-missing h (j ∷ hs) merged (inr i) missing =
      elim (Option-cases (secret_value read namespace j)) [
        | inl e ↦ resolve_from-step j hs merged none e ∙ resolve_from-error hs
        | inr (value, found) ↦
            resolve_from-step j hs merged (some value) found
            ∙ resolve_from-missing h hs (insert j.name value merged) i missing
      ]

  resolve_sources-lookup :
      (name : String) (hs : List HeaderFromSource) (headers out : Dict String Bytes)
      → resolve_sources read namespace hs headers ≡ some out
      → lookup name out ≡ last_source name hs (lookup name headers)
  unfolding last_source
  resolve_sources-lookup name [] headers out e = ap (lookup name) (sym (some_inj e))
  resolve_sources-lookup name (h ∷ hs) headers out e =
      resolve_from-lookup name (h ∷ hs) (copy [] headers) out e
      ∙ ap (last_source name (h ∷ hs)) (lookup-copy name headers)

  -- The headers that are resolved are, for each name, the value of the last source that sets it, and
  -- the literal one where no source does.
  resolve_request_headers-lookup :
      (req : HttpRequestSpec) (out : Dict String Bytes) (name : String)
      → resolve_request_headers read namespace req ≡ some out
      → lookup name out ≡ last_source name req.headers_from (lookup name req.headers)
  unfolding resolve_request_headers
  resolve_request_headers-lookup req out name h =
      resolve_sources-lookup name req.headers_from req.headers out h

  resolve_sources-none_iff :
      (hs : List HeaderFromSource) (headers : Dict String Bytes)
      → (resolve_sources read namespace hs headers ≡ none)
        ↔ ((h : HeaderFromSource) × In h hs × IsMissing h)
  resolve_sources-none_iff [] headers = (λ e. absurd (none_ne (sym e)), λ (h, i, _). elim i [ ])
  resolve_sources-none_iff (h ∷ hs) headers = (
    resolve_from-none (h ∷ hs) (copy [] headers),
    λ (j, i, missing). resolve_from-missing j (h ∷ hs) (copy [] headers) i missing,
  )

  -- The headers fail to resolve exactly where the Secret of a source is missing or has no such key.
  resolve_request_headers-none_iff :
      (req : HttpRequestSpec)
      → (resolve_request_headers read namespace req ≡ none)
        ↔ ((h : HeaderFromSource) × In h req.headers_from × IsMissing h)
  unfolding resolve_request_headers
  resolve_request_headers-none_iff req = resolve_sources-none_iff req.headers_from req.headers
