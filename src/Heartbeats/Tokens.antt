-- ===== src/Heartbeats/Tokens.antt =====
-- What a token that is resolved is: a path of the receiver, and the same at the next reconciliation.
use synthetics_operator.Shared.{
  if_intro, String, refl, sym, ap, inl, inr, Bool, true, false, Option, none, some, List, [], arith,
  Bool-cases, str_beq_iff, Bytes, bytes_beq, ◌≡◌, ◌∙◌, ◌∷◌, ◌++◌, ◌==◌, string_eq, bytes_eq, nat_eq,
  if◌then◌else◌,
}
use mathlib.Core.Path.{subst}
use synthetics_operator.Shared.Dict.{Dict, insert, lookup-insert_self, lookup-insert_ne}
use synthetics_operator.Shared.Strings.{trim_space}
use synthetics_operator.Results.{NamespacedName}
use synthetics_operator.Api.{Heartbeat, TokenSecretRef}
use synthetics_operator.Receiver.{acceptable_token, parse_path, run_ok}
use synthetics_operator.Receiver.Paths.{parse_path-token}
use synthetics_operator.Reconcilers.{Get, gets, missing, unreadable}
use synthetics_operator.Heartbeats.{
  unusable_token, no_token, Answers, Write, Resolved, resolved, unresolved, adopted, adopt_found,
  adopt_token, resolve_ref, resolve_token, generate_found, mint, create_or_update, new_token,
  with_prefix, token_prefix, token_in, key_or_token, kept_token, with_token_data, secret_of,
  value_of, token_secret_key, url_secret_key, ping_url,
}

-- What a result says of its token.
abbrev Yields : (Bytes → String → Type 0) → Resolved → Type 0
Yields P (resolved token name) = P token name
Yields P (unresolved _) = Unit

of_resolved :
    (P : Bytes → String → Type 0) (r : Resolved) (token : Bytes) (name : String)
    → Yields P r
    → r ≡ resolved token name
    → P token name
of_resolved P r token name h e = subst (Yields P) e h

abbrev Adopted : String → Bytes → String → Type 0
Adopted owner token name = (acceptable_token token ≡ true) × (name ≡ owner)

adopted-Yields : (owner : String) (token : Bytes) → Yields (Adopted owner) (adopted owner token)
adopted-Yields owner token = of_test (acceptable_token token) refl
  where
    of_test :
        (ok : Bool)
        → acceptable_token token ≡ ok
        → Yields (Adopted owner) (
            if token == []
            then unresolved (no_token owner)
            else if ok
            then resolved token owner
            else unresolved (unusable_token owner))
    of_test true e = if_intro (Yields (Adopted owner)) (token == []) tt (e, refl)
    of_test false e = if_intro (Yields (Adopted owner)) (token == []) tt tt

adopt_found-Yields :
    (ref : TokenSecretRef) (found : Get (Dict String Bytes))
    → Yields (Adopted ref.name) (adopt_found ref found)
adopt_found-Yields ref missing = tt
adopt_found-Yields ref unreadable = tt
adopt_found-Yields ref (gets values) =
    adopted-Yields ref.name (token_in (key_or_token ref.key) values)

-- A token that is adopted from a user's Secret is one that the receiver serves: the path of a slash
-- and the token is read as a successful run of it. The Secret that is reported is the user's.
pub adopt_token-served :
    (answers : Answers) (namespace : String) (ref : TokenSecretRef) (token : Bytes) (name : String)
    → adopt_token answers namespace ref ≡ resolved token name
    → (parse_path (b'/' ∷ token) ≡ some (token, run_ok)) × (name ≡ ref.name)
unfolding adopt_token
adopt_token-served answers namespace ref token name e =
    let (ok, named) =
      of_resolved (Adopted ref.name) _ token name
        (adopt_found-Yields ref (answers.get (record { namespace = namespace; name = ref.name })))
        e in
    (parse_path-token token ok, named)

token_in-url :
    (url : Bytes) (values : Dict String Bytes)
    → token_in token_secret_key (insert url_secret_key url values)
      ≡ token_in token_secret_key values
unfolding token_in
token_in-url url values =
    ap (λ (found : Option Bytes). trim_space (value_of found))
      (lookup-insert_ne url_secret_key token_secret_key url values
        (λ e. ground (arith, (str_beq_iff "url" "token").1 e)))

token_in-token :
    (token : Bytes) (values : Dict String Bytes)
    → token_in token_secret_key (insert token_secret_key token values) ≡ trim_space token
unfolding token_in
token_in-token token values =
    ap (λ (found : Option Bytes). trim_space (value_of found))
      (lookup-insert_self token_secret_key token values)

-- The token in a Secret that was written is the one that was answered.
token_in-kept :
    (answers : Answers) (values : Dict String Bytes) (token : Bytes)
    → trim_space token ≡ token
    → token_in token_secret_key (with_token_data answers token values) ≡ kept_token token values
token_in-kept answers values token trimmed =
    token_in-url (ping_url answers (kept_token token values)) _
    ∙ elim (Bool-cases (token_in token_secret_key values == [])) [
      | inl empty ↦ rw empty (token_in-token token values ∙ trimmed)
      | inr full ↦ rw full refl
    ]

kept_token-nonempty :
    (values : Dict String Bytes) (token : Bytes)
    → (token == []) ≡ false
    → (kept_token token values == []) ≡ false
kept_token-nonempty values token h = elim (Bool-cases (token_in token_secret_key values == [])) [
  | inl empty ↦ rw empty h
  | inr full ↦ rw (full, full) refl
]

-- A Secret that was written holds the token that is answered, and it is not empty.
abbrev KeptBy : String → Resolved → List Write → Type 0
KeptBy owner (unresolved _) writes = Unit
KeptBy owner (resolved token name) [] = Unit
KeptBy owner (resolved token name) (w ∷ _) =
    (token_in token_secret_key w.values ≡ token) × ((token == []) ≡ false) × (name ≡ owner)

abbrev Keeps : String → Resolved × List Write → Type 0
Keeps owner (r, writes) = KeptBy owner r writes

module _ (answers : Answers) where
  -- The text of the random bytes has no white space at its ends.
  abbrev pub IsTrimmed : Type 0
  IsTrimmed =
      (text : Bytes)
      → answers.random_text ≡ some text
      → trim_space (token_prefix ++ text) ≡ token_prefix ++ text

  mint-Keeps :
      (key : NamespacedName) → IsTrimmed → Keeps key.name (mint answers key (new_token answers))
  unfolding create_or_update bytes_beq
  mint-Keeps key trimmed = of_text answers.random_text (λ text e. trimmed text e)
    where
      of_text :
          (found : Option Bytes)
          → ((text : Bytes)
              → found ≡ some text
              → trim_space (token_prefix ++ text) ≡ token_prefix ++ text)
          → Keeps key.name (mint answers key (with_prefix found))
      of_text none trimmed = tt
      of_text (some text) trimmed =
          if_intro (Keeps key.name) answers.creates
            (
              token_in-kept answers (answers.current key) (token_prefix ++ text)
                  (trimmed text refl),
              kept_token-nonempty (answers.current key) (token_prefix ++ text) refl,
              refl,
            )
            tt

  generate_found-Keeps :
      (key : NamespacedName) (found : Get (Dict String Bytes))
      → IsTrimmed
      → Keeps key.name (generate_found answers key found)
  generate_found-Keeps key missing trimmed = mint-Keeps key trimmed
  generate_found-Keeps key unreadable trimmed = tt
  generate_found-Keeps key (gets values) trimmed =
      if_intro (Keeps key.name) (token_in token_secret_key values == []) (mint-Keeps key trimmed) tt

  -- A token that is generated stays: once its Secret is written, the next reconciliation that reads
  -- what was written answers the same token and the same Secret, and writes nothing, whatever is
  -- random then. It holds where the text of the random bytes has no white space at its ends.
  pub resolve_token-kept :
      (later : Answers) (h : Heartbeat) (token : Bytes) (name : String) (w : Write)
      → IsTrimmed
      → h.token_secret_ref ≡ none
      → resolve_token answers h ≡ (resolved token name, w ∷ [])
      → later.get (secret_of h) ≡ gets w.values
      → resolve_token later h ≡ (resolved token name, [])
  unfolding resolve_token
  resolve_token-kept later h token name w trimmed own first read =
      let (holds, full, named) : KeptBy (secret_of h).name (resolved token name) (w ∷ []) =
        subst (Keeps (secret_of h).name) (sym (ap (resolve_ref answers h) own) ∙ first)
          (generate_found-Keeps (secret_of h) (answers.get (secret_of h)) trimmed) in
      ap (resolve_ref later h) own ∙ rw read (rw (holds, full, named) refl)
