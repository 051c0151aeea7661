-- ===== src/Resync/Messages.antt =====
-- What holds of every message of a loop, and when a list of messages serves a token.
use synthetics_operator.Shared.{
  if_intro, none_ne, some_inj, refl, ap, inl, inr, Bool, true, false, Option, none, some, List, [],
  arith, Bytes, beq_ne, All, In, ◌≡◌, ◌∙◌, ◌≢◌, ◌⊎◌, ◌∷◌, ◌++◌, ◌==◌, string_eq, bytes_eq, nat_eq,
  if◌then◌else◌,
}
use synthetics_operator.Results.{NamespacedName, name_eq, SpecUpdate, kind_heartbeat}
use synthetics_operator.Api.{Object, Heartbeat}
use synthetics_operator.Specs.{heartbeat_spec_update}
use synthetics_operator.Receiver.{live_token}
use synthetics_operator.Receiver.Index.{is_about, current}
use synthetics_operator.Receiver.Served.{IsExclusive}
use synthetics_operator.Resync.{put, publish_each, each, unless_deleting}

-- Whatever is put for an item of the list holds.
abbrev pub Puts : (SpecUpdate → Type 0) → Option SpecUpdate → Type 0
Puts P none = Unit
Puts P (some msg) = P msg

pub All-each :
    {A : Type 0} (P : SpecUpdate → Type 0) (f : A → Option SpecUpdate) (xs : List A)
    → ((x : A) → In x xs → Puts P (f x))
    → All P (each f xs)
unfolding each
All-each P f [] h = tt
All-each P f (x ∷ xs) h = put-All (f x) (h x (inl refl)) (All-each P f xs (λ y i. h y (inr i)))
  where
    put-All :
        (found : Option SpecUpdate)
        → Puts P found
        → All P (each f xs)
        → All P (put found (each f xs))
    put-All none p ps = ps
    put-All (some msg) p ps = (p, ps)

pub All-map :
    {P Q : SpecUpdate → Type 0}
    → ((msg : SpecUpdate) → P msg → Q msg)
    → (msgs : List SpecUpdate) → All P msgs
    → All Q msgs
All-map f [] h = tt
All-map f (msg ∷ msgs) (p, ps) = (f msg p, All-map f msgs ps)

pub In-right : (xs ys : List SpecUpdate) (msg : SpecUpdate) → In msg ys → In msg (xs ++ ys)
In-right [] ys msg i = i
In-right (x ∷ xs) ys msg i = inr (In-right xs ys msg i)

pub In-left : (xs ys : List SpecUpdate) (msg : SpecUpdate) → In msg xs → In msg (xs ++ ys)
In-left [] ys msg i = absurd i
In-left (x ∷ xs) ys msg (inl same) = inl same
In-left (x ∷ xs) ys msg (inr i) = inr (In-left xs ys msg i)

pub In-each :
    {A : Type 0} (f : A → Option SpecUpdate) (xs : List A) (x : A) (msg : SpecUpdate)
    → In x xs
    → f x ≡ some msg
    → In msg (each f xs)
unfolding each
In-each f [] x msg i e = absurd i
In-each f (y ∷ xs) x msg (inl same) e = rw (same, e) (inl refl)
In-each f (y ∷ xs) x msg (inr i) e = later (f y) (In-each f xs x msg i e)
  where
    later : (found : Option SpecUpdate) → In msg (each f xs) → In msg (put found (each f xs))
    later none i = i
    later (some first) i = inr i

-- What the publisher takes is of what it is handed, and has each message that it takes.
pub publish_each-All {ℓ} :
    (P : SpecUpdate → Type ℓ) (takes : SpecUpdate → Bool) (msgs : List SpecUpdate)
    → All P msgs
    → All P (publish_each takes msgs)
unfolding publish_each
publish_each-All P takes [] h = h
publish_each-All P takes (msg ∷ msgs) (p, ps) =
    let rest = publish_each-All P takes msgs ps in if_intro (All P) (takes msg) (p, rest) rest

pub In-publish_each :
    (takes : SpecUpdate → Bool) (msgs : List SpecUpdate) (msg : SpecUpdate)
    → takes msg ≡ true
    → In msg msgs
    → In msg (publish_each takes msgs)
unfolding publish_each
In-publish_each takes (first ∷ msgs) msg taken (inl same) = rw (ap takes same ∙ taken) (inl same)
In-publish_each takes (first ∷ msgs) msg taken (inr i) =
    if_intro (In msg) (takes first) (inr (In-publish_each takes msgs msg taken i))
      (In-publish_each takes msgs msg taken i)
In-publish_each takes [] msg taken i = absurd i

-- Where every spec about a heartbeat carries a token, the last one does, if there is one.
pub current-agreed :
    (name : NamespacedName) (token : Bytes) (msgs : List SpecUpdate) (held : Option Bytes)
    → All (λ msg. is_about name msg ≡ true → live_token msg ≡ some token) msgs
    → (held ≡ some token) ⊎ ((msg : SpecUpdate) × In msg msgs × (is_about name msg ≡ true))
    → current name msgs held ≡ some token
unfolding current
current-agreed name token [] held all (inl h) = h
current-agreed name token [] held all (inr (msg, i, about)) = absurd i
current-agreed name token (msg ∷ msgs) held (this, all) found =
    current-agreed name token msgs _ all (next found)
  where
    next :
        (held ≡ some token) ⊎ ((m : SpecUpdate) × In m (msg ∷ msgs) × (is_about name m ≡ true))
        → ((if is_about name msg then live_token msg else held) ≡ some token)
          ⊎ ((m : SpecUpdate) × In m msgs × (is_about name m ≡ true))
    next (inl h) = inl (of_test (is_about name msg) this)
      where
        of_test :
            (test : Bool)
            → (test ≡ true → live_token msg ≡ some token)
            → (if test then live_token msg else held) ≡ some token
        of_test true t = t refl
        of_test false t = h
    next (inr (m, inl same, about)) =
        inl (let here = ap (is_about name) same ∙ about in rw here (this here))
    next (inr (m, inr i, about)) = inr (m, i, about)

module _ (name : NamespacedName) (token : Bytes) where
  -- What of each message lets the token of the name be served after all of them.
  abbrev pub Serves : SpecUpdate → Type 0
  Serves msg = IsExclusive token name msg × (is_about name msg ≡ true → live_token msg ≡ some token)

  pub other_kind : (msg : SpecUpdate) → (msg.kind == kind_heartbeat) ≡ false → Serves msg
  other_kind msg h = (λ e. ground (arith, h, e), λ e. ground (arith, h, e))

  pub unless_deleting-Puts :
      (o : Object) (msg : Option SpecUpdate) → Puts Serves msg → Puts Serves (unless_deleting o msg)
  unless_deleting-Puts o msg h = if_intro (Puts Serves) o.deleting tt h

  pub live_token-beat :
      (h : Heartbeat) (t : Bytes) → t ≢ [] → live_token (heartbeat_spec_update h t) ≡ some t
  unfolding heartbeat_spec_update
  live_token-beat h t some_token = rw (beq_ne t [] some_token) refl

  pub beat_token :
      (h : Heartbeat) (t : Bytes) → live_token (heartbeat_spec_update h t) ≡ some token → t ≡ token
  unfolding heartbeat_spec_update
  beat_token h t e = of_test (t == []) e
    where
      of_test : (test : Bool) → (if test then none else some t) ≡ some token → t ≡ token
      of_test true e = absurd (none_ne e)
      of_test false e = some_inj e
