-- ===== src/Metrics/Observe/Keys.antt =====
-- Attribute keys: when a list of them has no repetition.
use synthetics_operator.Shared.{
  String, refl, ap, Bool, true, false, not, List, [], arith, string_eq, ◌≡◌, ◌&&◌, ◌||◌, ◌∷◌, ◌++◌,
}
use synthetics_operator.Shared.Dict.{Dict}
use synthetics_operator.Shared.Graph.{member}
use synthetics_operator.Labels.{is_system_label}

unfoldable pub keys : {A : Type 0} → Dict String A → List String
keys [] = []
keys ((k, v) ∷ m) = k ∷ keys m

unfoldable pub distinct : List String → Bool
distinct [] = true
distinct (k ∷ ks) = not (member k ks) && distinct ks

unfoldable pub all_system : List String → Bool
all_system [] = true
all_system (k ∷ ks) = is_system_label k && all_system ks

unfoldable pub none_system : List String → Bool
none_system [] = true
none_system (k ∷ ks) = not (is_system_label k) && none_system ks

pub keys-append : {A : Type 0} (m n : Dict String A) → keys (m ++ n) ≡ keys m ++ keys n
unfolding keys
keys-append [] n = refl
keys-append ((k, v) ∷ m) n = ap (λ (ks : List String). k ∷ ks) (keys-append m n)

member-append :
    (k : String) (js ks : List String) → member k (js ++ ks) ≡ (member k js || member k ks)
unfolding member
member-append k [] ks = refl
member-append k (j ∷ js) ks = ground (arith, member-append k js ks)

-- A key that is a system label is in no list of user labels, and the other way round.
member-none_system :
    (k : String) (ks : List String)
    → is_system_label k ≡ true
    → none_system ks ≡ true
    → member k ks ≡ false
unfolding member none_system
member-none_system k [] hk h = refl
member-none_system k (j ∷ ks) hk h =
    ground (arith, string_eq.beq_iff j k, member-none_system k ks hk)

member-all_system :
    (k : String) (ks : List String)
    → is_system_label k ≡ false
    → all_system ks ≡ true
    → member k ks ≡ false
unfolding member all_system
member-all_system k [] hk h = refl
member-all_system k (j ∷ ks) hk h = ground (arith, string_eq.beq_iff j k, member-all_system k ks hk)

distinct-user :
    (user post : List String)
    → none_system user ≡ true
    → distinct user ≡ true
    → all_system post ≡ true
    → distinct post ≡ true
    → distinct (user ++ post) ≡ true
unfolding distinct none_system
distinct-user [] post hu du hp dp = dp
distinct-user (k ∷ user) post hu du hp dp =
    ground (arith, member-append k user post, member-all_system k post, distinct-user user post)

-- User labels among the operator's: without a repetition on either side there is none at all.
pub distinct-append :
    (pre user post : List String)
    → none_system user ≡ true
    → distinct user ≡ true
    → all_system (pre ++ post) ≡ true
    → distinct (pre ++ post) ≡ true
    → distinct (pre ++ user ++ post) ≡ true
unfolding distinct all_system
distinct-append [] user post hu du hp dp = distinct-user user post hu du hp dp
distinct-append (k ∷ pre) user post hu du hp dp = ground (
  arith,
  member-append k (pre ++ user) post,
  member-append k pre user,
  member-append k pre post,
  member-none_system k user,
  distinct-append pre user post,
)
