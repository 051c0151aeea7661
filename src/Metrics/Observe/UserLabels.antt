-- ===== src/Metrics/Observe/UserLabels.antt =====
-- A user's labels as attributes: sorting keeps their keys, and admitted keys are no system labels.
use synthetics_operator.Shared.{
  String, refl, ap, true, not, [], arith, string_eq, All, ◌≡◌, ◌&&◌, ◌||◌, ◌∷◌, ◌==◌, bytes_eq,
  nat_eq,
}
use synthetics_operator.Shared.Dict.{Dict}
use synthetics_operator.Shared.Graph.{member}
use synthetics_operator.Labels.{is_system_label, IsUserLabel}
use synthetics_operator.Metrics.Observe.{text_attrs, sort_labels, place}
use synthetics_operator.Metrics.Observe.Keys.{keys, distinct, none_system}

pub keys-text_attrs : (m : Dict String String) → keys (text_attrs m) ≡ keys m
unfolding keys text_attrs
keys-text_attrs [] = refl
keys-text_attrs ((k, v) ∷ m) = ap (λ ks. k ∷ ks) (keys-text_attrs m)

none_system-place :
    (k v : String) (m : Dict String String)
    → none_system (keys (place (k, v) m)) ≡ (not (is_system_label k) && none_system (keys m))
unfolding keys place none_system
none_system-place k v [] = refl
none_system-place k v ((j, w) ∷ m) = ground (arith, none_system-place k v m)

member-place :
    (i k v : String) (m : Dict String String)
    → member i (keys (place (k, v) m)) ≡ (k == i || member i (keys m))
unfolding keys place member
member-place i k v [] = refl
member-place i k v ((j, w) ∷ m) = ground (arith, member-place i k v m)

distinct-place :
    (k v : String) (m : Dict String String)
    → distinct (keys (place (k, v) m)) ≡ (not (member k (keys m)) && distinct (keys m))
unfolding keys place distinct member
distinct-place k v [] = refl
distinct-place k v ((j, w) ∷ m) = ground (
  arith,
  distinct-place k v m,
  member-place j k v m,
  string_eq.beq_iff j k,
  string_eq.beq_iff k j,
)

member-sort_labels :
    (i : String) (m : Dict String String) → member i (keys (sort_labels m)) ≡ member i (keys m)
unfolding keys sort_labels member
member-sort_labels i [] = refl
member-sort_labels i ((k, v) ∷ m) =
    ground (arith, member-place i k v (sort_labels m), member-sort_labels i m)

pub distinct-sort_labels :
    (m : Dict String String) → distinct (keys (sort_labels m)) ≡ distinct (keys m)
unfolding keys sort_labels distinct
distinct-sort_labels [] = refl
distinct-sort_labels ((k, v) ∷ m) =
    ground
      (arith, distinct-place k v (sort_labels m), member-sort_labels k m, distinct-sort_labels m)

pub none_system-sort_labels :
    (m : Dict String String) → none_system (keys (sort_labels m)) ≡ none_system (keys m)
unfolding keys sort_labels none_system
none_system-sort_labels [] = refl
none_system-sort_labels ((k, v) ∷ m) =
    ground (arith, none_system-place k v (sort_labels m), none_system-sort_labels m)

pub admitted-none_system :
    (m : Dict String String) → All (λ label. IsUserLabel label.0) m → none_system (keys m) ≡ true
unfolding keys none_system
admitted-none_system [] h = refl
admitted-none_system ((k, v) ∷ m) ((_, _, h), rest) = rw (h, admitted-none_system m rest) refl
