-- ===== src/Depends/Steps.antt =====
-- One round of the admission walk, on each of its branches.
use synthetics_operator.Shared.{
  String, true, false, none, some, List, [], arith, ◌≡◌, ◌≢◌, ◌∷◌, ◌==◌, string_eq, bytes_eq,
  nat_eq,
}
use synthetics_operator.Shared.Graph.{member}
use synthetics_operator.Results.{DependencyRef, ref_eq}
use synthetics_operator.Depends.{Reader, Cause, cycle, fetch_depends, visit, walk_list, Walk}

module _ (reader : Reader) (namespace : String) where
  -- The spec.depends of the object that a reference names; none where it cannot be read.
  abbrev pub children : DependencyRef → List DependencyRef
  children dep = elim (fetch_depends reader namespace dep) [ none ↦ [] | some deps ↦ deps ]

  module _ (owner : DependencyRef) (go : Walk reader namespace) (dep : DependencyRef)
      (v : List DependencyRef) where
    pub visit-owner :
        (dep == owner) ≡ true → visit reader namespace go owner dep v ≡ (some cycle, v)
    unfolding visit
    visit-owner h = ground arith

    pub visit-old :
        (dep == owner) ≡ false
        → member dep v ≡ true
        → visit reader namespace go owner dep v ≡ (none, v)
    unfolding visit
    visit-old h k = ground arith

    pub visit-unread :
        (dep == owner) ≡ false
        → member dep v ≡ false
        → fetch_depends reader namespace dep ≡ none
        → visit reader namespace go owner dep v ≡ (none, dep ∷ v)
    unfolding visit
    visit-unread h k f = ground arith

    pub visit-read :
        {sub : List DependencyRef}
        → (dep == owner) ≡ false
        → member dep v ≡ false
        → fetch_depends reader namespace dep ≡ some sub
        → visit reader namespace go owner dep v ≡ go sub (dep ∷ v)
    unfolding visit
    visit-read h k f = ground arith

  pub children_unread :
      (dep : DependencyRef) → fetch_depends reader namespace dep ≡ none → children dep ≡ []
  children_unread dep f = ground arith

  pub children_read :
      (dep : DependencyRef) {sub : List DependencyRef}
      → fetch_depends reader namespace dep ≡ some sub
      → children dep ≡ sub
  children_read dep f = ground arith

  module _ (owner : DependencyRef) (go : Walk reader namespace) (dep : DependencyRef)
      (deps v : List DependencyRef) where
    pub walk_list-on :
        (visit reader namespace go owner dep v).0 ≡ none
        → walk_list reader namespace go owner (dep ∷ deps) v
          ≡ walk_list reader namespace go owner deps (visit reader namespace go owner dep v).1
    unfolding walk_list
    walk_list-on on = ground arith

    pub walk_list-stop :
        {cause : Cause}
        → (visit reader namespace go owner dep v).0 ≡ some cause
        → (walk_list reader namespace go owner (dep ∷ deps) v).0 ≢ none
    unfolding walk_list
    walk_list-stop stop h = ground arith
