-- ===== src/Commands/Hierarchy/Result.antt =====
-- What `hierarchy` gives: the target, and the names above and below it, each once.
use codequery.Prelude.{
  List, [], ◌∷◌, Bool, Option, some, Text, ◌==◌, text_eq, map, head?, filter, In, here, there, ◌≡◌,
  refl, ◌⊎◌, inl, inr, ◌↔◌, Bool-cases,
}
use codequery.Prelude.Sort.{sort_by, In-sort_by, sort_by-In}
use codequery.Prelude.Order.{on, le_by}
use codequery.Prelude.TextOrder.{text_cmp}
use codequery.Core.Language.{Language}
use codequery.Core.Symbol.{Symbol, name_of}
use codequery.Index.{FileSymbols}
use codequery.Index.SymbolIndex.Lookup.{flatten_scan, find_by_name-from_scan}
use codequery.Commands.{Extraction}
use codequery.Commands.Hierarchy.{
  TypeHierarchyNode, TypeHierarchyResult, SupertypeRelation, target_of_definitions, is_type_like,
  or_first, or_external, dedup_named_after, dedup_by_name, relations_of, hierarchy_run,
  sorted_names,
}
use codequery.Commands.Hierarchy.Order.{AreAscending, sorted_names-AreAscending}
use codequery.Commands.Hierarchy.Names.{
  names, above, below, Named, Named-filter, Named-filter_name, Grows-relations,
}

module _ {ℓ κ} {A : Type ℓ} {B : Type κ} (f : A → B) where
  In-map : {a : A} {xs : List A} → In a xs → In (f a) (map f xs)
  In-map here = here
  In-map (there m) = there (In-map m)

  map-In : (xs : List A) {b : B} → In b (map f xs) → (a : A) × In a xs × (f a ≡ b)
  map-In [] m = elim m [ ]
  map-In (x ∷ xs) here = (x, here, refl)
  map-In (x ∷ xs) (there m) = let (a, i, e) = map-In xs m in (a, there i, e)

In-cons_mono {ℓ} :
    {A : Type ℓ} {a x : A} {xs ys : List A} → (In a xs → In a ys) → In a (x ∷ xs) → In a (x ∷ ys)
In-cons_mono f here = here
In-cons_mono f (there m) = there (f m)

dedup_named_after-In :
    (previous : Text) (nodes : List TypeHierarchyNode) {n : Text}
    → In n (names (dedup_named_after previous nodes))
    → In n (names nodes)
dedup_named_after-In previous [] m = m
dedup_named_after-In previous (x ∷ nodes) m = elim (Bool-cases (x.name == previous)) [
  | inl e ↦ there (dedup_named_after-In previous nodes (rw e at m))
  | inr e ↦ In-cons_mono (dedup_named_after-In x.name nodes) (rw e at m)
]

In-dedup_named_after :
    (previous : Text) (nodes : List TypeHierarchyNode) {n : Text}
    → In n (names nodes)
    → (n ≡ previous) ⊎ In n (names (dedup_named_after previous nodes))
In-dedup_named_after previous [] m = inr m
In-dedup_named_after previous (x ∷ nodes) here = elim (Bool-cases (x.name == previous)) [
  | inl e ↦ inl ((text_eq.beq_iff _ _).0 e)
  | inr e ↦ rw e (inr here)
]
In-dedup_named_after previous (x ∷ nodes) (there m) = elim (Bool-cases (x.name == previous)) [
  | inl e ↦ rw e (In-dedup_named_after previous nodes m)
  | inr e ↦ rw e (elim (In-dedup_named_after x.name nodes m) [
    | inl same ↦ rw same (inr here)
    | inr later ↦ inr (there later)
  ])
]

In-dedup_first :
    (x : TypeHierarchyNode) (nodes : List TypeHierarchyNode) {n : Text}
    → In n (x.name ∷ names nodes)
    → In n (x.name ∷ names (dedup_named_after x.name nodes))
In-dedup_first x nodes here = here
In-dedup_first x nodes (there m) = elim (In-dedup_named_after x.name nodes m) [
  | inl same ↦ rw same here
  | inr later ↦ there later
]

names-dedup_by_name :
    (nodes : List TypeHierarchyNode) (n : Text)
    → In n (names (dedup_by_name nodes)) ↔ In n (names nodes)
names-dedup_by_name [] n = (λ m. m, λ m. m)
names-dedup_by_name (x ∷ nodes) n =
    (In-cons_mono (dedup_named_after-In x.name nodes), In-dedup_first x nodes)

names-sort_by :
    (le : TypeHierarchyNode → TypeHierarchyNode → Bool) (nodes : List TypeHierarchyNode) (n : Text)
    → In n (names (sort_by le nodes)) ↔ In n (names nodes)
names-sort_by le nodes n = (
  λ m.
      let (a, i, e) = map-In (λ x. x.name) (sort_by le nodes) m in
      rw (← e) (In-map (λ x. x.name) (sort_by-In le nodes i)),
  λ m.
      let (a, i, e) = map-In (λ x. x.name) nodes m in
      rw (← e) (In-map (λ x. x.name) (In-sort_by le i)),
)

target-cases :
    (query : Text) (typed defs : List Symbol)
    → Named query typed
    → Named query defs
    → (or_external query (or_first (head? typed) (head? defs))).name ≡ query
target-cases query [] [] t h = refl
target-cases query [] (d ∷ defs) t h = h.0
target-cases query (d ∷ typed) defs t h = t.0

target-name :
    (query : Text) (defs : List Symbol)
    → Named query defs
    → (target_of_definitions query defs).name ≡ query
unfolding target_of_definitions
target-name query defs h =
    let typed = filter is_type_like defs in
    let typed_named = Named-filter query is_type_like defs h in
    target-cases query typed defs typed_named h

-- What `hierarchy` is to give for a query and the relations of a project.
pub record IsHierarchy (query : Text) (relations : List SupertypeRelation) (r : TypeHierarchyResult)
    : Type 0 where
  pub target : r.target.name ≡ query
  pub supertypes : (n : Text) → In n (names r.supertypes) ↔ In n (above query relations)
  pub supertypes_ascending : AreAscending r.supertypes
  pub subtypes : (n : Text) → In n (names r.subtypes) ↔ In n (below query relations)
  pub subtypes_ascending : AreAscending r.subtypes

names-sorted_names :
    (nodes : List TypeHierarchyNode) {ns : List Text}
    → names nodes ≡ ns
    → (n : Text) → In n (names (sorted_names nodes)) ↔ In n ns
names-sorted_names nodes e n =
    let le = le_by (on text_cmp (λ (x : TypeHierarchyNode). x.name)) in
    let (to, from) = names-sort_by le nodes n in
    let (drop_to, drop_from) = names-dedup_by_name (sort_by le nodes) n in
    rw (← e) (λ m. to (drop_to m), λ m. drop_from (from m))

module _ {Tree : Type 0} (x : Extraction Tree)
    (extract_supertype_relations : Text → Tree → Text → Language → List SupertypeRelation)
    (root : Text) (lang_filter : Option Language) (query : Text)
    (scan : List (FileSymbols Tree)) where
  -- For any query and scan the command gives a result and no index goes out of bounds; the target has
  -- the name that was asked for, and the names above and below it are exactly those that a relation
  -- of a file that passes the language filter gives, each once and in ascending order.
  pub hierarchy_run-IsHierarchy :
      (r : TypeHierarchyResult) × (hierarchy_run x extract_supertype_relations root lang_filter
          query scan
        ≡ some r)
      × IsHierarchy query (relations_of x extract_supertype_relations root lang_filter scan) r
  unfolding hierarchy_run
  hierarchy_run-IsHierarchy =
      let relations = relations_of x extract_supertype_relations root lang_filter scan in
      let g = Grows-relations scan query relations (record { supertypes = []; subtypes = [] }) in
      let defs = filter (λ s. name_of s == query) (flatten_scan scan) in
      (
        record {
          target = target_of_definitions query defs;
          supertypes = sorted_names g.grown.supertypes;
          subtypes = sorted_names g.grown.subtypes;
        },
        rw (find_by_name-from_scan scan query, g.result) refl,
        record {
          target = target-name query defs (Named-filter_name query (flatten_scan scan));
          supertypes = names-sorted_names g.grown.supertypes g.up;
          supertypes_ascending = sorted_names-AreAscending g.grown.supertypes;
          subtypes = names-sorted_names g.grown.subtypes g.down;
          subtypes_ascending = sorted_names-AreAscending g.grown.subtypes;
        },
      )
