-- ===== src/Commands/Hierarchy/Names.antt =====
-- The names that `hierarchy` gives above and below a type are those of the relations.
use codequery.Prelude.{
  List, [], ◌∷◌, ◌++◌, append_assoc, append-nil, Option, some, Text, Bool, ◌==◌, text_eq, ◌>>=◌,
  map, filter, All, ◌≡◌, refl, sym, ap, ◌∙◌, inl, inr, arith, Bool-cases,
}
use codequery.Core.Symbol.{Symbol, SymbolKind, name_of, struct, trait}
use codequery.Index.{FileSymbols}
use codequery.Index.SymbolIndex.{from_scan}
use codequery.Index.SymbolIndex.Lookup.{flatten_scan, find_by_name-from_scan}
use codequery.Commands.Hierarchy.{
  TypeHierarchyNode, SupertypeRelation, Found, node_or, push_supertype, push_subtype, add_relation,
  add_relations,
}

-- The names above a type, and those below it, in the order of the relations.
abbrev pub above : Text → List SupertypeRelation → List Text
above query relations = map (λ r. r.supertype) (filter (λ r. r.subtype == query) relations)

abbrev pub below : Text → List SupertypeRelation → List Text
below query relations = map (λ r. r.subtype) (filter (λ r. r.supertype == query) relations)

abbrev pub names : List TypeHierarchyNode → List Text
names nodes = map (λ n. n.name) nodes

abbrev pub Named : Text → List Symbol → Type 0
Named name defs = All (λ s. name_of s ≡ name) defs

pub Named-filter_name :
    (name : Text) (xs : List Symbol) → Named name (filter (λ s. name_of s == name) xs)
Named-filter_name name [] = tt
Named-filter_name name (x ∷ xs) = elim (Bool-cases (name_of x == name)) [
  | inl e ↦ rw e ((text_eq.beq_iff _ _).0 e, Named-filter_name name xs)
  | inr e ↦ rw e (Named-filter_name name xs)
]

pub Named-filter :
    (name : Text) (p : Symbol → Bool) (xs : List Symbol) → Named name xs → Named name (filter p xs)
Named-filter name p [] h = tt
Named-filter name p (x ∷ xs) h = elim (Bool-cases (p x)) [
  | inl e ↦ rw e (h.0, Named-filter name p xs h.1)
  | inr e ↦ rw e (Named-filter name p xs h.1)
]

node_or-name :
    (kind : SymbolKind) (name : Text) (rel : SupertypeRelation) (defs : List Symbol)
    → Named name defs
    → (node_or kind name rel defs).name ≡ name
node_or-name kind name rel [] h = refl
node_or-name kind name rel (d ∷ defs) h = h.0

-- What is found grows by names in both directions, and no index goes out of bounds.
pub record Grows (ups downs : List Text) (st : Found) (o : Option Found) : Type 0 where
  pub grown : Found
  pub result : o ≡ some grown
  pub up : names grown.supertypes ≡ names st.supertypes ++ ups
  pub down : names grown.subtypes ≡ names st.subtypes ++ downs

names-concat :
    (nodes : List TypeHierarchyNode) (n : TypeHierarchyNode) {name : Text}
    → n.name ≡ name
    → names (nodes ++ n ∷ []) ≡ names nodes ++ name ∷ []
names-concat [] n e = ap (λ m. m ∷ []) e
names-concat (m ∷ nodes) n e = ap (λ ms. m.name ∷ ms) (names-concat nodes n e)

module _ {Tree : Type 0} (scan : List (FileSymbols Tree)) where
  Grows-supertype :
      (rel : SupertypeRelation) (st : Found)
      → Grows (rel.supertype ∷ []) [] st (push_supertype (from_scan scan) rel st)
  Grows-supertype rel st =
      let name = rel.supertype in
      let defs = filter (λ s. name_of s == name) (flatten_scan scan) in
      record {
        grown = record {
          supertypes = st.supertypes ++ node_or trait name rel defs ∷ [];
          subtypes = st.subtypes;
        };
        result = rw (find_by_name-from_scan scan name) refl;
        up =
            names-concat st.supertypes _
              (node_or-name trait name rel defs (Named-filter_name name (flatten_scan scan)));
        down = sym (append-nil _);
      }

  Grows-subtype :
      (rel : SupertypeRelation) (st : Found)
      → Grows [] (rel.subtype ∷ []) st (push_subtype (from_scan scan) rel st)
  Grows-subtype rel st =
      let name = rel.subtype in
      let defs = filter (λ s. name_of s == name) (flatten_scan scan) in
      record {
        grown = record {
          supertypes = st.supertypes;
          subtypes = st.subtypes ++ node_or struct name rel defs ∷ [];
        };
        result = rw (find_by_name-from_scan scan name) refl;
        up = sym (append-nil _);
        down =
            names-concat st.subtypes _
              (node_or-name struct name rel defs (Named-filter_name name (flatten_scan scan)));
      }

Grows-some : (st : Found) → Grows [] [] st (some st)
Grows-some st = record {
  grown = st;
  result = refl;
  up = sym (append-nil _);
  down = sym (append-nil _);
}

Grows-bind :
    {u d u' d' : List Text} {st : Found} {o : Option Found} {k : Found → Option Found}
    → Grows u d st o
    → ((mid : Found) → Grows u' d' mid (k mid))
    → Grows (u ++ u') (d ++ d') st (o >>= k)
Grows-bind {u} {d} {u'} {d'} {st} g h =
    let next = h g.grown in
    record {
      grown = next.grown;
      result = rw (g.result) next.result;
      up = next.up ∙ ap (λ a. a ++ u') g.up ∙ append_assoc _ u u';
      down = next.down ∙ ap (λ a. a ++ d') g.down ∙ append_assoc _ d d';
    }

module _ {Tree : Type 0} (scan : List (FileSymbols Tree)) (query : Text) where
  Grows-relation :
      (rel : SupertypeRelation) (st : Found)
      → Grows
          (above query (rel ∷ []))
          (below query (rel ∷ []))
          st
          (add_relation (from_scan scan) query rel st)
  unfolding add_relation
  Grows-relation rel st =
      let up_case = Bool-cases (rel.subtype == query) in
      let down_case = Bool-cases (rel.supertype == query) in
      elim up_case [
        | inl u ↦ elim down_case [
          | inl d ↦
              rw (u, d)
                (Grows-bind (Grows-supertype scan rel st) (λ mid. Grows-subtype scan rel mid))
          | inr d ↦ rw (u, d) (Grows-bind (Grows-supertype scan rel st) Grows-some)
        ]
        | inr u ↦ elim down_case [
          | inl d ↦ rw (u, d) (Grows-subtype scan rel st)
          | inr d ↦ rw (u, d) (Grows-some st)
        ]
      ]

  above-cons :
      (rel : SupertypeRelation) (relations : List SupertypeRelation)
      → above query (rel ∷ []) ++ above query relations ≡ above query (rel ∷ relations)
  above-cons rel relations = ground arith

  below-cons :
      (rel : SupertypeRelation) (relations : List SupertypeRelation)
      → below query (rel ∷ []) ++ below query relations ≡ below query (rel ∷ relations)
  below-cons rel relations = ground arith

  -- The names that are found are those of the relations, in their order.
  pub Grows-relations :
      (relations : List SupertypeRelation) (st : Found)
      → Grows
          (above query relations)
          (below query relations)
          st
          (add_relations (from_scan scan) query relations st)
  unfolding add_relations
  Grows-relations [] st = Grows-some st
  Grows-relations (rel ∷ relations) st =
      rw (← above-cons rel relations, ← below-cons rel relations)
        (Grows-bind (Grows-relation rel st) (Grows-relations relations))
