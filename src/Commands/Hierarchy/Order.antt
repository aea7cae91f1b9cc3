-- ===== src/Commands/Hierarchy/Order.antt =====
-- The names above and below a type come in order, each once.
use codequery.Prelude.{
  List, [], ◌∷◌, Bool, Text, true, false, ◌==◌, text_eq, All, All-mono, ◌≡◌, arith, Bool-cases, inl,
  inr,
}
use codequery.Prelude.Sort.{sort_by, IsSorted, sort_by-IsSorted}
use codequery.Prelude.Order.{Ordering, on, on-IsCmp, le_by, le_by-IsOrder, not_gt}
use codequery.Prelude.TextOrder.{text_cmp, text_cmp-IsCmp, text_cmp_eq}
use codequery.Commands.Hierarchy.{TypeHierarchyNode, dedup_named_after, dedup_by_name, sorted_names}

abbrev Below : Text → TypeHierarchyNode → Type 0
Below name n = text_cmp name n.name ≡ Ordering.lt

-- Each name before all that follow it.
abbrev pub AreAscending : List TypeHierarchyNode → Type 0
AreAscending [] = Unit
AreAscending (n ∷ nodes) =
    All (λ m. text_cmp n.name m.name ≡ Ordering.lt) nodes × AreAscending nodes

abbrev le : TypeHierarchyNode → TypeHierarchyNode → Bool
le = le_by (on text_cmp (λ n. n.name))

lt-le_ne :
    (a : Text) (n : TypeHierarchyNode)
    → not_gt (text_cmp a n.name) ≡ true
    → n.name == a ≡ false
    → text_cmp a n.name ≡ Ordering.lt
lt-le_ne a n h k = ground (arith, text_cmp_eq a n.name, text_eq.beq_iff n.name a)

dedup_named_after-AreAscending :
    (previous : Text) (nodes : List TypeHierarchyNode)
    → All (λ n. not_gt (text_cmp previous n.name) ≡ true) nodes
    → IsSorted le nodes
    → All (Below previous) (dedup_named_after previous nodes)
      × AreAscending (dedup_named_after previous nodes)
dedup_named_after-AreAscending previous [] h s = (tt, tt)
dedup_named_after-AreAscending previous (x ∷ nodes) h s = elim (Bool-cases (x.name == previous)) [
  | inl e ↦ rw e (dedup_named_after-AreAscending previous nodes h.1 s.1)
  | inr e ↦
      let (up, rest) = dedup_named_after-AreAscending x.name nodes s.0 s.1 in
      let first = lt-le_ne previous x h.0 e in
      rw e (
        (
          first,
          All-mono (Below x.name) (Below previous) (dedup_named_after x.name nodes)
              (λ n k. text_cmp-IsCmp.trans previous x.name n.name first k) up,
        ),
        (up, rest),
      )
]

dedup_by_name-AreAscending :
    (nodes : List TypeHierarchyNode) → IsSorted le nodes → AreAscending (dedup_by_name nodes)
dedup_by_name-AreAscending [] s = tt
dedup_by_name-AreAscending (x ∷ nodes) s = dedup_named_after-AreAscending x.name nodes s.0 s.1

pub sorted_names-AreAscending : (nodes : List TypeHierarchyNode) → AreAscending (sorted_names nodes)
sorted_names-AreAscending nodes = dedup_by_name-AreAscending (sort_by le nodes) (
    sort_by-IsSorted le
      (le_by-IsOrder _ (on-IsCmp text_cmp (λ (n : TypeHierarchyNode). n.name) text_cmp-IsCmp))
      nodes)
