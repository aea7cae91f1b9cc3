-- ===== src/Commands/Rename/Collect/Ascending.antt =====
-- The edits that a rename passes on stand in strict order, so each file's edits can be applied.
use codequery.Prelude.{
  List, [], ◌∷◌, Text, true, false, ◌≡◌, arith, All, All-mono, filter, Bool-cases, inl, inr, nat_eq,
  text_eq, sym, ◌∙◌, ◌==◌,
}
use codequery.Prelude.Sort.{sort_by, IsSorted, sort_by-IsSorted}
use codequery.Prelude.Order.{
  Ordering, IsCmp, le_by, le_by-IsOrder, then_by-IsCmp, on-IsCmp, nat_cmp, nat_cmp-IsCmp,
}
use codequery.Commands.Rename.{TextEdit}
use codequery.Commands.Rename.File.{Before, IsAscending}
use codequery.Commands.Rename.Collect.{
  by_position, same_position, dedup_after, dedup_by, order_edits,
}

module _ (path_cmp : Text → Text → Ordering) (h : IsCmp path_cmp) where
  position-IsCmp : IsCmp (by_position path_cmp)
  position-IsCmp = then_by-IsCmp _ _ (on-IsCmp path_cmp (λ (e : TextEdit). e.file) h) (
      then_by-IsCmp _ _ (on-IsCmp nat_cmp (λ (e : TextEdit). e.line) nat_cmp-IsCmp)
        (on-IsCmp nat_cmp (λ (e : TextEdit). e.column) nat_cmp-IsCmp))

  abbrev Less : TextEdit → TextEdit → Type 0
  Less e f = by_position path_cmp e f ≡ Ordering.lt

  abbrev IsStrict : List TextEdit → Type 0
  IsStrict [] = Unit
  IsStrict (e ∷ es) = All (Less e) es × IsStrict es

  -- Not greater and not at the same position is less.
  Less-of :
      (e f : TextEdit)
      → le_by (by_position path_cmp) e f ≡ true
      → same_position path_cmp f e ≡ false
      → Less e f
  Less-of e f p q = ground (arith, h.swap e.file f.file)

  dedup_after-Less :
      (e : TextEdit) (es : List TextEdit)
      → All (λ f. le_by (by_position path_cmp) e f ≡ true) es
      → IsSorted (le_by (by_position path_cmp)) es
      → All (Less e) (dedup_after (same_position path_cmp) e es)
        × IsStrict (dedup_after (same_position path_cmp) e es)
  unfolding dedup_after
  dedup_after-Less e [] a s = (tt, tt)
  dedup_after-Less e (f ∷ es) a s = elim (Bool-cases (same_position path_cmp f e)) [
    | inl same ↦ rw same (dedup_after-Less e es a.1 s.1)
    | inr other ↦
        let less = Less-of e f a.0 other in
        let (la, ls) = dedup_after-Less f es s.0 s.1 in
        rw other (
          (less, All-mono (Less f) (Less e) _ (λ g m. position-IsCmp.trans e f g less m) la),
          (la, ls),
        )
  ]

  dedup_by-IsStrict :
      (es : List TextEdit)
      → IsSorted (le_by (by_position path_cmp)) es
      → IsStrict (dedup_by (same_position path_cmp) es)
  unfolding dedup_by
  dedup_by-IsStrict [] s = tt
  dedup_by-IsStrict (e ∷ es) s = dedup_after-Less e es s.0 s.1

  order_edits-IsStrict : (es : List TextEdit) → IsStrict (order_edits path_cmp es)
  unfolding order_edits
  order_edits-IsStrict es =
      dedup_by-IsStrict (sort_by (le_by (by_position path_cmp)) es)
        (sort_by-IsSorted _ (le_by-IsOrder _ position-IsCmp) es)

  same_path : (a b : Text) → a ≡ b → path_cmp a b ≡ Ordering.eq
  same_path a b p = rw p (ground (arith, h.swap b b))

  module _ (file : Text) where
    -- Within one file, the smaller position stands before.
    Before-of-Less : (e f : TextEdit) → e.file ≡ file → f.file ≡ file → Less e f → Before e f
    Before-of-Less e f p q l = ground (arith, same_path e.file f.file (p ∙ sym q))

    kept_Before :
        (e : TextEdit) (es : List TextEdit)
        → e.file ≡ file
        → All (Less e) es
        → All (Before e) (filter (λ f. f.file == file) es)
    kept_Before e [] p a = tt
    kept_Before e (f ∷ es) p a = elim (Bool-cases (f.file == file)) [
      | inl same ↦
          rw same (Before-of-Less e f p ((text_eq.beq_iff _ _).0 same) a.0, kept_Before e es p a.1)
      | inr other ↦ rw other (kept_Before e es p a.1)
    ]

    filter-IsAscending :
        (es : List TextEdit) → IsStrict es → IsAscending (filter (λ f. f.file == file) es)
    filter-IsAscending [] s = tt
    filter-IsAscending (e ∷ es) s = elim (Bool-cases (e.file == file)) [
      | inl same ↦
          rw same (kept_Before e es ((text_eq.beq_iff _ _).0 same) s.0, filter-IsAscending es s.1)
      | inr other ↦ rw other (filter-IsAscending es s.1)
    ]

    -- Whatever edits are collected, after the sort and the removal of duplicates the edits of each
    -- file stand in strict order of line and column, where the order on paths is a total order.
    pub order_edits-IsAscending :
        (es : List TextEdit) → IsAscending (filter (λ e. e.file == file) (order_edits path_cmp es))
    order_edits-IsAscending es = filter-IsAscending _ (order_edits-IsStrict es)
