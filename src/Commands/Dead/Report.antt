-- ===== src/Commands/Dead/Report.antt =====
-- Which symbols are reported as dead, and in which order.
use codequery.Prelude.{
  ℕ, ◌≤◌, List, Option, none, some, Text, codes, true, false, ◌==◌, text_eq, nat_eq, list_beq_iff,
  ◌≡◌, ◌≢◌, ◌↔◌, refl, arith, In, In-filter, filter-In, length, length-take-le,
}
use codequery.Prelude.Dict.{contains}
use codequery.Prelude.Sort.{In-sort_by, sort_by-In, IsSorted, sort_by-IsSorted, take-IsSorted}
use codequery.Prelude.Order.{
  Ordering, IsCmp, le_by, le_by-IsOrder, then_by-IsCmp, on-IsCmp, nat_cmp, nat_cmp-IsCmp,
}
use codequery.Core.Symbol.{
  Symbol, SymbolKind, kind_eq, kind_beq_iff, kind_of, name_of, file_of, fields, impl, test,
}
use codequery.Index.{FileSymbols}
use codequery.Index.SymbolIndex.Lookup.{flatten_scan, all_symbols-from_scan}
use codequery.Commands.{Extraction}
use codequery.Commands.Dead.{referenced_names, is_dead, by_file_line, dead_symbols}

-- What the report says of a symbol.
pub record IsUnused (kind_filter : Option SymbolKind) (referenced : List Text) (s : Symbol)
    : Type 0 where
  pub kind : (k : SymbolKind) → kind_filter ≡ some k → kind_of s ≡ k
  pub not_impl : kind_of s ≢ impl
  pub not_test : kind_of s ≢ test
  pub not_main : name_of s ≢ codes "main"
  pub unreferenced : contains (name_of s) referenced ≡ false

by_file_line-IsCmp :
    (path_cmp : Text → Text → Ordering) → IsCmp path_cmp → IsCmp (by_file_line path_cmp)
by_file_line-IsCmp path_cmp h =
    then_by-IsCmp _ _ (on-IsCmp path_cmp file_of h)
      (on-IsCmp nat_cmp (λ (s : Symbol). (fields s).line) nat_cmp-IsCmp)

module _ (referenced : List Text) (s : Symbol) where
  is_impl : (kind_of s == impl ≡ true) ↔ (kind_of s ≡ impl)
  is_impl = kind_beq_iff (kind_of s) impl

  is_test : (kind_of s == test ≡ true) ↔ (kind_of s ≡ test)
  is_test = kind_beq_iff (kind_of s) test

  is_main : (name_of s == codes "main" ≡ true) ↔ (name_of s ≡ codes "main")
  is_main = list_beq_iff nat_eq (name_of s) (codes "main")

  is_dead→IsUnused :
      (kf : Option SymbolKind) → is_dead kf referenced s ≡ true → IsUnused kf referenced s
  unfolding is_dead
  is_dead→IsUnused none h = record {
    kind = λ k e. cc;
    not_impl = λ e. ground (arith, is_impl);
    not_test = λ e. ground (arith, is_test);
    not_main = λ e. ground (arith, is_main);
    unreferenced = ground arith;
  }
  is_dead→IsUnused (some j) h = record {
    kind = λ k e. ground (arith, kind_beq_iff (kind_of s) j);
    not_impl = λ e. ground (arith, is_impl);
    not_test = λ e. ground (arith, is_test);
    not_main = λ e. ground (arith, is_main);
    unreferenced = ground arith;
  }

  IsUnused→is_dead :
      (kf : Option SymbolKind) → IsUnused kf referenced s → is_dead kf referenced s ≡ true
  unfolding is_dead
  IsUnused→is_dead none u =
      ground (arith, is_impl, is_test, is_main, u.not_impl, u.not_test, u.not_main, u.unreferenced)
  IsUnused→is_dead (some k) u = ground (
    arith,
    is_impl,
    is_test,
    is_main,
    u.not_impl,
    u.not_test,
    u.not_main,
    u.unreferenced,
    kind_beq_iff (kind_of s) k,
    u.kind k refl,
  )

module _ {Tree : Type 0} (x : Extraction Tree) (path_cmp : Text → Text → Ordering) (root : Text)
    (kind_filter : Option SymbolKind) (scan : List (FileSymbols Tree)) where
  -- Without a limit, the report lists a symbol exactly when it is one of the scanned symbols,
  -- nested ones included, has the kind of the filter if there is one, is no impl block, no test
  -- and not `main`, and its name is not among the referenced names.
  pub dead_symbols_iff :
      (s : Symbol)
      → In s (dead_symbols x path_cmp root kind_filter none scan)
        ↔ (In s (flatten_scan scan) × IsUnused kind_filter (referenced_names x root scan) s)
  unfolding dead_symbols
  dead_symbols_iff s =
      let names = referenced_names x root scan in
      (
        λ m.
            let (there_is, dead) = filter-In (is_dead kind_filter names) _ (sort_by-In _ _ m) in
            (rw (← all_symbols-from_scan scan) there_is, is_dead→IsUnused names s kind_filter dead),
        λ h. In-sort_by _ (
            In-filter (is_dead kind_filter names) (rw (all_symbols-from_scan scan) h.0)
              (IsUnused→is_dead names s kind_filter h.1)),
      )

  -- With or without a limit, the report is sorted by file and then by line, if the order on paths
  -- is an order, and a limit bounds its length.
  pub dead_symbols-IsSorted :
      (limit : Option ℕ)
      → IsCmp path_cmp
      → IsSorted
          (le_by (by_file_line path_cmp))
          (dead_symbols x path_cmp root kind_filter limit scan)
        × ((n : ℕ)
            → limit ≡ some n
            → length (dead_symbols x path_cmp root kind_filter limit scan) ≤ n)
  unfolding dead_symbols
  dead_symbols-IsSorted none h =
      (sort_by-IsSorted _ (le_by-IsOrder _ (by_file_line-IsCmp path_cmp h)) _, λ n e. cc)
  dead_symbols-IsSorted (some k) h = (
    take-IsSorted _ k _ (sort_by-IsSorted _ (le_by-IsOrder _ (by_file_line-IsCmp path_cmp h)) _),
    λ n e. let same : k ≡ n = cc in rw (← same) (length-take-le k _),
  )
