-- ===== src/Tests/Views.antt =====
-- Runs of the theorems on the commands that show a place, a tree and a hierarchy.
use Prim.Native.Nat.{max}
use codequery.Prelude.{
  ℕ, zero, suc, List, [], ◌∷◌, ◌++◌, Option, none, some, Text, codes, length, ◌≡◌, ◌↔◌, refl, arith,
  ◌≤◌, if◌then◌else◌, nat_beq,
}
use codequery.Prelude.Decimal.{decimal}
use codequery.Core.Symbol.{
  Symbol, symbol, Symbols, nil, cons, SymbolFields, struct, function, public,
}
use codequery.Core.Language.{Language}
use codequery.Commands.Context.{parse_location, find_enclosing_chain, innermost}
use codequery.Commands.Context.Chain.{IsDeepest, find_enclosing_chain-IsDeepest}
use codequery.Commands.Context.Place.{parse_location-place}
use codequery.Commands.Context.Depth.{innermost-depth}
use codequery.Commands.Tree.{truncate_children}
use codequery.Commands.Tree.Levels.{IsPath, truncate_children-IsPath}
use codequery.Commands.Hierarchy.{
  SupertypeRelation, TypeHierarchyResult, relations_of, hierarchy_run,
}
use codequery.Commands.Hierarchy.Result.{IsHierarchy, hierarchy_run-IsHierarchy}
use codequery.Tests.Data.{scan, extraction}

-- A struct on the lines 1 to 9 with a method on the lines 3 to 5.
abbrev method_fields : SymbolFields
method_fields = record {
  name = codes "start";
  kind = function;
  file = codes "a.rs";
  line = 3;
  column = 3;
  end_line = 5;
  visibility = public;
  doc = none;
  body = none;
  signature = none;
}

abbrev struct_fields : SymbolFields
struct_fields = record {
  name = codes "Engine";
  kind = struct;
  file = codes "a.rs";
  line = 1;
  column = 0;
  end_line = 9;
  visibility = public;
  doc = none;
  body = none;
  signature = none;
}

abbrev start : Symbol
start = symbol method_fields nil

abbrev nested : Symbols
nested = cons (symbol struct_fields (cons start nil)) nil

found_chain : find_enclosing_chain nested 4 ≡ symbol struct_fields (cons start nil) ∷ start ∷ []
unfolding find_enclosing_chain codequery.Commands.Context.walk_symbols
found_chain = refl

not_found : find_enclosing_chain nested 10 ≡ []
unfolding find_enclosing_chain codequery.Commands.Context.walk_symbols
not_found = refl

no_file : parse_location (codes ":12") ≡ none
unfolding parse_location codequery.Commands.Context.rfind
no_file = refl

line_zero : parse_location (codes "a.rs:0") ≡ none
unfolding parse_location codequery.Commands.Context.rfind codequery.Prelude.Decimal.parse_usize
line_zero = refl

cut_to_one : truncate_children nested 1 0 ≡ cons (symbol struct_fields nil) nil
unfolding truncate_children
cut_to_one = refl

find_enclosing_chain-IsDeepest_example : IsDeepest 4 nested (find_enclosing_chain nested 4)
find_enclosing_chain-IsDeepest_example = find_enclosing_chain-IsDeepest nested 4

parse_location-place_example :
    parse_location (codes "a:b.rs" ++ b':' ∷ decimal 12) ≡ some (codes "a:b.rs", 12)
parse_location-place_example =
    parse_location-place b'a' (codes ":b.rs") 12 (omega arith) (omega arith)

innermost-depth_example :
    innermost (some 0) (start ∷ []) ≡ (if nat_beq 0 0 then none else innermost none (start ∷ []))
innermost-depth_example = innermost-depth start [] 0

truncate_children-IsPath_example :
    IsPath (truncate_children nested 1 1) (struct_fields ∷ method_fields ∷ []) ↔ (
      IsPath nested (struct_fields ∷ method_fields ∷ [])
      × (length (struct_fields ∷ method_fields ∷ []) ≤ max 1 1))
truncate_children-IsPath_example =
    truncate_children-IsPath nested 1 (struct_fields ∷ method_fields ∷ [])

-- The first file has `impl Run for Engine`.
abbrev relations : Text → ℕ → Text → Language → List SupertypeRelation
relations source (suc zero) file language =
    record { subtype = codes "Engine"; supertype = codes "Run"; file = file; line = 1 } ∷ []
relations source _ file language = []

hierarchy_run-IsHierarchy_example :
    (r : TypeHierarchyResult) × (hierarchy_run extraction relations
        (codes "/p")
        none
        (codes "Engine")
        scan
      ≡ some r)
    × IsHierarchy (codes "Engine") (relations_of extraction relations (codes "/p") none scan) r
hierarchy_run-IsHierarchy_example =
    hierarchy_run-IsHierarchy extraction relations (codes "/p") none (codes "Engine") scan
