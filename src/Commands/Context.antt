-- ===== src/Commands/Context.antt =====
-- crates/codequery-cli/src/commands/context.rs: the place given on the command line, and the chain of
-- the symbols around it. A colon is one byte, so that its position in the text is that of the source.
pub mod Chain
pub mod Depth
pub mod Place
use codequery.Prelude.{
  ℕ, suc, ◌+◌, ◌-◌, List, [], ◌∷◌, ◌++◌, Option, none, some, Text, Bool, ◌&&◌, if◌then◌else◌, leb,
  ltb, nat_beq, length, drop, take, ◌>>=◌,
}
use codequery.Prelude.Decimal.{ParsedInt, number, invalid, parse_usize}
use codequery.Core.Symbol.{Symbol, symbol, Symbols, nil, cons, SymbolFields}

abbrev from_next : Bool → Option ℕ → Option ℕ
from_next here (some p) = some (suc p)
from_next here none = if here then some 0 else none

-- `str::rfind`
unfoldable pub rfind : ℕ → Text → Option ℕ
rfind c [] = none
rfind c (x ∷ s) = from_next (nat_beq x c) (rfind c s)

abbrev file_line : Text → ParsedInt → Option (Text × ℕ)
file_line file_part (invalid message) = none
file_line file_part (number line) = if nat_beq line 0 then none else some (file_part, line)

abbrev split_at : Text → ℕ → Option (Text × ℕ)
split_at location colon_pos =
    let place = file_line (take colon_pos location) (parse_usize (drop (colon_pos + 1) location)) in
    if nat_beq colon_pos 0 then none else place

unfoldable pub parse_location : Text → Option (Text × ℕ)
parse_location location = do colon_pos ← rfind b':' location; split_at location colon_pos

abbrev pub encloses : ℕ → SymbolFields → Bool
encloses target_line f = leb f.line target_line && leb target_line f.end_line

abbrev pub longer : List Symbol → List Symbol → List Symbol
longer current_chain best_chain =
    if ltb (length best_chain) (length current_chain) then current_chain else best_chain

-- `current_chain` is pushed before the recursion and popped after it, and is therefore an argument;
-- the result is what `best_chain` has become.
unfoldable mutual
  pub walk_symbols : Symbols → ℕ → List Symbol → List Symbol → List Symbol
  walk_symbols nil target_line current_chain best_chain = best_chain
  walk_symbols (cons s rest) target_line current_chain best_chain =
      walk_symbols rest target_line current_chain
        (walk_symbol s target_line current_chain best_chain)

  -- the body of the loop
  pub walk_symbol : Symbol → ℕ → List Symbol → List Symbol → List Symbol
  walk_symbol (symbol f cs) target_line current_chain best_chain =
      let pushed = current_chain ++ symbol f cs ∷ [] in
      let deeper = walk_symbols cs target_line pushed (longer pushed best_chain) in
      if encloses target_line f then deeper else best_chain

unfoldable pub find_enclosing_chain : Symbols → ℕ → List Symbol
find_enclosing_chain symbols target_line = walk_symbols symbols target_line [] []

-- The levels that are kept of a chain that is not empty, and the last of them; `none` is the panic of
-- its `expect`.
abbrev pub shown_levels : Option ℕ → List Symbol → List Symbol
shown_levels none context_chain = drop (length context_chain - 1) context_chain
shown_levels (some d) context_chain = drop (length context_chain - d) context_chain

abbrev pub last : List Symbol → Option Symbol
last [] = none
last (s ∷ []) = some s
last (_ ∷ t ∷ chain) = last (t ∷ chain)

unfoldable pub innermost : Option ℕ → List Symbol → Option Symbol
innermost depth context_chain = last (shown_levels depth context_chain)
