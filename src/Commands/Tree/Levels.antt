-- ===== src/Commands/Tree/Levels.antt =====
-- What `tree` shows to a depth: the same nesting of symbols, cut below a level.
use Prim.Native.Nat.{max}
use codequery.Prelude.{
  ℕ, suc, ◌-◌, ◌≤◌, List, [], ◌∷◌, length, leb, ◌↔◌, arith, Bool-cases, inl, inr,
}
use codequery.Core.Symbol.{SymbolFields, Symbol, symbol, Symbols, nil, cons}
use codequery.Commands.Tree.{truncate_children, truncate_symbol}

-- A way down from one of the symbols, each step to a child, by the fields of the symbols met.
pub data IsPath : Symbols → List SymbolFields → Type 0 where
  ends : {ss : Symbols} → IsPath ss []
  down :
      {f : SymbolFields} {cs rest : Symbols} {path : List SymbolFields}
      → IsPath cs path
      → IsPath (cons (symbol f cs) rest) (f ∷ path)
  aside :
      {s : Symbol} {rest : Symbols} {path : List SymbolFields}
      → IsPath rest path
      → IsPath (cons s rest) path

IsPath-empty : (ss : Symbols) (path : List SymbolFields) → length path ≤ 0 → IsPath ss path
IsPath-empty ss [] h = ends
IsPath-empty ss (f ∷ path) h = absurd (omega arith)

IsPath-nil : {path : List SymbolFields} → IsPath nil path → length path ≤ 0
IsPath-nil ends = omega arith

IsPath-truncated :
    (ss : Symbols) (d m : ℕ) {path : List SymbolFields}
    → IsPath (truncate_children ss d m) path
    → IsPath ss path × (length path ≤ max 1 (suc m - d))
unfolding truncate_children truncate_symbol
IsPath-truncated nil d m ends = (ends, omega arith)
IsPath-truncated (cons (symbol f cs) rest) d m ends = (ends, omega arith)
IsPath-truncated (cons (symbol f cs) rest) d m (down {path} p) = elim (Bool-cases (leb m d)) [
  | inl cut ↦
      let short = IsPath-nil (rw cut at p) in (down (IsPath-empty cs path short), omega arith)
  | inr kept ↦ let (q, h) = IsPath-truncated cs (suc d) m (rw kept at p) in (down q, ground arith)
]
IsPath-truncated (cons (symbol f cs) rest) d m (aside p) =
    let (q, h) = IsPath-truncated rest d m p in (aside q, h)

truncated-IsPath :
    (d m : ℕ) {ss : Symbols} {path : List SymbolFields}
    → IsPath ss path
    → length path ≤ max 1 (suc m - d)
    → IsPath (truncate_children ss d m) path
unfolding truncate_children truncate_symbol
truncated-IsPath d m ends h = ends
truncated-IsPath d m (down {f} {cs} {rest} {path} p) h = elim (Bool-cases (leb m d)) [
  | inl cut ↦ rw cut (down (IsPath-empty nil path (ground arith)))
  | inr kept ↦ rw kept (down (truncated-IsPath (suc d) m p (ground arith)))
]
truncated-IsPath d m (aside p) h = aside (truncated-IsPath d m p h)

-- A way down is left by `truncate_children` if and only if it was there and meets no more symbols
-- than the depth, or than one where the depth is 0. The depth counts the nesting of symbols in a file,
-- and no directory.
pub truncate_children-IsPath :
    (ss : Symbols) (max_depth : ℕ) (path : List SymbolFields)
    → IsPath (truncate_children ss 1 max_depth) path
      ↔ (IsPath ss path × (length path ≤ max 1 max_depth))
truncate_children-IsPath ss max_depth path = (
  λ p. let (q, h) = IsPath-truncated ss 1 max_depth p in (q, omega arith),
  λ q. truncated-IsPath 1 max_depth q.0 (let h = q.1 in omega arith),
)
