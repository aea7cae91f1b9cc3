-- ===== src/Commands/Context/Chain.antt =====
-- The chain that `find_enclosing_chain` gives is nested, and none around the line is longer.
use codequery.Prelude.{
  ℕ, ◌≤◌, List, [], ◌∷◌, ◌++◌, append_assoc, append-nil, true, ltb, if◌then◌else◌, length,
  length-append, ◌≡◌, refl, sym, ap, ◌∙◌, arith, Bool-cases, inl, inr,
}
use codequery.Core.Symbol.{Symbol, symbol, Symbols, nil, cons, SymbolFields}
use codequery.Commands.Context.{encloses, longer, walk_symbols, walk_symbol, find_enclosing_chain}

-- Symbols around a line, each a child of the one before it, the first among those given.
pub data IsNested (t : ℕ) : Symbols → List Symbol → Type 0 where
  stop : {ss : Symbols} → IsNested t ss []
  enter :
      {f : SymbolFields} {cs rest : Symbols} {chain : List Symbol}
      → encloses t f ≡ true
      → IsNested t cs chain
      → IsNested t (cons (symbol f cs) rest) (symbol f cs ∷ chain)
  pass :
      {s : Symbol} {rest : Symbols} {chain : List Symbol}
      → IsNested t rest chain
      → IsNested t (cons s rest) chain

-- The first of the longest chains.
mutual
  deepest : ℕ → Symbols → List Symbol
  deepest t nil = []
  deepest t (cons s rest) = longer (deepest t rest) (deepest_in t s)

  deepest_in : ℕ → Symbol → List Symbol
  deepest_in t (symbol f cs) =
      let below = deepest t cs in if encloses t f then symbol f cs ∷ below else []

deepest-IsNested : (t : ℕ) (ss : Symbols) → IsNested t ss (deepest t ss)
unfolding deepest deepest_in
deepest-IsNested t nil = stop
deepest-IsNested t (cons (symbol f cs) rest) =
    let later = deepest-IsNested t rest in
    let below = deepest-IsNested t cs in
    elim (Bool-cases (ltb (length (deepest_in t (symbol f cs))) (length (deepest t rest)))) [
      | inl l ↦ rw l (pass later)
      | inr l ↦ rw l (elim (Bool-cases (encloses t f)) [
        | inl inside ↦ rw inside (enter inside below)
        | inr outside ↦ rw outside stop
      ])
    ]

deepest-longest :
    (t : ℕ) {ss : Symbols} {chain : List Symbol}
    → IsNested t ss chain
    → length chain ≤ length (deepest t ss)
unfolding deepest deepest_in
deepest-longest t stop = omega arith
deepest-longest t (enter {f} {cs} {rest} {chain} h n) = ground (arith, deepest-longest t n)
deepest-longest t (pass {s} {rest} {chain} n) = ground (arith, deepest-longest t n)

longer-append :
    (current a b best : List Symbol)
    → longer (current ++ a) (longer (current ++ b) best) ≡ longer (current ++ longer a b) best
longer-append current a b best =
    let la = length-append current a in let lb = length-append current b in ground arith

longer-deeper :
    (pushed below best : List Symbol)
    → longer (pushed ++ below) (longer pushed best) ≡ longer (pushed ++ below) best
longer-deeper pushed [] best = rw append-nil (ground arith)
longer-deeper pushed (s ∷ below) best = let l = length-append pushed (s ∷ below) in ground arith

longer-left : (a best : List Symbol) → length a ≤ length (longer a best)
longer-left a best = ground arith

longer-right : (a best : List Symbol) → length best ≤ length (longer a best)
longer-right a best = ground arith

longer-same : (a best : List Symbol) → length a ≤ length best → longer a best ≡ best
longer-same a best h = ground arith

longer-nil : (a : List Symbol) → longer a [] ≡ a
longer-nil [] = refl
longer-nil (s ∷ a) = ground arith

-- Below `current`, the walk keeps the best chain unless one that goes on from `current` is longer.
mutual
  unfolding deepest deepest_in walk_symbols walk_symbol

  walk_symbols-deepest :
      (t : ℕ) (ss : Symbols) (current best : List Symbol)
      → length current ≤ length best
      → walk_symbols ss t current best ≡ longer (current ++ deepest t ss) best
  walk_symbols-deepest t nil current best h = sym (rw append-nil (longer-same current best h))
  walk_symbols-deepest t (cons s rest) current best h =
      let first = walk_symbol-deepest t s current best h in
      let wide : length current ≤ length (longer (current ++ deepest_in t s) best) =
        ground (arith, longer-right (current ++ deepest_in t s) best) in
      rw first (
        walk_symbols-deepest t rest current (longer (current ++ deepest_in t s) best) wide
        ∙ longer-append current (deepest t rest) (deepest_in t s) best)

  walk_symbol-deepest :
      (t : ℕ) (s : Symbol) (current best : List Symbol)
      → length current ≤ length best
      → walk_symbol s t current best ≡ longer (current ++ deepest_in t s) best
  walk_symbol-deepest t (symbol f cs) current best h = elim (Bool-cases (encloses t f)) [
    | inl inside ↦
        let pushed = current ++ symbol f cs ∷ [] in
        let nested =
          walk_symbols-deepest t cs pushed (longer pushed best) (longer-left pushed best) in
        let joined : pushed ++ deepest t cs ≡ current ++ symbol f cs ∷ deepest t cs =
          append_assoc current (symbol f cs ∷ []) (deepest t cs) in
        rw inside
          (nested ∙ longer-deeper pushed (deepest t cs) best ∙ ap (λ c. longer c best) joined)
    | inr outside ↦ rw (outside, append-nil) (sym (longer-same current best h))
  ]

-- A chain around a line, to which no other is longer.
abbrev pub IsDeepest : ℕ → Symbols → List Symbol → Type 0
IsDeepest t symbols chain =
    IsNested t symbols chain
    × ((other : List Symbol) → IsNested t symbols other → length other ≤ length chain)

-- Every symbol of the chain that is found contains the line and is a child of the one before it, the
-- first being one of those given; and no chain of this kind is longer.
pub find_enclosing_chain-IsDeepest :
    (symbols : Symbols) (target_line : ℕ)
    → IsDeepest target_line symbols (find_enclosing_chain symbols target_line)
unfolding find_enclosing_chain
find_enclosing_chain-IsDeepest symbols target_line =
    let e : walk_symbols symbols target_line [] [] ≡ deepest target_line symbols =
      walk_symbols-deepest target_line symbols [] [] (omega arith)
      ∙ longer-nil (deepest target_line symbols) in
    rw e (deepest-IsNested target_line symbols, λ other n. deepest-longest target_line n)
