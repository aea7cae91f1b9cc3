-- ===== src/Commands/Context/Depth.antt =====
-- What the depth does to the symbol that `context` shows.
use codequery.Prelude.{
  ℕ, zero, suc, ◌-◌, ◌<◌, List, ◌∷◌, [], none, some, nat_beq, if◌then◌else◌, length, drop,
  drop-past, ◌≡◌, refl, arith, Bool-cases, inl, inr,
}
use codequery.Core.Symbol.{Symbol}
use codequery.Commands.Context.{last, innermost}

last-drop : (k : ℕ) (chain : List Symbol) → k < length chain → last (drop k chain) ≡ last chain
last-drop zero chain h = refl
last-drop (suc k) [] h = absurd (omega arith)
last-drop (suc k) (s ∷ []) h = absurd (omega arith)
last-drop (suc k) (s ∷ t ∷ chain) h = last-drop k (t ∷ chain) (omega arith)

-- For a chain that is not empty, a depth of 0 leaves no level, and the code's `expect` panics; any
-- other depth gives the same symbol as no depth does.
pub innermost-depth :
    (s : Symbol) (chain : List Symbol) (d : ℕ)
    → innermost (some d) (s ∷ chain) ≡ (if nat_beq d 0 then none else innermost none (s ∷ chain))
unfolding innermost
innermost-depth s chain d = elim (Bool-cases (nat_beq d 0)) [
  | inl z ↦
      let at_zero : d ≡ 0 = ground arith in
      rw (z, at_zero, drop-past (length (s ∷ chain) - 0) (s ∷ chain) (omega arith)) refl
  | inr p ↦
      let positive : 0 < d = ground arith in
      rw
        (
          p,
          last-drop (length (s ∷ chain) - d) (s ∷ chain) (omega arith),
          last-drop (length (s ∷ chain) - 1) (s ∷ chain) (omega arith),
        )
        refl
]
