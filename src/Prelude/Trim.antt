-- ===== src/Prelude/Trim.antt =====
-- `str::trim` of the Rust standard library, on an ASCII text.
use codequery.Prelude.{
  ℕ, [], ◌∷◌, ◌++◌, append-nil, Text, Bool, true, false, leb, nat_beq, ◌&&◌, ◌||◌, if◌then◌else◌,
  ◌≡◌, refl, sym, ap, ◌∙◌, All, All-append, reverse, reverse-append, reverse-reverse,
}

abbrev pub is_space : ℕ → Bool
is_space c = leb 9 c && leb c 13 || nat_beq c 32

abbrev pub drop_space : Text → Text
drop_space [] = []
drop_space (c ∷ s) = let rest = drop_space s in if is_space c then rest else c ∷ s

unfoldable pub trim_ascii : Text → Text
trim_ascii s = reverse (drop_space (reverse (drop_space s)))

abbrev pub AllSpace : Text → Type 0
AllSpace s = All (λ c. is_space c ≡ true) s

drop_space-append : (pre s : Text) → AllSpace pre → drop_space (pre ++ s) ≡ drop_space s
drop_space-append [] s h = refl
drop_space-append (c ∷ pre) s h = rw (h.0) (drop_space-append pre s h.1)

drop_space-cons : (c : ℕ) (s : Text) → is_space c ≡ false → drop_space (c ∷ s) ≡ c ∷ s
drop_space-cons c s h = rw h refl

AllSpace-reverse : (s : Text) → AllSpace s → AllSpace (reverse s)
AllSpace-reverse [] h = tt
AllSpace-reverse (c ∷ s) h =
    All-append (λ c. is_space c ≡ true) (reverse s) (c ∷ []) (AllSpace-reverse s h.1) (h.0, tt)

-- What stands between the spaces is kept, when neither of its ends is a space.
pub trim_ascii-padded :
    (pre body post : Text) (c e : ℕ) (s t : Text)
    → AllSpace pre
    → AllSpace post
    → body ≡ c ∷ s
    → is_space c ≡ false
    → body ≡ t ++ e ∷ []
    → is_space e ≡ false
    → trim_ascii (pre ++ (body ++ post)) ≡ body
unfolding trim_ascii
trim_ascii-padded pre body post c e s t hpre hpost left hc right he =
    ap (λ x. reverse (drop_space (reverse x))) (front ∙ ap (λ b. b ++ post) (sym left))
    ∙ ap (λ x. reverse (drop_space x)) (reverse-append body post)
    ∙ ap reverse (drop_space-append (reverse post) (reverse body) (AllSpace-reverse post hpost))
    ∙ ap reverse back
    ∙ reverse-reverse body
  where
    front : drop_space (pre ++ (body ++ post)) ≡ (c ∷ s) ++ post
    front =
        drop_space-append pre (body ++ post) hpre
        ∙ ap (λ b. drop_space (b ++ post)) left
        ∙ drop_space-cons c (s ++ post) hc

    turned : reverse body ≡ e ∷ reverse t
    turned = ap reverse right ∙ reverse-append t (e ∷ [])

    back : drop_space (reverse body) ≡ reverse body
    back = ap drop_space turned ∙ drop_space-cons e (reverse t) he ∙ sym turned

-- A text of spaces is trimmed to nothing.
pub trim_ascii-space : (s : Text) → AllSpace s → trim_ascii s ≡ []
unfolding trim_ascii
trim_ascii-space s h =
    ap (λ x. reverse (drop_space (reverse x)))
      (ap drop_space (sym (append-nil s)) ∙ drop_space-append s [] h)
