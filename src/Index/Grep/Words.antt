-- ===== src/Index/Grep/Words.antt =====
-- crates/codequery-index/src/grep.rs: the search finds a word exactly where one stands.
use codequery.Prelude.{
  ℕ, zero, suc, ◌+◌, ◌-◌, ◌≤◌, ◌<◌, [], ◌∷◌, none, some, Text, Bool, true, false, ◌&&◌,
  if◌then◌else◌, leb, ltb, length, take, drop, drop-drop, drop-past, ◌≡◌, ◌↔◌, refl, sym, ap, ◌∙◌,
  arith, Bool-cases, Option-cases, inl, inr,
}
use codequery.Index.Grep.{Find, is_word_boundary, word_char_at, search, data_contains_word}

-- The needle stands at the position.
abbrev pub Occurs : Text → Text → ℕ → Type 0
Occurs needle haystack p = (take (length needle) (drop p haystack) ≡ needle)

-- What `memmem` documents: the first position where the needle stands.
pub record IsFind (find : Find) : Type 0 where
  pub found : (n h : Text) (p : ℕ) → find n h ≡ some p → Occurs n h p
  pub first : (n h : Text) (p q : ℕ) → find n h ≡ some p → Occurs n h q → p ≤ q
  pub missing : (n h : Text) (q : ℕ) → find n h ≡ none → ¬ (Occurs n h q)

-- A whole word stands at the position: no letter, digit or underscore before it or behind it.
pub record IsWordAt (needle haystack : Text) (p : ℕ) : Type 0 where
  pub occurs : Occurs needle haystack p
  pub before : (q : ℕ) → p ≡ suc q → word_char_at haystack q ≡ false
  pub after : word_char_at haystack (p + length needle) ≡ false

word_char_at-past :
    (haystack : Text) (i : ℕ) → length haystack ≤ i → word_char_at haystack i ≡ false
word_char_at-past [] i h = refl
word_char_at-past (c ∷ haystack) zero h = absurd (omega arith)
word_char_at-past (c ∷ haystack) (suc i) h = word_char_at-past haystack i (omega arith)

abbrev Boundary : Text → ℕ → ℕ → Type 0
Boundary haystack p n =
    ((q : ℕ) → p ≡ suc q → word_char_at haystack q ≡ false)
    × (word_char_at haystack (p + n) ≡ false)

clear_iff :
    (in_range word : Bool)
    → (in_range ≡ false → word ≡ false)
    → ((if in_range && word then false else true) ≡ true) ↔ (word ≡ false)
clear_iff true true h = (λ e. cc, λ e. cc)
clear_iff true false h = (λ e. refl, λ e. refl)
clear_iff false true h = (λ e. h refl, λ e. refl)
clear_iff false false h = (λ e. refl, λ e. refl)

end_iff :
    (haystack : Text) (i : ℕ)
    → ((if ltb i (length haystack) && word_char_at haystack i then false else true) ≡ true)
      ↔ (word_char_at haystack i ≡ false)
end_iff haystack i =
    clear_iff (ltb i (length haystack)) (word_char_at haystack i)
      (λ e. word_char_at-past haystack i (ground arith))

is_word_boundary_iff :
    (haystack : Text) (p n : ℕ) → (is_word_boundary haystack p n ≡ true) ↔ Boundary haystack p n
unfolding is_word_boundary
is_word_boundary_iff haystack zero n =
    let (to, from) = end_iff haystack (0 + n) in (λ h. (λ q e. absurd (cc e), to h), λ b. from b.1)
is_word_boundary_iff haystack (suc p) n =
    let (to, from) = end_iff haystack (suc p + n) in
    let pred : suc p - 1 ≡ p = omega arith in
    let positive : ltb 0 (suc p) ≡ true = ground arith in
    elim (Bool-cases (word_char_at haystack p)) [
      | inl e ↦
          (λ h. absurd (cc (rw (positive, pred, e) at h)), λ b. absurd (cc (sym e ∙ b.0 p refl)))
      | inr e ↦ (
        λ h. (
          λ q same. let back : q ≡ p = omega arith in rw back e,
          to (rw (positive, pred, e) at h),
        ),
        λ b. rw (positive, pred, e) (from b.1),
      )
    ]

pub Occurs-drop :
    (needle haystack : Text) (start d : ℕ)
    → Occurs needle haystack (start + d)
    → Occurs needle (drop start haystack) d
Occurs-drop needle haystack start d h = ap (take (length needle)) (drop-drop start d haystack) ∙ h

pub Occurs-undrop :
    (needle haystack : Text) (start d : ℕ)
    → Occurs needle (drop start haystack) d
    → Occurs needle haystack (start + d)
Occurs-undrop needle haystack start d h =
    ap (take (length needle)) (sym (drop-drop start d haystack)) ∙ h

-- A needle that is not empty stands before the end.
Occurs-lt :
    (c : ℕ) (needle haystack : Text) (p : ℕ) → Occurs (c ∷ needle) haystack p → p < length haystack
Occurs-lt c needle haystack p h = elim (Bool-cases (leb (length haystack) p)) [
  | inl past ↦
      let gone = drop-past p haystack (ground arith) in
      absurd (cc (sym h ∙ ap (take (suc (length needle))) gone))
  | inr before ↦ ground arith
]

-- Where a test fails at one position and holds at another, the positions differ.
not_there : (test : ℕ → Bool) (p q : ℕ) → p ≤ q → test p ≡ false → test q ≡ true → p < q
not_there test p q h before at_q = elim (Bool-cases (leb q p)) [
  | inl e ↦ let same : p ≡ q = ground arith in absurd (cc (sym before ∙ ap test same ∙ at_q))
  | inr e ↦ ground arith
]

module _ (find : Find) (law : IsFind find) where
  search_sound :
      (fuel : ℕ) (needle haystack : Text) (start : ℕ)
      → search find fuel needle haystack start ≡ true
      → (p : ℕ) × IsWordAt needle haystack p
  unfolding search
  search_sound zero needle haystack start h = cc
  search_sound (suc fuel) needle haystack start h =
      elim (Bool-cases (leb start (length haystack))) [
        | inr past ↦ absurd (cc (rw (search, past) at h))
        | inl e ↦ elim (Option-cases (find needle (drop start haystack))) [
          | inl missing ↦ absurd (cc (rw (search, e, missing) at h))
          | inr (pos, f) ↦
              elim (Bool-cases (is_word_boundary haystack (start + pos) (length needle))) [
                | inl b ↦ (
                  start + pos,
                  record {
                    occurs = Occurs-undrop needle haystack start pos (law.found _ _ pos f);
                    before = ((is_word_boundary_iff haystack (start + pos) (length needle)).0 b).0;
                    after = ((is_word_boundary_iff haystack (start + pos) (length needle)).0 b).1;
                  },
                )
                | inr b ↦
                    search_sound fuel needle haystack (start + pos + 1) (rw (search, e, f, b) at h)
              ]
        ]
      ]

  search_complete :
      (fuel c : ℕ) (needle haystack : Text) (start d : ℕ)
      → length haystack < start + fuel
      → IsWordAt (c ∷ needle) haystack (start + d)
      → search find fuel (c ∷ needle) haystack start ≡ true
  unfolding search
  search_complete zero c needle haystack start d enough w =
      let before = Occurs-lt c needle haystack (start + d) w.occurs in absurd (omega arith)
  search_complete (suc fuel) c needle haystack start d enough w =
      let before = Occurs-lt c needle haystack (start + d) w.occurs in
      let bounded =
        (is_word_boundary_iff haystack (start + d) (length (c ∷ needle))).1 (w.before, w.after) in
      let e : leb start (length haystack) ≡ true = ground arith in
      let here = Occurs-drop (c ∷ needle) haystack start d w.occurs in
      elim (Option-cases (find (c ∷ needle) (drop start haystack))) [
        | inl missing ↦ absurd (law.missing _ _ d missing here)
        | inr (pos, f) ↦
            let ordered = law.first _ _ pos d f here in
            elim (Bool-cases (is_word_boundary haystack (start + pos) (length (c ∷ needle)))) [
              | inl b ↦ rw (search, e, f, b) refl
              | inr b ↦
                  let later : pos < d =
                    not_there (λ q. is_word_boundary haystack (start + q) (length (c ∷ needle))) pos
                      d ordered b bounded in
                  let further : start + d ≡ (start + pos + 1) + (d - (pos + 1)) = omega arith in
                  rw (search, e, f, b)
                    (search_complete fuel c needle haystack (start + pos + 1) (d - (pos + 1))
                      (omega arith) (rw further at w))
            ]
      ]

  -- A word that is not empty is found exactly where it stands as a whole word: some occurrence of it
  -- has no letter, digit or underscore on either side. The search of `memchr` is assumed to give the
  -- first occurrence.
  pub data_contains_word_iff :
      (c : ℕ) (needle haystack : Text)
      → (data_contains_word find haystack (c ∷ needle) ≡ true)
        ↔ ((p : ℕ) × IsWordAt (c ∷ needle) haystack p)
  unfolding data_contains_word
  data_contains_word_iff c needle haystack = (
    search_sound (length haystack + 1) (c ∷ needle) haystack 0,
    λ (p, w).
        search_complete (length haystack + 1) c needle haystack 0 p (omega arith)
          (let e : p ≡ 0 + p = omega arith in rw e at w),
  )
