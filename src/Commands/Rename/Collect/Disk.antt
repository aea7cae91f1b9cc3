-- ===== src/Commands/Rename/Collect/Disk.antt =====
-- What the application of the edits does to the files, whatever the order of the map.
use mathlib.Core.Path.{subst}
use codequery.Prelude.{
  List, [], ◌∷◌, ◌++◌, append_assoc, append-nil, Option, none, some, Text, Bool, true, ◌≡◌, ◌≢◌,
  refl, sym, ap, ◌∙◌, arith, filter, Bool-cases, inl, inr, text_eq, ◌==◌, In, here, there, All,
  All-In, Option-cases, eq_refl,
}
use codequery.Prelude.Dict.{Dict, get, insert, get-insert}
use codequery.Commands.Rename.{TextEdit, edit_content}
use codequery.Commands.Rename.Collect.{or_no_edits, group_edits, Files, apply_group, apply_groups}

-- The map holds, for each file, its edits in order.
group_edits-get :
    (es : List TextEdit) (m : Dict Text (List TextEdit)) (file : Text)
    → or_no_edits (get file (group_edits es m))
      ≡ or_no_edits (get file m) ++ filter (λ e. e.file == file) es
unfolding group_edits
group_edits-get [] m file = sym (append-nil _)
group_edits-get (e ∷ es) m file =
    group_edits-get es (insert e.file (or_no_edits (get e.file m) ++ e ∷ []) m) file
    ∙ ap (λ o. or_no_edits o ++ filter (λ d. d.file == file) es)
        (get-insert e.file file (or_no_edits (get e.file m) ++ e ∷ []) m)
    ∙ elim (Bool-cases (e.file == file)) [
      | inl same ↦
          let at_file : e.file ≡ file = (text_eq.beq_iff e.file file).0 same in
          rw (same, append_assoc)
            (ap (λ f. or_no_edits (get f m) ++ (e ∷ filter (λ d. d.file == file) es)) at_file)
      | inr other ↦ rw other
    ]

snoc-nonempty : (xs : List TextEdit) (e : TextEdit) → some (xs ++ e ∷ []) ≢ some []
snoc-nonempty [] e p = cc p
snoc-nonempty (x ∷ xs) e p = cc p

-- No group is empty.
group_edits-nonempty :
    (es : List TextEdit) (m : Dict Text (List TextEdit)) (file : Text)
    → ((f : Text) → get f m ≢ some [])
    → get file (group_edits es m) ≢ some []
unfolding group_edits
group_edits-nonempty [] m file h = h file
group_edits-nonempty (e ∷ es) m file h =
    let edits : List TextEdit = or_no_edits (get e.file m) in
    group_edits-nonempty es (insert e.file (edits ++ e ∷ []) m) file (λ f p.
      elim (Bool-cases (e.file == f)) [
        | inl same ↦ snoc-nonempty edits e (rw (get-insert e.file f (edits ++ e ∷ []) m, same) at p)
        | inr other ↦ h f (rw (get-insert e.file f (edits ++ e ∷ []) m, other) at p)
      ])

-- A file after the edits: as it was where it has none, and else its old content, edited.
abbrev pub Edited : List TextEdit → Option Text → Option Text → Type 0
Edited [] before after = after ≡ before
Edited (e ∷ es) before after =
    (c : Text) × (before ≡ some c) × (after ≡ some (edit_content (e ∷ es) c))

-- No file has two groups.
abbrev pub AreDistinct : List (Text × List TextEdit) → Type 0
AreDistinct [] = Unit
AreDistinct ((f, es) ∷ gs) = All (λ g. g.0 ≢ f) gs × AreDistinct gs

module _ (writable : Text → Bool) where
  apply_group-other :
      (g : Text) (es : List TextEdit) (files : Files) (f : Text)
      → g ≢ f
      → (apply_group writable g es (files g) files).1 f ≡ files f
  unfolding apply_group
  apply_group-other g es files f h =
      let apart : f ≢ g = λ p. h (sym p) in ground (arith, text_eq.beq_iff f g, apart)

  untouched :
      (gs : List (Text × List TextEdit)) (files : Files) (f : Text)
      → All (λ g. g.0 ≢ f) gs
      → (apply_groups writable gs files).1 f ≡ files f
  unfolding apply_groups
  untouched [] files f h = refl
  untouched ((g, es) ∷ gs) files f h =
      elim (Bool-cases (apply_group writable g es (files g) files).0) [
        | inl done ↦ rw done (
            untouched gs (apply_group writable g es (files g) files).1 f h.1
            ∙ apply_group-other g es files f h.0)
        | inr stop ↦ rw stop (apply_group-other g es files f h.0)
      ]

  -- A group that is applied: the file was read, and is written with its edits.
  apply_group_done :
      (f : Text) (es : List TextEdit) (files : Files)
      → (apply_group writable f es (files f) files).0 ≡ true
      → (c : Text) × (files f ≡ some c)
        × ((apply_group writable f es (files f) files).1 f ≡ some (edit_content es c))
  unfolding apply_group
  apply_group_done f es files h = elim (Option-cases (files f)) [
    | inl e ↦ cc (rw e at h)
    | inr (c, e) ↦ (c, e, ground (arith, e, text_eq.beq_iff f f, eq_refl text_eq f))
  ]

  apply_groups-content :
      (gs : List (Text × List TextEdit)) (files : Files) (g : Text × List TextEdit)
      → AreDistinct gs
      → (apply_groups writable gs files).0 ≡ true
      → In g gs
      → (c : Text) × (files g.0 ≡ some c)
        × ((apply_groups writable gs files).1 g.0 ≡ some (edit_content g.1 c))
  unfolding apply_groups
  apply_groups-content [] files g d ok m = elim m [ ]
  apply_groups-content (g ∷ gs) files _ d ok here =
      elim (Bool-cases (apply_group writable g.0 g.1 (files g.0) files).0) [
        | inl done ↦
            let (c, read, written) = apply_group_done g.0 g.1 files done in
            (c, read, rw done (untouched gs _ g.0 d.0 ∙ written))
        | inr stop ↦ cc (rw stop at ok)
      ]
  apply_groups-content (k ∷ gs) files g d ok (there m) =
      elim (Bool-cases (apply_group writable k.0 k.1 (files k.0) files).0) [
        | inl done ↦
            let files' : Files = (apply_group writable k.0 k.1 (files k.0) files).1 in
            let (c, read, written) = apply_groups-content gs files' g d.1 (rw done at ok) m in
            let apart : k.0 ≢ g.0 = λ p. All-In (λ h. h.0 ≢ k.0) m d.0 (sym p) in
            (c, sym (apply_group-other k.0 k.1 files g.0 apart) ∙ read, rw done written)
        | inr stop ↦ cc (rw stop at ok)
      ]

  Edited-of :
      (es : List TextEdit) {before after : Option Text}
      → es ≢ []
      → (c : Text) × (before ≡ some c) × (after ≡ some (edit_content es c))
      → Edited es before after
  Edited-of [] n h = absurd (n refl)
  Edited-of (e ∷ es) n h = h

  -- The groups of the map, one for each file, are applied in any order. If every read and write
  -- succeeds, a file with edits then holds its old content with all its edits applied, taken in the
  -- order in which they were collected, and a file without edits is as it was.
  pub apply_groups-group_edits :
      (edits : List TextEdit) (gs : List (Text × List TextEdit)) (files : Files) (file : Text)
      → AreDistinct gs
      → ((es : List TextEdit) → get file (group_edits edits []) ≡ some es → In (file, es) gs)
      → (get file (group_edits edits []) ≡ none → All (λ g. g.0 ≢ file) gs)
      → (apply_groups writable gs files).0 ≡ true
      → Edited
          (filter (λ e. e.file == file) edits)
          (files file)
          ((apply_groups writable gs files).1 file)
  unfolding get
  apply_groups-group_edits edits gs files file d present absent ok =
      elim (Option-cases (get file (group_edits edits []))) [
        | inl e ↦
            subst (λ es. Edited es (files file) ((apply_groups writable gs files).1 file))
              (ap or_no_edits (sym e) ∙ group_edits-get edits [] file)
              (untouched gs files file (absent e))
        | inr (es, e) ↦
            subst (λ fs. Edited fs (files file) ((apply_groups writable gs files).1 file))
              (ap or_no_edits (sym e) ∙ group_edits-get edits [] file)
              (Edited-of es
                (λ p.
                  group_edits-nonempty edits [] file (λ f q. (unfold get in cc q)) (e ∙ ap some p))
                (apply_groups-content gs files (file, es) d ok (present es e)))
      ]
