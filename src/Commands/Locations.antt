-- ===== src/Commands/Locations.antt =====
-- What refs.rs and callers.rs share: the references that the syntax gives, by their locations, and
-- their merge with what the cascade gives. `is_alphanumeric` is over characters, and is given by the
-- length of the identifier at the beginning of a text.
pub mod Merge
use codequery.Prelude.{
  ℕ, ◌+◌, ◌-◌, List, [], ◌∷◌, ◌++◌, Option, none, some, Text, Bool, true, false, not, ◌&&◌, ◌||◌,
  ◌==◌, text_eq, nat_eq, nat_beq, Eq, pair_beq, pair_beq_iff, if◌then◌else◌, map, filter, leb, take,
  drop, length, get_elem?, ◌>>=◌,
}
use codequery.Prelude.Dict.{Dict, get, insert, contains}
use codequery.Prelude.Sort.{sort_by}
use codequery.Prelude.Order.{Ordering, then_by, on, nat_cmp, le_by}
use codequery.Core.Reference.{Reference, ReferenceKind, call}
use codequery.Core.Query.{Resolution, syntactic, resolved, semantic}
use codequery.Core.Language.{Language}
use codequery.Index.{FileSymbols}
use codequery.Commands.{Extraction, language_of}
use codequery.Commands.Rename.{lines}
use codequery.Lsp.Cascade.{ResolvedReference}

-- `(file, line, column)`
abbrev pub Location : Type 0
Location = Text × (ℕ × ℕ)

instance abbrev pub location_eq : Eq Location
location_eq = record {
  beq = pair_beq text_eq.beq (pair_beq nat_eq.beq nat_eq.beq);
  beq_iff =
      pair_beq_iff text_eq
        (record { beq = pair_beq nat_eq.beq nat_eq.beq; beq_iff = pair_beq_iff nat_eq nat_eq });
}

abbrev pub location : Reference → Location
location r = (r.file, (r.line, r.column))

abbrev pub resolved_location : ResolvedReference → Location
resolved_location rr = (rr.ref_file, (rr.ref_line, rr.ref_column))

-- `source.lines().nth(line - 1)`, where a line below 1 has no text.
abbrev pub line_at : Text → ℕ → Option Text
line_at source line = if nat_beq line 0 then none else get_elem? (lines source) (line - 1)

-- `source.lines().nth(line.saturating_sub(1)).unwrap_or("")`
abbrev pub or_empty_line : Option Text → Text
or_empty_line none = []
or_empty_line (some l) = l

module _ (identifier_end : Text → ℕ) where
  abbrev pub name_at : Option Text → ℕ → Text → Bool
  name_at none column symbol = false
  name_at (some line_text) column symbol =
      let rest = drop column line_text in
      if leb (length line_text) column then false else take (identifier_end rest) rest == symbol

  unfoldable pub ref_name_matches : Reference → Text → Text → Bool
  ref_name_matches r source symbol = name_at (line_at source r.line) r.column symbol

  module _ {Tree : Type 0} (x : Extraction Tree) (wanted : Reference → Bool) (symbol : Text) where
    abbrev pub file_matches : Option Language → FileSymbols Tree → List Reference
    file_matches none entry = []
    file_matches (some language) entry =
        filter (λ r. wanted r && ref_name_matches r entry.source symbol)
          (x.extract_references entry.source entry.tree entry.file language)

    -- The references to the name, in the order in which the loop meets them.
    unfoldable pub syntactic_references : List (FileSymbols Tree) → List Reference
    syntactic_references [] = []
    syntactic_references (entry ∷ scan) =
        file_matches (language_of x.tables entry.file) entry ++ syntactic_references scan

-- The map of the loop: a later reference replaces one at the same place.
unfoldable pub insert_references :
    List Reference → Dict Location Reference → Dict Location Reference
insert_references [] m = m
insert_references (r ∷ refs) m = insert_references refs (insert (location r) r m)

unfoldable pub sources_of :
    {Tree : Type 0} → List (FileSymbols Tree) → Dict Text Text → Dict Text Text
sources_of [] m = m
sources_of (fs ∷ scan) m = sources_of scan (insert fs.file fs.source m)

abbrev pub context_of : Dict Text Text → Text → ℕ → Text
context_of sources file line =
    or_empty_line (do source ← get file sources; get_elem? (lines source) (line - 1))

-- A reference of the cascade, as the syntax has it or else built from its line.
abbrev pub enriched : Dict Text Text → ResolvedReference → Option Reference → Reference
enriched sources rr (some r) = r
enriched sources rr none = record {
  file = rr.ref_file;
  line = rr.ref_line;
  column = rr.ref_column;
  kind = call;
  context = context_of sources rr.ref_file rr.ref_line;
  caller = none;
  caller_kind = none;
}

unfoldable pub convert :
    Dict Text Text → Dict Location Reference → List ResolvedReference → List Reference
convert sources m [] = []
convert sources m (rr ∷ rrs) =
    enriched sources rr (get (resolved_location rr) m) ∷ convert sources m rrs

-- What the cascade missed, for the entries of the map in the order of its iteration.
unfoldable pub missed : List Location → List (Location × Reference) → List Reference
missed covered [] = []
missed covered ((loc, r) ∷ entries) =
    let rest = missed covered entries in if contains loc covered then rest else r ∷ rest

abbrev pub merged :
    Dict Text Text
    → Dict Location Reference
    → List (Location × Reference)
    → List ResolvedReference
    → List Reference
merged sources m entries rrs =
    let refs = convert sources m rrs in refs ++ missed (map location refs) entries

abbrev pub any : (ResolvedReference → Bool) → List ResolvedReference → Bool
any p [] = false
any p (rr ∷ rrs) = p rr || any p rrs

abbrev pub is_semantic : ResolvedReference → Bool
is_semantic rr = elim rr.resolution [ semantic ↦ true | _ ↦ false ]

abbrev pub is_resolved : ResolvedReference → Bool
is_resolved rr = elim rr.resolution [ resolved ↦ true | _ ↦ false ]

-- The highest tier that is present.
unfoldable pub best_resolution : List ResolvedReference → Resolution
best_resolution rrs =
    if any is_semantic rrs then semantic else if any is_resolved rrs then resolved else syntactic

abbrev pub by_place : (Text → Text → Ordering) → Reference → Reference → Ordering
by_place path_cmp = then_by (on path_cmp (λ r. r.file)) (on nat_cmp (λ r. r.line))

unfoldable pub sort_references : (Text → Text → Ordering) → List Reference → List Reference
sort_references path_cmp refs = sort_by (le_by (by_place path_cmp)) refs
