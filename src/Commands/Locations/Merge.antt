-- ===== src/Commands/Locations/Merge.antt =====
-- The merge loses no reference that the syntax gives.
use codequery.Prelude.{
  List, [], ◌∷◌, Text, true, false, map, ◌≡◌, refl, sym, In, here, there, In-append_left,
  In-append_right, Bool-cases, inl, inr,
}
use codequery.Prelude.Dict.{Dict, insert, contains}
use codequery.Core.Reference.{Reference}
use codequery.Lsp.Cascade.{ResolvedReference}
use codequery.Commands.Locations.{
  Location, location_eq, location, insert_references, missed, merged, convert,
}

-- A reference at the place.
pub record At (loc : Location) (refs : List Reference) : Type 0 where
  pub ref : Reference
  pub member : In ref refs
  pub place : location ref ≡ loc

-- An entry of the map under the place, which is at that place.
pub record Entry (loc : Location) (m : List (Location × Reference)) : Type 0 where
  pub ref : Reference
  pub member : In (loc, ref) m
  pub place : location ref ≡ loc

entry_there :
    (loc : Location) (x : Location × Reference) (m : Dict Location Reference)
    → Entry loc m
    → Entry loc (x ∷ m)
entry_there loc x m e = record { ref = e.ref; member = there e.member; place = e.place }

insert-Entry_self :
    (r : Reference) (m : Dict Location Reference) → Entry (location r) (insert (location r) r m)
unfolding insert
insert-Entry_self r [] = record { ref = r; member = here; place = refl }
insert-Entry_self r ((k, w) ∷ m) = elim (Bool-cases (location_eq.beq k (location r))) [
  | inl e ↦ rw e (record { ref = r; member = here; place = refl })
  | inr e ↦ rw e (entry_there (location r) (k, w) (insert (location r) r m) (insert-Entry_self r m))
]

-- Another reference is put into the map: a place that had an entry has one.
keep_entry :
    (loc : Location) (r ref : Reference) (m : Dict Location Reference)
    → In (loc, ref) m
    → location ref ≡ loc
    → Entry loc (insert (location r) r m)
unfolding insert
keep_entry loc r ref [] h place = elim h [ ]
keep_entry loc r ref ((k, w) ∷ m) here place = elim (Bool-cases (location_eq.beq k (location r))) [
  | inl e ↦
      let same : location r ≡ k = sym ((location_eq.beq_iff k (location r)).0 e) in
      rw e (record { ref = r; member = rw same here; place = same })
  | inr e ↦ rw e (record { ref = w; member = here; place = place })
]
keep_entry loc r ref ((k, w) ∷ m) (there h) place =
    elim (Bool-cases (location_eq.beq k (location r))) [
      | inl e ↦ rw e (record { ref = ref; member = there h; place = place })
      | inr e ↦
          rw e (entry_there loc (k, w) (insert (location r) r m) (keep_entry loc r ref m h place))
    ]

keep_entries :
    (loc : Location) (refs : List Reference) (m : Dict Location Reference)
    → Entry loc m
    → Entry loc (insert_references refs m)
unfolding insert_references
keep_entries loc [] m e = e
keep_entries loc (r ∷ refs) m e =
    keep_entries loc refs (insert (location r) r m) (keep_entry loc r e.ref m e.member e.place)

insert_references-Entry :
    (r : Reference) (refs : List Reference) (m : Dict Location Reference)
    → In r refs
    → Entry (location r) (insert_references refs m)
unfolding insert_references
insert_references-Entry r [] m h = elim h [ ]
insert_references-Entry r (_ ∷ refs) m here =
    keep_entries (location r) refs (insert (location r) r m) (insert-Entry_self r m)
insert_references-Entry r (x ∷ refs) m (there h) =
    insert_references-Entry r refs (insert (location x) x m) h

missed-In :
    (covered : List Location) (loc : Location) (r : Reference)
    (entries : List (Location × Reference))
    → In (loc, r) entries
    → contains loc covered ≡ false
    → In r (missed covered entries)
unfolding missed
missed-In covered loc r [] m h = elim m [ ]
missed-In covered loc r (_ ∷ entries) here h = rw h here
missed-In covered loc r ((l, x) ∷ entries) (there m) h = elim (Bool-cases (contains l covered)) [
  | inl e ↦ rw e (missed-In covered loc r entries m h)
  | inr e ↦ rw e (there (missed-In covered loc r entries m h))
]

contains-At :
    (loc : Location) (refs : List Reference) → contains loc (map location refs) ≡ true → At loc refs
contains-At loc [] h = cc
contains-At loc (r ∷ refs) h = elim (Bool-cases (location_eq.beq loc (location r))) [
  | inl e ↦ record {
    ref = r;
    member = here;
    place = sym ((location_eq.beq_iff loc (location r)).0 e);
  }
  | inr e ↦
      let found = contains-At loc refs (rw e at h) in
      record { ref = found.ref; member = there found.member; place = found.place }
]

-- The entries are those of the map, in any order.
pub merged-At :
    (sources : Dict Text Text) (refs : List Reference) (entries : List (Location × Reference))
    (rrs : List ResolvedReference) (r : Reference)
    → ((x : Location × Reference) → In x (insert_references refs []) → In x entries)
    → In r refs
    → At (location r) (merged sources (insert_references refs []) entries rrs)
merged-At sources refs entries rrs r all h =
    let e = insert_references-Entry r refs [] h in
    let found = convert sources (insert_references refs []) rrs in
    elim (Bool-cases (contains (location r) (map location found))) [
      | inl covered ↦
          let at_place = contains-At (location r) found covered in
          record {
            ref = at_place.ref;
            member = In-append_left _ at_place.member;
            place = at_place.place;
          }
      | inr open_place ↦ record {
        ref = e.ref;
        member =
            In-append_right found (
              missed-In (map location found) (location r) e.ref entries (all _ e.member)
                open_place);
        place = e.place;
      }
    ]
