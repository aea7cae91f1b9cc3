-- ===== src/Lsp/Queries/Shapes.antt =====
-- crates/codequery-lsp/src/queries.rs: the shapes in which a server may send the same locations.
use codequery.Prelude.{List, [], ◌∷◌, Option, none, some, codes, map, ◌≡◌, refl, ap, All}
use codequery.Lsp.Types.{LspLocation, ok}
use codequery.Lsp.Value.{Value, array, object, Fields, fields_get, values, elements}
use codequery.Lsp.Queries.{
  Serde, LocationLink, decode_all, location_of_link, parse_definition_response,
  parse_locations_response,
}

-- An object that serde reads as a location, and one that it reads as a link.
pub record IsLocation (sd : Serde) (x : Fields × LspLocation) : Type 0 where
  pub read : sd.location (object x.0) ≡ some x.1
  pub no_target : fields_get (codes "targetUri") x.0 ≡ none

pub record IsLink (sd : Serde) (x : Fields × LocationLink) : Type 0 where
  pub read : sd.link (object x.0) ≡ some x.1
  pub target : Value
  pub has_target : fields_get (codes "targetUri") x.0 ≡ some target

abbrev pub objects : {A : Type 0} → List (Fields × A) → Value
objects xs = array (values (map (λ x. object x.0) xs))

module _ (sd : Serde) where
  decode_objects :
      {A : Type 0} (decode : Value → Option A) (P : Fields × A → Type 0)
      → ((x : Fields × A) → P x → decode (object x.0) ≡ some x.1)
      → (xs : List (Fields × A)) → All P xs
      → decode_all decode (elements (values (map (λ x. object x.0) xs))) ≡ some (map (λ x. x.1) xs)
  decode_objects decode P f [] h = refl
  decode_objects decode P f (x ∷ xs) h = rw (f x h.0, decode_objects decode P f xs h.1) refl

  parse_locations-array :
      (xs : List (Fields × LspLocation))
      → All (IsLocation sd) xs
      → parse_definition_response sd (objects xs) ≡ ok (map (λ x. x.1) xs)
  unfolding parse_definition_response
  parse_locations-array [] h = refl
  parse_locations-array (x ∷ xs) h =
      rw (h.0.no_target, decode_objects sd.location (IsLocation sd) (λ y p. p.read) (x ∷ xs) h) refl

  map_twice :
      (xs : List (Fields × LocationLink))
      → map location_of_link (map (λ x. x.1) xs) ≡ map (λ x. location_of_link x.1) xs
  map_twice [] = refl
  map_twice (x ∷ xs) = ap (λ t. location_of_link x.1 ∷ t) (map_twice xs)

  parse_links-array :
      (xs : List (Fields × LocationLink))
      → All (IsLink sd) xs
      → parse_definition_response sd (objects xs) ≡ ok (map (λ z. location_of_link z.1) xs)
  unfolding parse_definition_response
  parse_links-array [] h = refl
  parse_links-array (x ∷ xs) h =
      rw (h.0.has_target, decode_objects sd.link (IsLink sd) (λ y p. p.read) (x ∷ xs) h)
        (ap (λ t. ok (location_of_link x.1 ∷ t)) (map_twice xs))

  -- The three shapes of an answer are read alike: one location gives itself, an array of locations
  -- gives them in order, and an array of links gives the target and the selection range of each; and
  -- an array of locations that a search for references is answered by gives the same list. It is
  -- assumed of each object that serde reads it as such, and that exactly the links have a
  -- `targetUri`.
  pub parse_definition_response-shapes :
      (x : Fields × LspLocation) (xs : List (Fields × LspLocation))
      (ys : List (Fields × LocationLink))
      → IsLocation sd x
      → All (IsLocation sd) xs
      → All (IsLink sd) ys
      → (parse_definition_response sd (object x.0) ≡ ok (x.1 ∷ []))
        × (parse_definition_response sd (objects xs) ≡ ok (map (λ z. z.1) xs))
        × (parse_definition_response sd (objects ys) ≡ ok (map (λ z. location_of_link z.1) ys))
        × (parse_locations_response sd (objects xs) ≡ ok (map (λ z. z.1) xs))
  unfolding parse_definition_response parse_locations_response
  parse_definition_response-shapes x xs ys h hs ks = (
    rw h.read refl,
    parse_locations-array xs hs,
    parse_links-array ys ks,
    rw (decode_objects sd.location (IsLocation sd) (λ y p. p.read) xs hs) refl,
  )
