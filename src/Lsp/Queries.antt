-- ===== src/Lsp/Queries.antt =====
-- crates/codequery-lsp/src/queries.rs, with the parameters of types.rs: the requests to a language
-- server and the parsing of its answers. The link to the server is a `Channel`, and what serde reads
-- from a value is given by a `Serde`.
pub mod Params
pub mod Shapes
pub mod Documents
use codequery.Prelude.{
  ℕ, List, [], ◌∷◌, ◌++◌, Option, none, some, Text, codes, Bool, true, false, if◌then◌else◌, map,
  keep_some, ◌==◌, text_eq,
}
use codequery.Lsp.Types.{LspLocation, LspRange, LspError, connection_failed, Result, ok, err, ◌>>=◌}
use codequery.Lsp.Uri.{path_to_uri, cq_line_to_lsp, cq_column_to_lsp}
use codequery.Lsp.Value.{Value, null, string, array, Values, nil, cons, elements, get, as_str}
use codequery.Lsp.Queries.Params.{
  definition_params, reference_params, hover_params, did_open_params,
}

pub record LocationLink : Type 0 where
  pub origin_selection_range : Option LspRange
  pub target_uri : Text
  pub target_range : LspRange
  pub target_selection_range : LspRange

-- `from_value` of a location and of a link, the text of the error for a value that is refused, and
-- `Display` of a value.
pub record Serde : Type 0 where
  pub location : Value → Option LspLocation
  pub link : Value → Option LocationLink
  pub error_text : Value → Text
  pub to_text : Value → Text

-- `from_value` of a `Vec`: every element, in order.
abbrev pub and_more : {A : Type 0} → Option A → Option (List A) → Option (List A)
and_more (some a) (some rest) = some (a ∷ rest)
and_more _ _ = none

abbrev pub decode_all : {A : Type 0} → (Value → Option A) → List Value → Option (List A)
decode_all decode [] = some []
decode_all decode (v ∷ vs) = and_more (decode v) (decode_all decode vs)

abbrev pub vec_of : {A : Type 0} → (Value → Option A) → Value → Option (List A)
vec_of decode (array vs) = decode_all decode (elements vs)
vec_of decode _ = none

abbrev or_refused : {A : Type 0} → Text → Option A → Result A
or_refused text none = err (connection_failed text)
or_refused text (some a) = ok a

abbrev pub location_of_link : LocationLink → LspLocation
location_of_link k = record { uri = k.target_uri; range = k.target_selection_range }

module _ (sd : Serde) where
  abbrev parse_links : Value → Result (List LspLocation)
  parse_links result = do
    links ←
        or_refused (codes "failed to parse LocationLink[]: " ++ sd.error_text result)
          (vec_of sd.link result)
    ok (map location_of_link links)

  abbrev parse_array : Value → Result (List LspLocation)
  parse_array result =
      or_refused (codes "failed to parse Location[]: " ++ sd.error_text result)
        (vec_of sd.location result)

  -- The first element says which of the two kinds the array has.
  abbrev parse_elements : Value → Option Value → Result (List LspLocation)
  parse_elements result none = parse_array result
  parse_elements result (some _) = parse_links result

  unfoldable pub parse_definition_response : Value → Result (List LspLocation)
  parse_definition_response null = ok []
  parse_definition_response (array nil) = ok []
  parse_definition_response (array (cons first rest)) =
      parse_elements (array (cons first rest)) (get (codes "targetUri") first)
  parse_definition_response result = do
    location ←
        or_refused (codes "failed to parse Location: " ++ sd.error_text result) (sd.location result)
    ok (location ∷ [])

  unfoldable pub parse_locations_response : Value → Result (List LspLocation)
  parse_locations_response null = ok []
  parse_locations_response result = parse_array result

  abbrev string_field : Text → Value → Option Text
  string_field key v = elim (get key v) [ none ↦ none | some found ↦ as_str found ]

  -- The text of one item of an array of marked strings.
  abbrev hover_part : Value → Option Text
  hover_part (string s) = some s
  hover_part item = string_field (codes "value") item

  abbrev hover_parts : List Value → List Text
  hover_parts [] = []
  hover_parts (v ∷ vs) = keep_some (hover_part v) (hover_parts vs)

  -- `parts.join("\n\n")`
  abbrev pub join_parts : List Text → Text
  join_parts [] = []
  join_parts (p ∷ []) = p
  join_parts (p ∷ q ∷ ps) = p ++ (10 ∷ 10 ∷ join_parts (q ∷ ps))

  abbrev or_text : List Text → Text → Text
  or_text [] fallback = fallback
  or_text (p ∷ ps) fallback = join_parts (p ∷ ps)

  abbrev text_of_contents : Value → Text
  text_of_contents (string s) = s
  text_of_contents (array vs) = or_text (hover_parts (elements vs)) (sd.to_text (array vs))
  text_of_contents contents = sd.to_text contents

  abbrev hover_contents : Value → Text
  hover_contents contents = elim (string_field (codes "value") contents) [
    | some text ↦ text
    | none ↦ text_of_contents contents
  ]

  unfoldable pub parse_hover_contents : Value → Text
  parse_hover_contents result = elim (get (codes "contents") result) [
    | some contents ↦ hover_contents contents
    | none ↦ hover_contents result
  ]

-- The link to a server: a message leaves it changed.
pub record Channel : Type 1 where
  pub Link : Type 0
  pub send_notification : Link → Text → Value → Link × Result (Unit {0})
  pub send_request : Link → Text → Value → Link × Result Value

module _ (ch : Channel) (sd : Serde) (canonicalize : Text → Option Text) where
  pub record LspServer : Type 0 where
    pub transport : ch.Link
    pub opened_docs : List Text

  abbrev pub contains : Text → List Text → Bool
  contains x [] = false
  contains x (y ∷ ys) = let rest = contains x ys in if x == y then true else rest

  abbrev pub opened : LspServer → Text → ch.Link × Result (Unit {0}) → LspServer × Result (Unit {0})
  opened server uri (link, ok _) =
      (record { transport = link; opened_docs = uri ∷ server.opened_docs }, ok tt)
  opened server uri (link, err e) = (record server { transport = link }, err e)

  unfoldable pub open_document :
      LspServer → (path source language_id : Text) → LspServer × Result (Unit {0})
  open_document server path source language_id =
      let uri = path_to_uri canonicalize path in
      let sent =
        ch.send_notification server.transport (codes "textDocument/didOpen")
          (did_open_params uri language_id source) in
      if◌then◌else◌ {A = LspServer × Result (Unit {0})} (contains uri server.opened_docs)
        (server, ok tt) (opened server uri sent)

  abbrev answered :
      {A : Type 0} → LspServer → (Value → Result A) → ch.Link × Result Value → LspServer × Result A
  answered server parse (link, result) =
      (record server { transport = link }, do value ← result; parse value)

  unfoldable pub find_definition : LspServer → Text → ℕ → ℕ → LspServer × Result (List LspLocation)
  find_definition server path line column = answered server (parse_definition_response sd) (
      ch.send_request server.transport (codes "textDocument/definition") (
        definition_params (path_to_uri canonicalize path) (cq_line_to_lsp line)
          (cq_column_to_lsp column)))

  unfoldable pub find_references :
      LspServer → Text → ℕ → ℕ → Bool → LspServer × Result (List LspLocation)
  find_references server path line column include_declaration =
      answered server (parse_locations_response sd) (
        ch.send_request server.transport (codes "textDocument/references") (
          reference_params (path_to_uri canonicalize path) (cq_line_to_lsp line)
            (cq_column_to_lsp column) include_declaration))

  abbrev hover_result : Value → Result (Option Text)
  hover_result null = ok none
  hover_result result = ok (some (parse_hover_contents sd result))

  unfoldable pub hover : LspServer → Text → ℕ → ℕ → LspServer × Result (Option Text)
  hover server path line column = answered server hover_result (
      ch.send_request server.transport (codes "textDocument/hover") (
        hover_params (path_to_uri canonicalize path) (cq_line_to_lsp line)
          (cq_column_to_lsp column)))
