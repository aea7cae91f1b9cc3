-- ===== src/Tests/Servers.antt =====
-- Runs of the theorems on the language servers: their configuration, their documents, their answers
-- and their start.
use codequery.Prelude.{
  List, [], ◌∷◌, ◌++◌, Option, none, some, Text, codes, Bool, true, false, ◌==◌, text_eq,
  if◌then◌else◌, map, ◌≡◌, ◌≢◌, refl,
}
use codequery.Prelude.Dict.{get}
use codequery.Core.Language.{rust, language_eq}
use codequery.Core.Language.Names.{ascii_lower}
use codequery.Lsp.Types.{LspLocation, LspRange, ok}
use codequery.Lsp.Value.{null, string, object, Fields, no_fields, field}
use codequery.Lsp.Queries.{
  Channel, Serde, LspServer, LocationLink, location_of_link, open_document,
  parse_definition_response, parse_locations_response,
}
use codequery.Lsp.Queries.Shapes.{objects, parse_definition_response-shapes}
use codequery.Lsp.Queries.Documents.{open_document-once}
use codequery.Lsp.Config.{config_for, with_overrides, new_configs, env_var_languages}
use codequery.Lsp.Config.Overrides.{from_variable, variable_of, from_file, with_overrides-config}
use codequery.Lsp.Server.{Poll, message, nothing, begin, end, create, ready, wait_for_ready}
use codequery.Lsp.Server.Ready.{
  progress, requests, heard, waiting_start, wait_for_ready-tokens, wait_for_ready-ends,
}

abbrev range : LspRange
range = record {
  start = record { line = 1; character = 0 };
  end = record { line = 1; character = 4 };
}

abbrev location : LspLocation
location = record { uri = codes "file:///a.rs"; range = range }

abbrev link : LocationLink
link = record {
  origin_selection_range = none;
  target_uri = codes "file:///b.rs";
  target_range = range;
  target_selection_range = range;
}

-- Every object is read as the one location, or as the one link.
abbrev serde : Serde
serde = record {
  location = λ v. some location;
  link = λ v. some link;
  error_text = λ v. [];
  to_text = λ v. [];
}

abbrev link_fields : Fields
link_fields = field (codes "targetUri") (string (codes "file:///b.rs")) no_fields

parse_definition_response-shapes_example :
    (parse_definition_response serde (object no_fields) ≡ ok (location ∷ []))
    × (parse_definition_response serde (objects ((no_fields, location) ∷ [])) ≡ ok (location ∷ []))
    × (parse_definition_response serde (objects ((link_fields, link) ∷ []))
        ≡ ok (location_of_link link ∷ []))
    × (parse_locations_response serde (objects ((no_fields, location) ∷ [])) ≡ ok (location ∷ []))
parse_definition_response-shapes_example =
    parse_definition_response-shapes serde (no_fields, location) ((no_fields, location) ∷ [])
      ((link_fields, link) ∷ []) (record { read = refl; no_target = refl })
      (record { read = refl; no_target = refl }, tt)
      (record { read = refl; target = string (codes "file:///b.rs"); has_target = refl }, tt)

-- The link counts its messages.
abbrev counting : Channel
counting = record {
  Link = List Text;
  send_notification = λ sent method v. (method ∷ sent, ok tt);
  send_request = λ sent method v. (method ∷ sent, ok null);
}

abbrev fresh : LspServer counting serde (λ p. none)
fresh = record { transport = []; opened_docs = [] }

open_document-once_example :
    open_document counting serde
      (λ p. none)
      (open_document counting serde (λ p. none) fresh (codes "/a.rs") (codes "x") (codes "rust")).0
      (codes "/a.rs")
      (codes "y")
      (codes "rust")
    ≡ (
      (open_document counting serde (λ p. none) fresh (codes "/a.rs") (codes "x") (codes "rust")).0,
      ok tt,
    )
unfolding open_document
open_document-once_example =
    open_document-once counting serde (λ p. none) fresh (codes "/a.rs") (codes "x") (codes "rust")
      (codes "y") (codes "rust") refl

abbrev environment : Text → Option Text
environment v = if v == codes "CQ_LSP_RUST" then some (codes "ra") else none

with_overrides-config_example :
    config_for rust (
      with_overrides
        (map ascii_lower)
        environment
        ((codes "Rust", record { binary = some (codes "mine"); args = none }) ∷ []))
    ≡ from_variable (variable_of environment (get rust env_var_languages)) (
        from_file
          (map ascii_lower)
          rust
          ((codes "Rust", record { binary = some (codes "mine"); args = none }) ∷ [])
          (config_for rust new_configs))
with_overrides-config_example =
    with_overrides-config (map ascii_lower) environment rust
      ((codes "Rust", record { binary = some (codes "mine"); args = none }) ∷ [])

abbrev a_poll : Bool → Bool → Poll
a_poll late drain_over = record {
  late = late;
  grace_over = true;
  drain_over = drain_over;
  read = nothing;
}

abbrev indexing : List Poll
indexing =
    record (a_poll false false) { read = message (create (some (string (codes "1")))) }
    ∷ record (a_poll false false) { read = message (begin (codes "t")) }
    ∷ record (a_poll false false) { read = message (end (codes "t")) }
    ∷ a_poll false false
    ∷ a_poll false true
    ∷ []

wait_for_ready-tokens_example :
    ((wait_for_ready indexing).1.active ≡ progress [] (heard indexing waiting_start))
    × ((wait_for_ready indexing).1.answered ≡ requests (heard indexing waiting_start))
    × ((wait_for_ready indexing).0 ≡ some ready → (wait_for_ready indexing).1.active ≡ [])
wait_for_ready-tokens_example = wait_for_ready-tokens indexing

wait_for_ready-ends_example :
    (wait_for_ready (indexing ++ a_poll true true ∷ a_poll true true ∷ [])).0 ≢ none
wait_for_ready-ends_example =
    wait_for_ready-ends indexing (a_poll true true) (a_poll true true) [] refl refl
