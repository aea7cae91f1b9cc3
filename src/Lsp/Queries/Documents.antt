-- ===== src/Lsp/Queries/Documents.antt =====
-- crates/codequery-lsp/src/queries.rs: a document is announced to the server once.
use codequery.Prelude.{Option, Text, true, ◌≡◌, refl, Bool-cases, eq_refl, text_eq, inl, inr}
use codequery.Lsp.Types.{Result, ok, err}
use codequery.Lsp.Uri.{path_to_uri}
use codequery.Lsp.Queries.{Channel, Serde, LspServer, contains, opened, open_document}

module _ (ch : Channel) (sd : Serde) (canonicalize : Text → Option Text) where
  abbrev Server : Type 0
  Server = LspServer ch sd canonicalize

  open_document-known :
      (server : Server) (path source language_id : Text)
      → contains ch sd canonicalize (path_to_uri canonicalize path) server.opened_docs ≡ true
      → open_document ch sd canonicalize server path source language_id ≡ (server, ok tt)
  unfolding open_document
  open_document-known server path source language_id h = rw h refl

  opened-contains :
      (server : Server) (uri : Text) (p : ch.Link × Result (Unit {0}))
      → (opened ch sd canonicalize server uri p).1 ≡ ok tt
      → contains ch sd canonicalize uri (opened ch sd canonicalize server uri p).0.opened_docs
        ≡ true
  opened-contains server uri (link, ok _) h = rw (eq_refl text_eq uri) refl
  opened-contains server uri (link, err e) h = cc

  open_document-contains :
      (server : Server) (path source language_id : Text)
      → (open_document ch sd canonicalize server path source language_id).1 ≡ ok tt
      → contains ch sd canonicalize
          (path_to_uri canonicalize path)
          (open_document ch sd canonicalize server path source language_id).0.opened_docs
        ≡ true
  unfolding open_document
  open_document-contains server path source language_id h =
      elim (Bool-cases
        (contains ch sd canonicalize (path_to_uri canonicalize path) server.opened_docs)) [
          | inl e ↦ rw e e
          | inr e ↦ rw e (opened-contains server _ _ (rw e at h))
        ]

  -- A document that was opened is not announced again: opening the same path once more, with
  -- whatever text and language, succeeds, sends nothing and leaves the server as it is.
  pub open_document-once :
      (server : Server) (path source language_id again other_id : Text)
      → (open_document ch sd canonicalize server path source language_id).1 ≡ ok tt
      → open_document ch sd canonicalize
          (open_document ch sd canonicalize server path source language_id).0
          path
          again
          other_id
        ≡ ((open_document ch sd canonicalize server path source language_id).0, ok tt)
  open_document-once server path source language_id again other_id h =
      open_document-known (open_document ch sd canonicalize server path source language_id).0 path
        again other_id (open_document-contains server path source language_id h)
