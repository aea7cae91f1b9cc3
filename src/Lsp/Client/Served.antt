-- ===== src/Lsp/Client/Served.antt =====
-- The client and the daemon on one connection.
use codequery.Prelude.{
  ℕ, ◌<◌, ◌≤◌, [], ◌∷◌, ◌++◌, append-nil, Option, none, some, Text, codes, false, ◌≡◌, refl, sym,
  ap, ◌∙◌, arith, length, map, All, eq_refl, text_eq,
}
use codequery.Core.Language.{Language, name, from_name}
use codequery.Core.Language.Names.{ascii_lower, from_name-name}
use codequery.Lsp.Types.{Result, ok, err}
use codequery.Lsp.Socket.{
  DaemonRequest, query, authenticate, DaemonResponse, auth_ok, Json, read_message, be_bytes,
  max_message_size,
}
use codequery.Lsp.Socket.Framing.{read_message-write_message}
use codequery.Lsp.Daemon.{Servers, Daemon}
use codequery.Lsp.Daemon.Requests.{Connection, handle_connection, handle_query, handle_request}
use codequery.Lsp.Client.{
  DaemonClient, debug_name, language_to_daemon_string, auth_result, authenticate_client,
  locations_of, exchange, on_response, send_and_receive_locations, query_refs,
}

-- A message with its JSON, which is read back and is not too long.
pub record IsSent {A : Type 0} (j : Json A) (message : A) (payload : Text) : Type 0 where
  pub written : j.to_vec message ≡ some payload
  pub read : j.from_slice payload ≡ some message
  pub fits : length payload ≤ max_message_size

abbrev pub frame : Text → Text
frame payload = be_bytes (length payload) ++ payload

abbrev message_of : {A : Type 0} → Result (A × Text) → Option A
message_of (ok (a, rest)) = some a
message_of (err e) = none

abbrev rest_of : {A : Type 0} → Result (A × Text) → Text
rest_of (ok (a, rest)) = rest
rest_of (err e) = []

-- What the daemon reads of the bytes that a client writes.
abbrev pub daemon_reads : Json DaemonRequest → Text → Connection
daemon_reads j s = record {
  first = message_of (read_message j s);
  second = message_of (read_message j (rest_of (read_message j s)));
}

debug_name-lower : (l : Language) → map ascii_lower (debug_name l) ≡ name l
unfolding debug_name name
debug_name-lower Language.rust = refl
debug_name-lower _ = refl

debug_name-ascii : (l : Language) → All (λ c. c < 128) (debug_name l)
unfolding debug_name
debug_name-ascii Language.rust = ground arith
debug_name-ascii _ = ground arith

name-ascii : (l : Language) → All (λ c. c < 128) (name l)
unfolding name
name-ascii Language.rust = ground arith
name-ascii _ = ground arith

name-lower : (l : Language) → map ascii_lower (name l) ≡ name l
unfolding name
name-lower Language.rust = refl
name-lower _ = refl

-- The name that the client sends is read back as the language.
from_name-language_to_daemon_string :
    (to_lowercase : Text → Text)
    → ((s : Text) → All (λ c. c < 128) s → to_lowercase s ≡ map ascii_lower s)
    → (l : Language) → from_name to_lowercase (language_to_daemon_string to_lowercase l) ≡ some l
unfolding language_to_daemon_string
from_name-language_to_daemon_string f h l =
    ap (from_name f) (h (debug_name l) (debug_name-ascii l) ∙ debug_name-lower l)
    ∙ from_name-name f h l (name l) (name-ascii l) (name-lower l)

module _ (requests : Json DaemonRequest) (responses : Json DaemonResponse)
    (debug_response : DaemonResponse → Text) where
  exchange-framed :
      (c : DaemonClient) (request : DaemonRequest) (response : DaemonResponse) (p q rest : Text)
      → IsSent requests request p
      → IsSent responses response q
      → c.incoming ≡ frame q ++ rest
      → exchange requests responses debug_response c request
        ≡ (record { outgoing = c.outgoing ++ frame p; incoming = rest }, ok response)
  exchange-framed c request response p q rest w r e =
      let (sent, _) = read_message-write_message requests request p [] w.written w.read w.fits in
      let (_, got) = read_message-write_message responses response q rest r.written r.read r.fits in
      rw (sent, e, got) refl

  authenticated-framed :
      (token pa qa rest : Text)
      → IsSent requests (authenticate token) pa
      → IsSent responses auth_ok qa
      → authenticate_client requests responses debug_response token
          (record { outgoing = []; incoming = frame qa ++ rest })
        ≡ (record { outgoing = frame pa; incoming = rest }, ok tt)
  unfolding authenticate_client
  authenticated-framed token pa qa rest w r =
      ap
        (on_response requests responses debug_response
          (auth_result requests responses debug_response))
        (exchange-framed (record { outgoing = []; incoming = frame qa ++ rest })
          (authenticate token) auth_ok pa qa rest w r refl)

  locations-framed :
      (request : DaemonRequest) (response : DaemonResponse) (before p q : Text)
      → IsSent requests request p
      → IsSent responses response q
      → send_and_receive_locations requests responses debug_response
          (record { outgoing = before; incoming = frame q })
          request
        ≡ (
          record { outgoing = before ++ frame p; incoming = [] },
          locations_of requests responses debug_response response,
        )
  unfolding send_and_receive_locations
  locations-framed request response before p q w r =
      ap
        (on_response requests responses debug_response
          (locations_of requests responses debug_response))
        (exchange-framed (record { outgoing = before; incoming = frame q }) request response p q []
          w r (sym (append-nil (frame q))))

  module _ (sv : Servers) (d : Daemon sv) (now : ℕ) where
    daemon_reads-frames :
        (a b : DaemonRequest) (p q : Text)
        → IsSent requests a p
        → IsSent requests b q
        → daemon_reads requests (frame p ++ frame q) ≡ record { first = some a; second = some b }
    daemon_reads-frames a b p q v w =
        let (_, first) =
          read_message-write_message requests a p (frame q) v.written v.read v.fits in
        let (_, second) = read_message-write_message requests b q [] w.written w.read w.fits in
        let alone = rw (append-nil (frame q)) at second in rw (first, alone) refl

    -- A client that has the daemon's token is served as the daemon serves the query: of the bytes
    -- that the client writes, its token and its query, the daemon writes that it is authenticated and
    -- the response of its query, and of these bytes the client makes its result, the locations or the
    -- error of that response; the daemon is left as the query leaves it, and reads the language that
    -- the client means. The messages are assumed to be read back by serde and not to be too long, and
    -- `to_lowercase` to change only the capitals of an ASCII text.
    pub query_refs-served :
        (project file : Text) (l : Language) (line column : ℕ) (pa pq qa qr : Text)
        → ((s : Text) → All (λ c. c < 128) s → sv.to_lowercase s ≡ map ascii_lower s)
        → IsSent requests (authenticate d.token) pa
        → IsSent requests
            (query project
              (language_to_daemon_string sv.to_lowercase l)
              (codes "references")
              file
              line
              column
              none)
            pq
        → IsSent responses auth_ok qa
        → IsSent responses
            (handle_query sv now project
              (language_to_daemon_string sv.to_lowercase l)
              (codes "references")
              file
              line
              column
              d).0
            qr
        → (query_refs requests responses debug_response sv.to_lowercase
              (authenticate_client requests responses debug_response d.token
                (record { outgoing = []; incoming = frame qa ++ frame qr })).0
              project
              l
              file
              line
              column
            ≡ (
              record { outgoing = frame pa ++ frame pq; incoming = [] },
              locations_of requests responses debug_response
                  (handle_query sv now project
                    (language_to_daemon_string sv.to_lowercase l)
                    (codes "references")
                    file
                    line
                    column
                    d).0,
            ))
          × (handle_connection sv now (daemon_reads requests (frame pa ++ frame pq)) d ≡ (
            auth_ok
                ∷ (handle_query sv now project
                    (language_to_daemon_string sv.to_lowercase l)
                    (codes "references")
                    file
                    line
                    column
                    d).0
                ∷ [],
            false,
            (handle_query sv now project
                (language_to_daemon_string sv.to_lowercase l)
                (codes "references")
                file
                line
                column
                d).1,
          ))
          × (from_name sv.to_lowercase (language_to_daemon_string sv.to_lowercase l) ≡ some l)
    unfolding query_refs handle_connection handle_request
    query_refs-served project file l line column pa pq qa qr lower wa wq ra rr = (
      ap
            (λ c.
              query_refs requests responses debug_response sv.to_lowercase c.0 project l file line
                column)
            (authenticated-framed d.token pa qa (frame qr) wa ra)
          ∙ locations-framed _ _ (frame pa) pq qr wq rr,
      ap (λ c. handle_connection sv now c d) (daemon_reads-frames _ _ pa pq wa wq)
          ∙ rw (eq_refl text_eq d.token) refl,
      from_name-language_to_daemon_string sv.to_lowercase lower l,
    )
