-- ===== src/Lsp/Transport/Request.antt =====
-- crates/codequery-lsp/src/protocol.rs and transport.rs: requests, and the wait for their answers.
-- The JSON of serde is a parameter, as are its values.
pub mod Answer
pub mod Ends
use codequery.Prelude.{
  ℕ, zero, suc, ◌+◌, ◌%◌, ◌^◌, List, [], ◌∷◌, ◌++◌, Option, none, some, Text, codes, Bool, true,
  false, not, ◌&&◌, if◌then◌else◌, nat_beq, length,
}
use codequery.Lsp.Types.{LspError, request_failed, timeout, io, Result, ok, err, ◌>>=◌}
use codequery.Lsp.Transport.{Unicode, write_message, read_message, needs_more}

module _ (Value : Type 0) where
  pub record JsonRpcRequest : Type 0 where
    pub jsonrpc : Text
    pub id : ℕ
    pub method : Text
    pub params : Option Value

  -- The code is an `i64`, given by its 64 bits.
  pub record JsonRpcError : Type 0 where
    pub code : ℕ
    pub message : Text
    pub extra : Option Value

  pub record JsonRpcResponse : Type 0 where
    pub jsonrpc : Text
    pub id : ℕ
    pub result : Option Value
    pub error : Option JsonRpcError

  pub record JsonRpcNotification : Type 0 where
    pub jsonrpc : Text
    pub method : Text
    pub params : Option Value

  -- What serde gives for these messages.
  pub record Codec : Type 0 where
    pub null : Value
    pub request_to_string : JsonRpcRequest → Result Text
    pub notification_to_string : JsonRpcNotification → Result Text
    pub response_from_str : Text → Option JsonRpcResponse

abbrev is_some {ℓ} : {A : Type ℓ} → Option A → Bool
is_some none = false
is_some (some a) = true

module _ {Value : Type 0} where
  unfoldable pub is_success : JsonRpcResponse Value → Bool
  is_success r = not (is_some r.error)

  unfoldable pub is_error : JsonRpcResponse Value → Bool
  is_error r = is_some r.error

-- `fetch_add(1)` on an `AtomicU64`: the identifier, and the counter behind it.
unfoldable pub next_request_id : ℕ → ℕ × ℕ
next_request_id n = (n, (n + 1) % 2 ^ 64)

-- What is written to the server, the error of a write once the server has closed its end, all that the
-- server will ever write, whether it leaves its end open behind that, and the counter of the process.
pub record StdioTransport : Type 0 where
  pub stdin : Text
  pub broken : Option Text
  pub stdout : Text
  pub stays_open : Bool
  pub timeout : ℕ
  pub next_id : ℕ

unfoldable pub write_raw : StdioTransport → Text → Result StdioTransport
write_raw t json = elim t.broken [
  | some e ↦ err (io e)
  | none ↦ ok (record t { stdin = t.stdin ++ write_message json })
]

-- `readable` is what the poll of the pipe finds within the timeout, or the bytes in the buffer.
unfoldable pub try_read_message : Unicode → Bool → Text → Result (Option (Text × Text))
try_read_message u readable s =
    if readable then (do found ← read_message u s; ok (some found)) else ok none

module _ {Value : Type 0} (codec : Codec Value) (u : Unicode) where
  unfoldable pub request : ℕ → Text → Value → JsonRpcRequest Value
  request id method params = record {
    jsonrpc = codes "2.0";
    id = id;
    method = method;
    params = some params;
  }

  unfoldable pub send_notification : StdioTransport → Text → Value → Result StdioTransport
  send_notification t method params = do
    json ←
        codec.notification_to_string
          (record { jsonrpc = codes "2.0"; method = method; params = some params })
    write_raw t json

  abbrev pub answer : Text → JsonRpcResponse Value → Result Value
  answer method r = elim r.error [
    | some e ↦ err (request_failed method e.message)
    | none ↦ elim r.result [ some v ↦ ok v | none ↦ ok codec.null ]
  ]

  -- The answer that a message is, or `none` for one that is skipped.
  abbrev pub matching : ℕ → Text → Option (JsonRpcResponse Value) → Option (Result Value)
  matching id method none = none
  matching id method (some r) = if nat_beq r.id id then some (answer method r) else none

  -- The result of a request and the bytes behind it, which are not followed behind a failed read.
  abbrev pub Outcome : Type 0
  Outcome = Result Value × Option Text

  -- How a wait goes on: it blocks in a read for good, or it ends. The rounds of the model are enough,
  -- so that it does not run out of them.
  pub data Waited : Type 0 where
    out_of_rounds blocked : Waited
    ended : Outcome → Waited

  -- The loop of `send_request`. `late` says for each round whether the deadline has passed at its
  -- start.
  unfoldable pub await : Bool → ℕ → ℕ → Text → ℕ → (late : ℕ → Bool) → Text → Waited
  await stays_open zero id method limit late s = out_of_rounds
  await stays_open (suc fuel) id method limit late s = elim (late 0) [
    | true ↦ ended (err (timeout limit), some s)
    | false ↦ elim (stays_open && needs_more u none [] s) [
      | true ↦ blocked
      | false ↦ elim (read_message u s) [
        | err e ↦ ended (err e, none)
        | ok (msg, rest) ↦ elim (matching id method (codec.response_from_str msg)) [
          | some result ↦ ended (result, some rest)
          | none ↦ await stays_open fuel id method limit (λ round. late (suc round)) rest
        ]
      ]
    ]
  ]

  -- Every message takes at least one byte, so the bytes of the stream bound the rounds.
  abbrev pub wait_for_answer : StdioTransport → ℕ → Text → (ℕ → Bool) → Waited
  wait_for_answer t id method late =
      await t.stays_open (suc (length t.stdout)) id method t.timeout late t.stdout

  abbrev pub sent :
      StdioTransport → ℕ → Text → (ℕ → Bool) → Result StdioTransport → StdioTransport × Waited
  sent t id method late (err e) = (t, ended (err e, some t.stdout))
  sent t id method late (ok t') = (t', wait_for_answer t' id method late)

  -- The transport behind the request, with its `stdin` and its counter, and the outcome.
  unfoldable pub send_request : StdioTransport → Text → Value → (ℕ → Bool) → StdioTransport × Waited
  send_request t method params late =
      let (id, next_id) = next_request_id t.next_id in
      let t' = record t { next_id = next_id } in
      sent t' id method late
        (do json ← codec.request_to_string (request id method params); write_raw t' json)
