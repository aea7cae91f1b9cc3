-- ===== src/Lsp/Transport/Request/Answer.antt =====
-- crates/codequery-lsp/src/transport.rs: which message answers a request.
use codequery.Prelude.{
  ℕ, zero, suc, ◌+◌, ◌%◌, ◌^◌, ◌≤◌, ◌<◌, List, [], ◌∷◌, ◌++◌, none, some, Text, Bool, true, false,
  ◌&&◌, nat_beq, ◌≡◌, ◌≢◌, refl, ap, ◌∙◌, arith, length, length-append, All, Option-cases, inl, inr,
}
use codequery.Prelude.Decimal.{decimal}
use codequery.Lsp.Types.{io, timeout, ok, err}
use codequery.Lsp.Transport.{Unicode, crlf, write_message}
use codequery.Lsp.Transport.Framing.{IsUnicode, headed}
use codequery.Lsp.Transport.Stream.{Frame, IsFrame, stream, read_message-frame, needs_more-frame}
use codequery.Lsp.Transport.Request.{
  Codec, JsonRpcResponse, answer, matching, await, ended, StdioTransport, next_request_id, request,
  write_raw, sent, send_request,
}

length-headed-le : (ls : List Text) (s : Text) → length s ≤ length (headed ls s)
length-headed-le [] s = omega arith
length-headed-le (l ∷ ls) s =
    omega (arith, length-append l (10 ∷ headed ls s), length-headed-le ls s)

-- Every message has its bytes.
length-stream-le : (ms : List Frame) (rest : Text) → length ms ≤ length (stream ms rest)
unfolding write_message
length-stream-le [] rest = omega arith
length-stream-le (m ∷ ms) rest = omega (
  arith,
  length-headed-le m.others (write_message m.json ++ stream ms rest),
  length-append (decimal (length m.json) ++ (crlf ++ (crlf ++ m.json))) (stream ms rest),
  length-stream-le ms rest,
)

not_blocked : (stays_open : Bool) {more : Bool} → more ≡ false → (stays_open && more) ≡ false
not_blocked true h = h
not_blocked false h = refl

module _ {Value : Type 0} (codec : Codec Value) (u : Unicode) where
  -- A message that does not answer the request: a notification, or the response to another.
  abbrev pub IsSkipped : ℕ → Frame → Type 0
  IsSkipped id m = (r : JsonRpcResponse Value) → codec.response_from_str m.json ≡ some r → r.id ≢ id

  matching-skipped :
      (id : ℕ) (method : Text) (m : Frame)
      → IsSkipped id m
      → matching codec u id method (codec.response_from_str m.json) ≡ none
  matching-skipped id method m h = elim (Option-cases (codec.response_from_str m.json)) [
    | inl e ↦ rw e refl
    | inr (r, e) ↦ let other : nat_beq r.id id ≡ false = grind (arith, h r e) in rw (e, other) refl
  ]

  module _ (law : IsUnicode u) where
    await-stream :
        (stays_open : Bool) (fuel id : ℕ) (method : Text) (limit : ℕ) (late : ℕ → Bool)
        (ms : List Frame) (m : Frame) (r : JsonRpcResponse Value) (rest : Text)
        → All (IsFrame u) ms
        → All (IsSkipped id) ms
        → IsFrame u m
        → codec.response_from_str m.json ≡ some r
        → r.id ≡ id
        → ((round : ℕ) → round ≤ length ms → late round ≡ false)
        → length ms < fuel
        → await codec u stays_open fuel id method limit late (stream ms (stream (m ∷ []) rest))
          ≡ ended (answer codec u method r, some rest)
    unfolding await
    await-stream stays_open zero id method limit late ms m r rest hs skipped h e same in_time
          fuel_left =
        absurd (omega arith)
    await-stream stays_open (suc fuel) id method limit late [] m r rest hs skipped h e same in_time
          fuel_left =
        let found : nat_beq r.id id ≡ true = ground arith in
        rw
          (
            await,
            in_time 0 (omega arith),
            not_blocked stays_open (needs_more-frame u law m rest h),
            read_message-frame u law m rest h,
            e,
            found,
          )
          refl
    await-stream stays_open (suc fuel) id method limit late (x ∷ ms) m r rest hs skipped h e same
          in_time fuel_left =
        rw
          (
            await,
            in_time 0 (omega arith),
            not_blocked stays_open
                (needs_more-frame u law x (stream ms (stream (m ∷ []) rest)) hs.0),
            read_message-frame u law x (stream ms (stream (m ∷ []) rest)) hs.0,
            matching-skipped id method x skipped.0,
          )
          (await-stream stays_open fuel id method limit (λ round. late (suc round)) ms m r rest hs.1
            skipped.1 h e same (λ round k. in_time (suc round) (omega arith)) (omega arith))

    await-late :
        (stays_open : Bool) (fuel id : ℕ) (method : Text) (limit : ℕ) (late : ℕ → Bool)
        (ms : List Frame) (rest : Text)
        → All (IsFrame u) ms
        → All (IsSkipped id) ms
        → ((round : ℕ) → round < length ms → late round ≡ false)
        → late (length ms) ≡ true
        → length ms < fuel
        → await codec u stays_open fuel id method limit late (stream ms rest)
          ≡ ended (err (timeout limit), some rest)
    unfolding await
    await-late stays_open zero id method limit late ms rest hs skipped in_time over fuel_left =
        absurd (omega arith)
    await-late stays_open (suc fuel) id method limit late [] rest hs skipped in_time over
          fuel_left =
        rw (await, over) refl
    await-late stays_open (suc fuel) id method limit late (x ∷ ms) rest hs skipped in_time over
          fuel_left =
        rw
          (
            await,
            in_time 0 (omega arith),
            not_blocked stays_open (needs_more-frame u law x (stream ms rest) hs.0),
            read_message-frame u law x (stream ms rest) hs.0,
            matching-skipped id method x skipped.0,
          )
          (await-late stays_open fuel id method limit (λ round. late (suc round)) ms rest hs.1
            skipped.1 (λ round k. in_time (suc round) (omega arith)) over (omega arith))

  abbrev behind : StdioTransport → Text → StdioTransport
  behind t json = record t {
    stdin = t.stdin ++ write_message json;
    next_id = (t.next_id + 1) % 2 ^ 64;
  }

  -- A request that can be written is what `stdin` and the counter then show, and the wait follows.
  send_request-written :
      (t : StdioTransport) (method : Text) (params : Value) (late : ℕ → Bool) (json : Text)
      → codec.request_to_string (request codec u t.next_id method params) ≡ ok json
      → t.broken ≡ none
      → send_request codec u t method params late ≡ (
        record t { stdin = t.stdin ++ write_message json; next_id = (t.next_id + 1) % 2 ^ 64 },
        await codec u t.stays_open (suc (length t.stdout)) t.next_id method t.timeout late t.stdout,
      )
  unfolding send_request next_request_id write_raw
  send_request-written t method params late json written whole =
      rw written (ap (sent codec u counted t.next_id method late) write)
    where
      counted : StdioTransport
      counted = record t { next_id = (t.next_id + 1) % 2 ^ 64 }

      write : write_raw counted json ≡ ok (behind t json)
      write = ap (λ b. elim b [ some e ↦ err (io e) | none ↦ ok (behind t json) ]) whole

  module _ (law : IsUnicode u) where
    -- A request that can be written is answered by the first message that is a response with its
    -- identifier, past every notification and every response to another request, provided that the
    -- server's messages are framed correctly and no round up to that message starts behind the
    -- deadline. The request is what was written, and exactly the bytes behind the answer are left.
    pub send_request-answer :
        (t : StdioTransport) (method : Text) (params : Value) (late : ℕ → Bool) (json : Text)
        (ms : List Frame) (m : Frame) (r : JsonRpcResponse Value) (rest : Text)
        → codec.request_to_string (request codec u t.next_id method params) ≡ ok json
        → t.broken ≡ none
        → t.stdout ≡ stream ms (stream (m ∷ []) rest)
        → All (IsFrame u) ms
        → All (IsSkipped t.next_id) ms
        → IsFrame u m
        → codec.response_from_str m.json ≡ some r
        → r.id ≡ t.next_id
        → ((round : ℕ) → round ≤ length ms → late round ≡ false)
        → send_request codec u t method params late ≡ (
          record t { stdin = t.stdin ++ write_message json; next_id = (t.next_id + 1) % 2 ^ 64 },
          ended (answer codec u method r, some rest),
        )
    send_request-answer t method params late json ms m r rest written whole bytes hs skipped h e
          same in_time =
        let room = length-stream-le ms (stream (m ∷ []) rest) in
        send_request-written t method params late json written whole
        ∙ ap (λ o. (behind t json, o))
            (rw bytes (
              await-stream law t.stays_open _ t.next_id method t.timeout late ms m r rest hs skipped
                h e same in_time (omega arith)))

    -- When the deadline passes, the wait gives up: where the server's messages up to some point are
    -- framed correctly and none of them answers the request, and the round behind them is the first
    -- that starts behind the deadline, a request that can be written ends with the timeout that the
    -- transport was given, and not a byte behind these messages is read, an answer included.
    pub send_request-timeout :
        (t : StdioTransport) (method : Text) (params : Value) (late : ℕ → Bool) (json : Text)
        (ms : List Frame) (rest : Text)
        → codec.request_to_string (request codec u t.next_id method params) ≡ ok json
        → t.broken ≡ none
        → t.stdout ≡ stream ms rest
        → All (IsFrame u) ms
        → All (IsSkipped t.next_id) ms
        → ((round : ℕ) → round < length ms → late round ≡ false)
        → late (length ms) ≡ true
        → send_request codec u t method params late ≡ (
          record t { stdin = t.stdin ++ write_message json; next_id = (t.next_id + 1) % 2 ^ 64 },
          ended (err (timeout t.timeout), some rest),
        )
    send_request-timeout t method params late json ms rest written whole bytes hs skipped in_time
          over =
        let room = length-stream-le ms rest in
        send_request-written t method params late json written whole
        ∙ ap (λ o. (behind t json, o))
            (rw bytes (
              await-late law t.stays_open _ t.next_id method t.timeout late ms rest hs skipped
                in_time over (omega arith)))
