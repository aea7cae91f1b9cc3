-- ===== src/Tests/Transport.antt =====
-- Runs of the theorems on the pipes of a language server.
use codequery.Prelude.{
  ltb, ℕ, ◌+◌, ◌%◌, ◌^◌, [], ◌∷◌, ◌++◌, none, some, codes, true, false, ◌==◌, text_eq,
  if◌then◌else◌, ◌≡◌, refl, arith,
}
use codequery.Prelude.Trim.{trim_ascii}
use codequery.Lsp.Types.{timeout, ok, err}
use codequery.Lsp.Transport.{Unicode, write_message}
use codequery.Lsp.Transport.Framing.{IsUnicode}
use codequery.Lsp.Transport.Stream.{Frame, IsFrame, stream, read_messages, read_messages-stream}
use codequery.Lsp.Transport.Request.{
  Codec, JsonRpcResponse, StdioTransport, ended, blocked, answer, send_request,
}
use codequery.Lsp.Transport.Request.Answer.{send_request-answer, send_request-timeout}

abbrev u : Unicode
u = record { is_utf8 = λ s. true; utf8_error = λ s. []; trim = trim_ascii }

u-law : IsUnicode u
u-law = record { ascii_utf8 = λ s h. refl; ascii_trim = λ s h. refl }

-- A message with a second header, and one without.
abbrev typed : Frame
typed = record { others = (codes "Content-Type: a" ++ 13 ∷ []) ∷ []; json = codes "{}" }

abbrev plain : Frame
plain = record { others = []; json = codes "r" }

typed-IsFrame : IsFrame u typed
unfolding trim_ascii
typed-IsFrame = record {
  others = (
    record { ascii = ground arith; one_line = ground arith; not_blank = refl; not_length = refl },
    tt,
  );
  utf8 = refl;
  fits = omega arith;
}

plain-IsFrame : IsFrame u plain
plain-IsFrame = record { others = tt; utf8 = refl; fits = omega arith }

read_messages-stream_example :
    read_messages u 2 (stream (typed ∷ plain ∷ []) (codes "rest"))
    ≡ ok (codes "{}" ∷ codes "r" ∷ [], codes "rest")
read_messages-stream_example =
    read_messages-stream u u-law (typed ∷ plain ∷ []) (codes "rest")
      (typed-IsFrame, (plain-IsFrame, tt))

abbrev response : JsonRpcResponse ℕ
response = record { jsonrpc = codes "2.0"; id = 7; result = some 5; error = none }

-- The text `r` is the response to the request 7.
abbrev codec : Codec ℕ
codec = record {
  null = 0;
  request_to_string = λ r. ok (codes "q");
  notification_to_string = λ n. ok (codes "n");
  response_from_str = λ s. if s == codes "r" then some response else none;
}

abbrev transport : StdioTransport
transport = record {
  stdin = [];
  broken = none;
  stdout = stream (typed ∷ []) (stream (plain ∷ []) (codes "rest"));
  stays_open = true;
  timeout = 30;
  next_id = 7;
}

send_request-answer_example : send_request codec u transport (codes "m") 1 (λ round. false) ≡ (
  record transport { stdin = [] ++ write_message (codes "q"); next_id = (7 + 1) % 2 ^ 64 },
  ended (answer codec u (codes "m") response, some (codes "rest")),
)
send_request-answer_example =
    send_request-answer codec u u-law transport (codes "m") 1 (λ round. false) (codes "q")
      (typed ∷ []) plain response (codes "rest") refl refl refl (typed-IsFrame, tt)
      (λ r e same. cc e, tt) plain-IsFrame refl refl (λ round h. refl)

-- The deadline passes behind the first message: the answer that follows is not read.
send_request-timeout_example :
    send_request codec u transport (codes "m") 1 (λ round. ltb 0 round) ≡ (
      record transport { stdin = [] ++ write_message (codes "q"); next_id = (7 + 1) % 2 ^ 64 },
      ended (err (timeout 30), some (stream (plain ∷ []) (codes "rest"))),
    )
send_request-timeout_example =
    send_request-timeout codec u u-law transport (codes "m") 1 (λ round. ltb 0 round) (codes "q")
      (typed ∷ []) (stream (plain ∷ []) (codes "rest")) refl refl refl (typed-IsFrame, tt)
      (λ r e same. cc e, tt) (λ round h. ground arith) refl

-- A server that leaves its output open and silent is waited for without end.
silent :
    (send_request codec u (record transport { stdout = [] }) (codes "m") 1 (λ round. false)).1
    ≡ blocked
unfolding send_request codequery.Lsp.Transport.Request.write_raw
    codequery.Lsp.Transport.Request.await codequery.Lsp.Transport.needs_more
silent = refl
