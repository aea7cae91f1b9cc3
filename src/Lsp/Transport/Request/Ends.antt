-- ===== src/Lsp/Transport/Request/Ends.antt =====
-- crates/codequery-lsp/src/transport.rs: the rounds that the wait for an answer is given are enough.
use codequery.Prelude.{
  ℕ, zero, suc, ◌+◌, ◌≤◌, ◌<◌, [], ◌∷◌, ◌++◌, Option, none, some, Text, Bool, true, false, ◌&&◌,
  ltb, nat_beq, arith, length, take, drop, length-append, Bool-cases, Option-cases, inl, inr,
}
use codequery.Lsp.Types.{LspError, timeout, Result, ok, err, ◌>>=◌}
use codequery.Lsp.Socket.{read_exact, or_err}
use codequery.Lsp.Transport.{
  Unicode, done, next, Headers, header_line, finished, last_line, read_lines, read_headers,
  utf8_body, read_message, needs_more,
}
use codequery.Lsp.Transport.Request.{
  Codec, Outcome, Waited, ended, blocked, await, matching, StdioTransport, wait_for_answer,
}

-- A result that holds of what was read.
abbrev LeavesLess {ℓ} : {A : Type ℓ} → ℕ → Result (A × Text) → Type 0
LeavesLess n (ok (_, rest)) = length rest < n
LeavesLess n (err e) = Unit

module _ (u : Unicode) where
  finished-LeavesLess :
      (o : Option ℕ) (s : Text) (n : ℕ) → length s < n → LeavesLess n (finished o s)
  finished-LeavesLess none s n h = tt
  finished-LeavesLess (some k) s n h = h

  last_line-LeavesLess :
      (o : Option ℕ) (r : Result Headers) (n : ℕ) → 0 < n → LeavesLess n (last_line o r)
  last_line-LeavesLess o (ok done) n h = finished-LeavesLess o [] n h
  last_line-LeavesLess o (ok (next m)) n h = tt
  last_line-LeavesLess o (err e) n h = tt

  behind_line :
      (n : ℕ) (o : Option ℕ) (s : Text) (r : Result Headers)
      → length s < n
      → ((m : Option ℕ) → LeavesLess n (read_lines u m [] s))
      → LeavesLess n (elim r [
        | ok h ↦ elim h [ done ↦ finished o s | next m ↦ read_lines u m [] s ]
        | err e ↦ err e
      ])
  behind_line n o s (ok done) h others = finished-LeavesLess o s n h
  behind_line n o s (ok (next m)) h others = others m
  behind_line n o s (err e) h others = tt

  read_lines-LeavesLess :
      (n : ℕ) (o : Option ℕ) (line s : Text)
      → length line + length s ≤ n
      → LeavesLess n (read_lines u o line s)
  unfolding read_lines
  read_lines-LeavesLess n o [] [] h = tt
  read_lines-LeavesLess n o (c ∷ line) [] h =
      last_line-LeavesLess o (header_line u o (c ∷ line)) n (omega arith)
  read_lines-LeavesLess n o line (c ∷ s) h = elim (Bool-cases (nat_beq c 10)) [
    | inl e ↦
        rw (read_lines, e)
          (behind_line n o s (header_line u o (line ++ c ∷ [])) (omega arith)
            (λ m. read_lines-LeavesLess n m [] s (omega arith)))
    | inr e ↦
        rw (read_lines, e)
          (read_lines-LeavesLess n o (line ++ c ∷ []) s
            (omega (arith, length-append line (c ∷ []))))
  ]

  length-drop-le : (n : ℕ) (s : Text) → length (drop n s) ≤ length s
  length-drop-le zero s = omega arith
  length-drop-le (suc n) [] = omega arith
  length-drop-le (suc n) (c ∷ s) = omega (arith, length-drop-le n s)

  behind_body : (n : ℕ) (b : Text × Text) → length b.1 < n → LeavesLess n (utf8_body u b)
  behind_body n (body, rest) h = elim (Bool-cases (u.is_utf8 body)) [
    | inl valid ↦ rw valid h
    | inr broken ↦ rw broken tt
  ]

  behind_headers :
      (n : ℕ) (e : LspError) (r : Result (ℕ × Text))
      → LeavesLess n r
      → LeavesLess n
          (do headers ← r; body ← or_err e (read_exact headers.0 headers.1); utf8_body u body)
  behind_headers n e (err _) h = tt
  behind_headers n e (ok (k, s)) h = elim (Bool-cases (ltb (length s) k)) [
    | inl short ↦ rw short tt
    | inr enough ↦
        rw enough (behind_body n (take k s, drop k s) (omega (arith, length-drop-le k s)))
  ]

  -- A message takes at least one byte off the stream.
  read_message-LeavesLess : (s : Text) (n : ℕ) → length s ≤ n → LeavesLess n (read_message u s)
  unfolding read_message read_headers
  read_message-LeavesLess s n h =
      behind_headers n _ (read_lines u none [] s) (read_lines-LeavesLess n none [] s (omega arith))

module _ {Value : Type 0} (codec : Codec Value) (u : Unicode) where
  -- The wait gives a result, or it blocks on a pipe that stays open; its rounds do not run out.
  pub data ComesToEnd : Bool → Waited codec u → Type 0 where
    gives : {stays_open : Bool} (o : Outcome codec u) → ComesToEnd stays_open (ended o)
    blocks : ComesToEnd true blocked

  blocked_only_open :
      (stays_open more : Bool) {w : Waited codec u}
      → ComesToEnd stays_open w
      → ComesToEnd stays_open (elim (stays_open && more) [ true ↦ blocked | false ↦ w ])
  blocked_only_open true true h = blocks
  blocked_only_open true false h = h
  blocked_only_open false more h = h

  -- A round ends the wait, or leaves it to the rounds behind it.
  round_ends :
      (stays_open : Bool) (id : ℕ) (method : Text) (n : ℕ) (others : Text → Waited codec u)
      → ((s : Text) → length s < n → ComesToEnd stays_open (others s))
      → (r : Result (Text × Text)) → LeavesLess n r
      → ComesToEnd stays_open (elim r [
        | err e ↦ ended (err e, none)
        | ok (msg, rest) ↦ elim (matching codec u id method (codec.response_from_str msg)) [
          | some result ↦ ended (result, some rest)
          | none ↦ others rest
        ]
      ])
  round_ends stays_open id method n others ih (err e) h = gives (err e, none)
  round_ends stays_open id method n others ih (ok (msg, rest)) h =
      elim (Option-cases (matching codec u id method (codec.response_from_str msg))) [
        | inl e ↦ rw e (ih rest h)
        | inr (a, e) ↦ rw e (gives (a, some rest))
      ]

  await-ComesToEnd :
      (stays_open : Bool) (fuel id : ℕ) (method : Text) (limit : ℕ) (late : ℕ → Bool) (s : Text)
      → length s < fuel
      → ComesToEnd stays_open (await codec u stays_open fuel id method limit late s)
  unfolding await
  await-ComesToEnd stays_open zero id method limit late s h = absurd (omega arith)
  await-ComesToEnd stays_open (suc fuel) id method limit late s h = elim (Bool-cases (late 0)) [
    | inl e ↦ rw (await, e) (gives (err (timeout limit), some s))
    | inr e ↦
        rw (await, e)
          (blocked_only_open stays_open (needs_more u none [] s) (
            round_ends stays_open id method fuel
              (await codec u stays_open fuel id method limit (λ round. late (suc round)))
              (λ rest.
                await-ComesToEnd stays_open fuel id method limit (λ round. late (suc round)) rest)
              (read_message u s) (read_message-LeavesLess u s fuel (omega arith))))
  ]

  -- The rounds that a wait is given are enough, whatever the server writes and however the clock
  -- runs: only a read on a pipe that stays open blocks.
  wait_for_answer-ComesToEnd :
      (t : StdioTransport) (id : ℕ) (method : Text) (late : ℕ → Bool)
      → ComesToEnd t.stays_open (wait_for_answer codec u t id method late)
  wait_for_answer-ComesToEnd t id method late =
      await-ComesToEnd t.stays_open (suc (length t.stdout)) id method t.timeout late t.stdout
        (omega arith)
