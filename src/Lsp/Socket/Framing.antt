-- ===== src/Lsp/Socket/Framing.antt =====
-- A framed message is read back, whatever follows it on the stream.
use codequery.Prelude.{
  ℕ, ◌≤◌, ◌<◌, ◌^◌, ◌++◌, some, Text, ◌≡◌, refl, ap, ◌∙◌, arith, length, length-append,
  take-length_append, drop-length_append, ltb, false, true,
}
use codequery.Lsp.Types.{ok, err}
use codequery.Lsp.Socket.{
  Json, write_message, read_message, be_bytes, from_be_bytes, max_message_size, too_large,
  read_exact, read_payload,
}

from_be_bytes-be_bytes : (n : ℕ) → n < 2 ^ 32 → from_be_bytes (be_bytes n) ≡ n
from_be_bytes-be_bytes n h = omega arith

pub read_exact-append :
    (n : ℕ) (xs ys : Text) → length xs ≡ n → read_exact n (xs ++ ys) ≡ some (xs, ys)
read_exact-append n xs ys h =
    let enough : ltb (length (xs ++ ys)) (length xs) ≡ false =
      ground (arith, length-append xs ys) in
    rw (← h) (rw (enough, take-length_append, drop-length_append))

-- The four bytes of the length are read first.
read_prefix :
    {A : Type 0} (j : Json A) (n : ℕ) (s : Text)
    → n < 2 ^ 32
    → read_message j (be_bytes n ++ s) ≡ read_payload j n s
unfolding read_message
read_prefix j n s h =
    rw (read_exact-append 4 (be_bytes n) s refl)
      (ap (λ m. read_payload j m s) (from_be_bytes-be_bytes n h))

module _ {A : Type 0} (j : Json A) (message : A) (payload rest : Text) where
  -- A message whose JSON is read back and is at most 16 MiB long is written, and reading the stream
  -- gives the message and leaves exactly the bytes behind it.
  pub read_message-write_message :
      j.to_vec message ≡ some payload
      → j.from_slice payload ≡ some message
      → length payload ≤ max_message_size
      → (write_message j message ≡ ok (be_bytes (length payload) ++ payload))
        × (read_message j ((be_bytes (length payload) ++ payload) ++ rest) ≡ ok (message, rest))
  unfolding write_message read_message
  read_message-write_message w r fits =
      (rw w, (read_prefix j (length payload) (payload ++ rest) (omega arith) ∙ read_back))
    where
      small : ltb max_message_size (length payload) ≡ false
      small = ground arith

      read_back : read_payload j (length payload) (payload ++ rest) ≡ ok (message, rest)
      read_back = rw (small, read_exact-append (length payload) payload rest refl, r)

  -- The writer has no limit: a longer message, below 4 GiB, is written and refused by every reader.
  pub read_message-too_large :
      j.to_vec message ≡ some payload
      → max_message_size < length payload
      → length payload < 2 ^ 32
      → (write_message j message ≡ ok (be_bytes (length payload) ++ payload))
        × (read_message j ((be_bytes (length payload) ++ payload) ++ rest)
            ≡ err (too_large (length payload)))
  unfolding write_message read_message
  read_message-too_large w large small =
      (rw w, (read_prefix j (length payload) (payload ++ rest) small ∙ refused))
    where
      over : ltb max_message_size (length payload) ≡ true
      over = ground arith

      refused : read_payload j (length payload) (payload ++ rest) ≡ err (too_large (length payload))
      refused = rw over
