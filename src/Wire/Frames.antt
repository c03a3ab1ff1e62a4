-- ===== src/Wire/Frames.antt =====
-- The two readers against the writer.
use claude_cowork_service.Base.{
  All, Bytes, Result, [], append_assoc, arith, drop, drop-append, err, length, length-append,
  length-take_le, ok, take, take-append, take-append-drop, ℕ, ◌++◌, ◌<◌, ◌∷◌, ◌≡◌, ◌≢◌, ◌≤◌,
}
use claude_cowork_service.Wire.{
  ReadError, after_prefix, eof, max_message, put_uint32, read_framed, read_full, read_message,
  read_payload, too_large, uint32, unexpected_eof, write_message,
}

-- Every entry is a byte.
abbrev pub IsBytes : Bytes → Type 0
IsBytes = All (λ b. b < 256)

uint32-put_uint32 : (n : ℕ) → n < 4294967296 → uint32 (put_uint32 n) ≡ n
unfolding uint32 put_uint32
uint32-put_uint32 n h = omega arith

read_full-append : (xs ys : Bytes) → read_full (length xs) (xs ++ ys) ≡ (ok xs, ys)
unfolding read_full
read_full-append xs ys = ground (arith, length-append xs ys, take-append xs ys, drop-append xs ys)

read_header :
    (payload rest : Bytes)
    → read_full 4 (write_message payload ++ rest)
      ≡ (ok (put_uint32 (length payload)), payload ++ rest)
unfolding write_message put_uint32
read_header payload rest =
    rw (append_assoc) (read_full-append (put_uint32 (length payload)) (payload ++ rest))

-- A frame of 1 to 10 MiB of payload is read back, and the reader stops at its end.
pub read_message-write_message :
    (payload rest : Bytes)
    → 0 < length payload
    → length payload ≤ max_message
    → read_message (write_message payload ++ rest) ≡ (ok payload, rest)
unfolding read_message
read_message-write_message payload rest h k =
    rw (read_header payload rest)
      (ground (arith, uint32-put_uint32 (length payload), read_full-append payload rest))

-- The guest channel's reader also reads back the empty frame.
pub read_framed-write_message :
    (payload rest : Bytes)
    → length payload ≤ max_message
    → read_framed (write_message payload ++ rest) ≡ (ok payload, rest)
unfolding read_framed
read_framed-write_message payload rest k =
    rw (read_header payload rest)
      (ground (arith, uint32-put_uint32 (length payload), read_full-append payload rest))

-- A payload past 10 MiB whose length fits in 32 bits is refused after its prefix.
pub read_message-too_large :
    (payload rest : Bytes)
    → max_message < length payload
    → length payload < 4294967296
    → read_message (write_message payload ++ rest)
      ≡ (err (too_large (length payload)), payload ++ rest)
unfolding read_message
read_message-too_large payload rest h k =
    rw (read_header payload rest) (ground (arith, uint32-put_uint32 (length payload)))

put_uint32-uint32 :
    (a b c d : ℕ)
    → a < 256
    → b < 256
    → c < 256
    → d < 256
    → put_uint32 (uint32 (a ∷ b ∷ c ∷ d ∷ [])) ≡ a ∷ b ∷ c ∷ d ∷ []
unfolding uint32 put_uint32
put_uint32-uint32 a b c d ha hb hc hd = ground arith

read_full_ok :
    (n : ℕ) (conn xs rest : Bytes)
    → read_full n conn ≡ (ok xs, rest)
    → (conn ≡ xs ++ rest) × (length xs ≡ n)
unfolding read_full
read_full_ok n conn xs rest h = ground (arith, take-append-drop n conn, length-take_le n conn)

read_payload_ok :
    (n : ℕ) (conn payload rest : Bytes)
    → read_payload n conn ≡ (ok payload, rest)
    → (conn ≡ payload ++ rest) × (length payload ≡ n)
unfolding read_payload
read_payload_ok n conn payload rest h = ground (arith, read_full_ok n conn payload rest)

read_after_header :
    (a b c d : ℕ) (conn : Bytes)
    → read_full 4 (a ∷ b ∷ c ∷ d ∷ conn) ≡ (ok (a ∷ b ∷ c ∷ d ∷ []), conn)
unfolding read_full
read_after_header a b c d conn = ground arith

read_message_short :
    (conn payload rest : Bytes) → length conn < 4 → read_message conn ≢ (ok payload, rest)
unfolding read_message read_full
read_message_short conn payload rest h = ground arith

-- What a successful read took off the connection is exactly the frame of the payload that it
-- returns, and that payload is neither empty nor past 10 MiB.
pub read_message_exact :
    (conn payload rest : Bytes)
    → IsBytes conn
    → read_message conn ≡ (ok payload, rest)
    → (conn ≡ write_message payload ++ rest) × (0 < length payload) × (length payload ≤ max_message)
unfolding read_message write_message
read_message_exact [] payload rest b h = absurd (read_message_short [] payload rest (omega arith) h)
read_message_exact (x ∷ []) payload rest b h =
    absurd (read_message_short (x ∷ []) payload rest (omega arith) h)
read_message_exact (x ∷ y ∷ []) payload rest b h =
    absurd (read_message_short (x ∷ y ∷ []) payload rest (omega arith) h)
read_message_exact (x ∷ y ∷ z ∷ []) payload rest b h =
    absurd (read_message_short (x ∷ y ∷ z ∷ []) payload rest (omega arith) h)
read_message_exact (x ∷ y ∷ z ∷ w ∷ conn) payload rest b h =
    let m = rw (read_after_header x y z w conn) at h in
    ground (
      arith,
      put_uint32-uint32 x y z w,
      m,
      read_payload_ok (uint32 (x ∷ y ∷ z ∷ w ∷ [])) conn payload rest,
    )

after_prefix_le :
    (r : Result ReadError Bytes) (conn payload rest : Bytes)
    → after_prefix r conn ≡ (ok payload, rest)
    → (r ≢ err eof) × (r ≢ err unexpected_eof) × (length rest ≤ length conn)
unfolding after_prefix
after_prefix_le (err e) conn payload rest h = ground arith
after_prefix_le (ok len_buf) conn payload rest h =
    ground (arith, read_payload_ok (uint32 len_buf) conn payload rest, length-append payload rest)

read_full_shorter :
    (conn : Bytes)
    → let (r, rest) = read_full 4 conn in
      (r ≢ err eof) → (r ≢ err unexpected_eof) → length rest < length conn
unfolding read_full
read_full_shorter conn = ground (
  arith,
  take-append-drop 4 conn,
  length-append (take 4 conn) (drop 4 conn),
  length-take_le 4 conn,
)

-- A successful read takes at least a prefix off the connection.
pub read_message_shorter :
    (conn payload : Bytes)
    → (read_message conn).0 ≡ ok payload
    → length (read_message conn).1 < length conn
unfolding read_message
read_message_shorter conn payload h =
    let (r, more) = read_full 4 conn in
    let (a, c, l) = after_prefix_le r more payload (read_message conn).1 (ground arith) in
    omega (arith, read_full_shorter conn a c)
