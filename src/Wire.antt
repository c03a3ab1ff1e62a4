-- ===== src/Wire.antt =====
-- The framing of both channels: pipe/protocol.go (ReadMessage, WriteMessage) between Claude
-- Desktop and the service, vm/bridge.go (readFramed, write) between the service and the guest.
-- A connection that is read is the list of the bytes that the peer sends before it closes.
pub mod Frames
mod Examples
use claude_cowork_service.Base.{
  ℕ, ◌+◌, ◌*◌, ◌/◌, ◌%◌, ◌^◌, [], ◌∷◌, ◌++◌, Bytes, length, take, drop, ltb, ◌==◌, if◌then◌else◌,
  Result, ok, err, map_err,
}

-- 10*1024*1024.
abbrev pub max_message : ℕ
max_message = 10485760

-- binary.BigEndian.PutUint32(buf, uint32(n)).
unfoldable pub put_uint32 : ℕ → Bytes
put_uint32 n = n / 16777216 % 256 ∷ (n / 65536 % 256 ∷ (n / 256 % 256 ∷ (n % 256 ∷ [])))

-- binary.BigEndian.Uint32(buf), of a buffer of four bytes.
unfoldable pub uint32 : Bytes → ℕ
uint32 (a ∷ b ∷ c ∷ d ∷ rest) = a * 16777216 + b * 65536 + c * 256 + d
uint32 short = 0

pub data ReadError : Type 0 where
  eof unexpected_eof : ReadError

-- io.ReadFull(conn, buf) with len(buf) = n: the bytes read or the error, and what is left unread.
unfoldable pub read_full : ℕ → Bytes → Result ReadError Bytes × Bytes
read_full n conn =
    if ltb (length conn) n
    then (if length conn == 0 then err eof else err unexpected_eof, [])
    else (ok (take n conn), drop n conn)

pub data MessageError : Type 0 where
  reading_length : ReadError → MessageError
  zero_length : MessageError
  too_large : ℕ → MessageError
  reading_payload : ℕ → ReadError → MessageError

-- The second io.ReadFull of both readers.
unfoldable pub read_payload : ℕ → Bytes → Result MessageError Bytes × Bytes
read_payload n conn = let (r, rest) = read_full n conn in (map_err (reading_payload n) r, rest)

-- What ReadMessage does with the four bytes of the prefix.
unfoldable pub after_prefix : Result ReadError Bytes → Bytes → Result MessageError Bytes × Bytes
unfolding read_payload
after_prefix (err e) rest = (err (reading_length e), rest)
after_prefix (ok len_buf) rest =
    if uint32 len_buf == 0
    then (err zero_length, rest)
    else if ltb max_message (uint32 len_buf)
    then (err (too_large (uint32 len_buf)), rest)
    else read_payload (uint32 len_buf) rest

unfoldable pub read_message : Bytes → Result MessageError Bytes × Bytes
unfolding after_prefix
read_message conn = let (r, rest) = read_full 4 conn in after_prefix r rest

-- The single buffer that conn.Write receives. `put_uint32` wraps a length past 32 bits.
unfoldable pub write_message : Bytes → Bytes
write_message payload = put_uint32 (length payload) ++ payload

-- What readFramed does with the four bytes of the prefix: a frame may be empty.
unfoldable pub after_framed_prefix :
    Result ReadError Bytes → Bytes → Result MessageError Bytes × Bytes
unfolding read_payload
after_framed_prefix (err e) rest = (err (reading_length e), rest)
after_framed_prefix (ok len_buf) rest =
    if ltb max_message (uint32 len_buf)
    then (err (too_large (uint32 len_buf)), rest)
    else read_payload (uint32 len_buf) rest

-- The guest channel's reader.
unfoldable pub read_framed : Bytes → Result MessageError Bytes × Bytes
unfolding after_framed_prefix
read_framed conn = let (r, rest) = read_full 4 conn in after_framed_prefix r rest
