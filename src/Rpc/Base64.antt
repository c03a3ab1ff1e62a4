-- ===== src/Rpc/Base64.antt =====
-- base64.StdEncoding, in which readFile answers: the encoder, and the decoder that Desktop applies.
use claude_cowork_service.Base.{
  All, Bytes, [], arith, false, if◌then◌else◌, leb, ltb, refl, ℕ, ◌%◌, ◌*◌, ◌+◌, ◌-◌, ◌/◌, ◌<◌,
  ◌==◌, ◌∷◌, ◌≡◌,
}

-- The character of a 6-bit value.
unfoldable pub sextet_char : ℕ → ℕ
sextet_char n =
    if ltb n 26
    then b'A' + n
    else if ltb n 52
    then b'a' + (n - 26)
    else if ltb n 62
    then b'0' + (n - 52)
    else if n == 62
    then b'+'
    else b'/'

abbrev pub pad : ℕ
pad = b'='

-- base64.StdEncoding.EncodeToString: four characters for three bytes, with padding at the end.
unfoldable pub encode : Bytes → Bytes
unfolding sextet_char
encode [] = []
encode (a ∷ []) = sextet_char (a / 4) ∷ (sextet_char (a % 4 * 16) ∷ (pad ∷ (pad ∷ [])))
encode (a ∷ b ∷ []) =
    sextet_char (a / 4)
    ∷ (sextet_char (a % 4 * 16 + b / 16) ∷ (sextet_char (b % 16 * 4) ∷ (pad ∷ [])))
encode (a ∷ b ∷ c ∷ rest) =
    sextet_char (a / 4)
    ∷ (sextet_char (a % 4 * 16 + b / 16)
        ∷ (sextet_char (b % 16 * 4 + c / 64) ∷ (sextet_char (c % 64) ∷ encode rest)))

-- The 6-bit value of a character of the alphabet.
unfoldable pub char_sextet : ℕ → ℕ
char_sextet c =
    if leb b'a' c
    then c - b'a' + 26
    else if leb b'A' c
    then c - b'A'
    else if leb b'0' c
    then c - b'0' + 52
    else if c == b'+'
    then 62
    else 63

decode_group : ℕ → ℕ → ℕ → ℕ → Bytes → Bytes
unfolding char_sextet
decode_group x y z w rest =
    let first = char_sextet x * 4 + char_sextet y / 16 in
    let second = char_sextet y % 16 * 16 + char_sextet z / 4 in
    let third = char_sextet z % 4 * 64 + char_sextet w in
    if z == pad
    then first ∷ []
    else if w == pad
    then first ∷ (second ∷ [])
    else first ∷ (second ∷ (third ∷ rest))

-- The decoder of a well-formed text.
unfoldable pub decode : Bytes → Bytes
unfolding decode_group
decode (x ∷ y ∷ z ∷ w ∷ rest) = decode_group x y z w (decode rest)
decode short = []

char_sextet-sextet_char : (n : ℕ) → n < 64 → char_sextet (sextet_char n) ≡ n
unfolding char_sextet sextet_char
char_sextet-sextet_char n h = ground arith

sextet_char-ne-pad : (n : ℕ) → (sextet_char n == pad) ≡ false
unfolding sextet_char
sextet_char-ne-pad n = ground arith

-- Whatever bytes a file holds, what Desktop decodes is the file.
pub decode-encode : (s : Bytes) → All (λ c. c < 256) s → decode (encode s) ≡ s
unfolding decode encode
decode-encode [] h = refl
decode-encode (a ∷ []) h =
    ground (arith, char_sextet-sextet_char (a / 4), char_sextet-sextet_char (a % 4 * 16))
decode-encode (a ∷ b ∷ []) h = ground (
  arith,
  char_sextet-sextet_char (a / 4),
  char_sextet-sextet_char (a % 4 * 16 + b / 16),
  char_sextet-sextet_char (b % 16 * 4),
  sextet_char-ne-pad (b % 16 * 4),
)
decode-encode (a ∷ b ∷ c ∷ s) h = ground (
  arith,
  char_sextet-sextet_char (a / 4),
  char_sextet-sextet_char (a % 4 * 16 + b / 16),
  char_sextet-sextet_char (b % 16 * 4 + c / 64),
  char_sextet-sextet_char (c % 64),
  sextet_char-ne-pad (b % 16 * 4 + c / 64),
  sextet_char-ne-pad (c % 64),
  decode-encode s,
)
