-- ===== src/Transcript/Slug.antt =====
-- Slugs and session ids as path components.
use claude_cowork_service.Base.{
  All, Bool, Bool-cases, Bytes, [], ap, arith, if◌then◌else◌, inl, inr, leb, length, ltb, map, refl,
  suc, true, zero, ℕ, ◌&&◌, ◌<◌, ◌||◌, ◌∷◌, ◌≡◌, ◌≤◌, ◌⊎◌,
}
use claude_cowork_service.Transcript.Rune.{rune_tail}
use claude_cowork_service.Transcript.{is_alnum, max_slug_len, slug_byte, slug_from, slugify}

-- The ASCII codes of digits, capital and small letters.
abbrev is_word : ℕ → Bool
is_word c = leb 48 c && leb c 57 || (leb 65 c && leb c 90 || leb 97 c && leb c 122)

-- A character as Claude writes it in a project directory's name: 45 is the dash.
abbrev pub dashed : ℕ → ℕ
dashed c = if is_word c then c else 45

-- The characters of such a name.
abbrev pub IsSlugByte : ℕ → Type 0
IsSlugByte c = (is_word c ≡ true) ⊎ (c ≡ 45)

abbrev pub IsAscii : ℕ → Type 0
IsAscii c = c < 128

slug_byte-dashed : (c : ℕ) → slug_byte c ≡ dashed c
unfolding slug_byte is_alnum
slug_byte-dashed c = ground arith

slug_byte-IsSlugByte : (c : ℕ) → IsSlugByte (slug_byte c)
slug_byte-IsSlugByte c =
    rw (slug_byte-dashed c)
      (elim (Bool-cases (is_word c)) [ inl h ↦ rw (h, h) (inl refl) | inr h ↦ rw h (inr refl) ])

slug_from-All : (n : ℕ) (s : Bytes) → All IsSlugByte (slug_from n s)
unfolding slug_from
slug_from-All n [] = tt
slug_from-All (suc n) (c ∷ s) = slug_from-All n s
slug_from-All zero (c ∷ s) = (slug_byte-IsSlugByte c, slug_from-All (rune_tail c s) s)

tail_of_slug_byte : (c : ℕ) (s : Bytes) → IsSlugByte c → rune_tail c s ≡ 0
unfolding rune_tail is_alnum
tail_of_slug_byte c s h = let small : c < 128 = ground arith in ground arith

slug_byte_lem : (c : ℕ) → IsSlugByte c → slug_byte c ≡ c
unfolding slug_byte
slug_byte_lem c h = ground arith

slug_from_self : (s : Bytes) → All IsSlugByte s → slug_from 0 s ≡ s
unfolding slug_from
slug_from_self [] h = refl
slug_from_self (c ∷ s) h =
    ground (arith, tail_of_slug_byte c s h.0, slug_byte_lem c h.0, slug_from_self s h.1)

rune_tail_ascii : (c : ℕ) (s : Bytes) → IsAscii c → rune_tail c s ≡ 0
unfolding rune_tail
rune_tail_ascii c s h = ground arith

slug_from_ascii : (s : Bytes) → All IsAscii s → slug_from 0 s ≡ map dashed s
unfolding slug_from
slug_from_ascii [] h = refl
slug_from_ascii (c ∷ s) h = rw (rune_tail_ascii c s h.0, slug_byte-dashed c, slug_from_ascii s h.1)

length-map-dashed : (s : Bytes) → length (map dashed s) ≡ length s
length-map-dashed [] = refl
length-map-dashed (c ∷ s) = ap suc (length-map-dashed s)

slugify_ascii :
    (s : Bytes) → All IsAscii s → slugify s ≡ (if ltb 200 (length s) then [] else map dashed s)
unfolding slugify
slugify_ascii s h = rw (slug_from_ascii s h, length-map-dashed s)

empty_slug : slugify [] ≡ []
unfolding slugify slug_from
empty_slug = refl

slugify_shape :
    (path : Bytes)
    → All IsSlugByte (slugify path)
      × (length (slugify path) ≤ 200)
      × (slugify (slugify path) ≡ slugify path)
unfolding slugify
slugify_shape path =
    let bytes = slug_from-All 0 path in
    elim (Bool-cases (ltb max_slug_len (length (slug_from 0 path)))) [
      | inl long ↦ rw long (tt, omega arith, empty_slug)
      | inr short ↦
          rw short
            (bytes, ground (arith, short), rw (slug_from_self (slug_from 0 path) bytes, short) refl)
    ]

-- The slug of any path has at most 200 characters, all of them ASCII letters, digits or dashes, so
-- that it holds no slash and no dot, and it is its own slug. The slug of a path in ASCII is the path
-- with a dash for each character that is no letter or digit, and empty if the path is longer than
-- 200 characters.
pub slugify_lem :
    (path : Bytes)
    → All IsSlugByte (slugify path)
      × (length (slugify path) ≤ 200)
      × (slugify (slugify path) ≡ slugify path)
      × (All IsAscii path → slugify path ≡ (if ltb 200 (length path) then [] else map dashed path))
slugify_lem path = let shape = slugify_shape path in (shape.0, shape.1, shape.2, slugify_ascii path)
