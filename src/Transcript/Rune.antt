-- ===== src/Transcript/Rune.antt =====
-- The runes that `range` visits in a string: UTF-8 sequences, and one byte where the text is not
-- valid UTF-8.
use claude_cowork_service.Base.{
  Bool, Bytes, [], false, if◌then◌else◌, leb, not, suc, zero, ℕ, ◌&&◌, ◌==◌, ◌∷◌,
}

within : ℕ → ℕ → Bytes → Bool
within lo hi [] = false
within lo hi (c ∷ s) = leb lo c && leb c hi

abbrev rest_of : Bytes → Bytes
rest_of [] = []
rest_of (c ∷ s) = s

-- The rune's second byte lies in the range, and `n` continuation bytes follow.
continues : ℕ → ℕ → ℕ → Bytes → Bool
unfolding within
continues lo hi zero s = within lo hi s
continues lo hi (suc n) s = within lo hi s && continues 128 191 n (rest_of s)

-- How many bytes after `c` belong to the rune that `c` begins.
unfoldable pub rune_tail : ℕ → Bytes → ℕ
unfolding continues
rune_tail c s =
    if leb 194 c && leb c 223 && continues 128 191 0 s
    then 1
    else if c == 224 && continues 160 191 1 s
    then 2
    else if c == 237 && continues 128 159 1 s
    then 2
    else if leb 225 c && leb c 239 && (not (c == 237) && continues 128 191 1 s)
    then 2
    else if c == 240 && continues 144 191 2 s
    then 3
    else if leb 241 c && leb c 243 && continues 128 191 2 s
    then 3
    else if c == 244 && continues 128 143 2 s
    then 3
    else 0
