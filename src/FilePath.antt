-- ===== src/FilePath.antt =====
-- Package path/filepath on Unix, as far as the service uses it, on byte strings.
pub mod Segments
pub mod Lengths
pub mod Parents
mod Tests
use claude_cowork_service.Base.{
  Bool, Bytes, List, [], has_byte, if◌then◌else◌, is_empty, ◌&&◌, ◌++◌, ◌==◌, ◌∷◌,
}
use Segments.{is_rooted, render, resolve, split}

-- filepath.Clean. A path is taken apart at its slashes.
unfoldable pub clean : Bytes → Bytes
unfolding is_rooted render resolve split is_empty
clean path =
    if is_empty path
    then b'.' ∷ []
    else render (is_rooted path) (resolve (is_rooted path) [] (split b'/' path))

-- filepath.IsAbs.
unfoldable pub is_abs : Bytes → Bool
unfolding is_rooted
is_abs path = is_rooted path

-- The elements of filepath.Join that are not empty, with a slash between two.
join_parts : List Bytes → Bytes
unfolding is_empty
join_parts [] = []
join_parts (p ∷ ps) =
    let rest = join_parts ps in
    if is_empty p then rest else if is_empty rest then p else p ++ b'/' ∷ rest

-- filepath.Join.
unfoldable pub join : List Bytes → Bytes
unfolding join_parts clean
join ps = let path = join_parts ps in if is_empty path then [] else clean path

strip_slashes : Bytes → Bytes
strip_slashes [] = []
strip_slashes (c ∷ s) =
    let rest = strip_slashes s in if is_empty rest && c == b'/' then [] else c ∷ rest

after_last_slash : Bytes → Bytes
after_last_slash [] = []
after_last_slash (c ∷ s) =
    if has_byte s b'/' then after_last_slash s else if c == b'/' then s else c ∷ s

-- filepath.Base.
unfoldable pub base : Bytes → Bytes
unfolding strip_slashes after_last_slash is_empty has_byte
base path =
    if is_empty path
    then b'.' ∷ []
    else let s = strip_slashes path in if is_empty s then b'/' ∷ [] else after_last_slash s

unfoldable pub up_to_last_slash : Bytes → Bytes
up_to_last_slash [] = []
up_to_last_slash (c ∷ s) =
    let rest = up_to_last_slash s in if has_byte (c ∷ s) b'/' then c ∷ rest else []

-- filepath.Dir.
unfoldable pub dir : Bytes → Bytes
unfolding up_to_last_slash clean has_byte
dir path = clean (up_to_last_slash path)
