-- ===== src/FilePath/Segments.antt =====
-- A path as the list of the segments between its slashes.
use claude_cowork_service.Base.{
  Bool, Bytes, List, [], eqb, false, if◌then◌else◌, is_empty, true, ℕ, ◌++◌, ◌==◌, ◌||◌, ◌∷◌,
}

-- The piece before the first separator goes on growing at its front.
unfoldable pub grow : ℕ → List Bytes → List Bytes
grow c [] = (c ∷ []) ∷ []
grow c (p ∷ ps) = (c ∷ p) ∷ ps

-- strings.Split(s, sep) with a separator of one byte.
unfoldable pub split : ℕ → Bytes → List Bytes
unfolding grow
split sep [] = [] ∷ []
split sep (c ∷ s) = let rest = split sep s in if c == sep then [] ∷ rest else grow c rest

-- The path begins with a slash.
unfoldable pub is_rooted : Bytes → Bool
is_rooted [] = false
is_rooted (c ∷ s) = c == b'/'

abbrev pub dot : Bytes
dot = b'.' ∷ []

abbrev pub dot_dot : Bytes
dot_dot = b'.' ∷ (b'.' ∷ [])

-- A ".." takes the innermost segment off the stack; above a root it is dropped, and in a relative
-- path it stays.
unfoldable pub step_up : Bool → List Bytes → List Bytes
unfolding eqb
step_up true [] = []
step_up false [] = dot_dot ∷ []
step_up rooted (p ∷ ps) = if eqb p dot_dot then dot_dot ∷ (p ∷ ps) else ps

unfoldable pub step_into : Bool → List Bytes → Bytes → List Bytes
unfolding step_up eqb is_empty
step_into rooted stack seg =
    if is_empty seg || eqb seg dot
    then stack
    else if eqb seg dot_dot
    then step_up rooted stack
    else seg ∷ stack

-- The stack of segments, the innermost first, that a path resolves to.
unfoldable pub resolve : Bool → List Bytes → List Bytes → List Bytes
unfolding step_into
resolve rooted stack [] = stack
resolve rooted stack (seg ∷ segs) = resolve rooted (step_into rooted stack seg) segs

-- The segments with a slash before each, the innermost last.
unfoldable pub slashed : List Bytes → Bytes
slashed [] = []
slashed (p ∷ ps) = slashed ps ++ b'/' ∷ p

unfoldable pub drop_slash : Bytes → Bytes
drop_slash [] = []
drop_slash (c ∷ s) = s

unfoldable pub render : Bool → List Bytes → Bytes
unfolding slashed drop_slash
render true [] = b'/' ∷ []
render false [] = dot
render true (p ∷ ps) = slashed (p ∷ ps)
render false (p ∷ ps) = drop_slash (slashed (p ∷ ps))
