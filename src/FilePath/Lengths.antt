-- ===== src/FilePath/Lengths.antt =====
-- A parent directory is shorter than its path, or the path itself, or the current directory.
use claude_cowork_service.Base.{
  Bool, Bytes, List, [], arith, eqb, eqb→eq, false, if◌then◌else◌, is_empty, length, length-append,
  refl, suc, true, ℕ, ◌+◌, ◌<◌, ◌∷◌, ◌≡◌, ◌≤◌,
}
use claude_cowork_service.FilePath.Segments.{
  dot_dot, grow, resolve, slashed, split, step_into, step_up,
}

-- The bytes of the segments that are not empty, each with a slash.
unfoldable pub heavy : List Bytes → ℕ
unfolding is_empty
heavy [] = 0
heavy (s ∷ ss) = let rest = heavy ss in if is_empty s then rest else suc (length s) + rest

unfoldable pub empties : List Bytes → ℕ
unfolding is_empty
empties [] = 0
empties (s ∷ ss) = let rest = empties ss in if is_empty s then suc rest else rest

heavy-grow :
    (c : ℕ) (ss : List Bytes)
    → 0 < length ss
    → heavy (grow c ss) + empties (grow c ss) ≡ suc (heavy ss + empties ss)
unfolding grow heavy empties is_empty
heavy-grow c [] h = absurd (omega arith)
heavy-grow c ([] ∷ ss) h = ground arith
heavy-grow c ((d ∷ s) ∷ ss) h = ground arith

grow_some : (c : ℕ) (ss : List Bytes) → 0 < length (grow c ss)
unfolding grow
grow_some c [] = omega arith
grow_some c (s ∷ ss) = omega arith

pub split_some : (s : Bytes) → 0 < length (split b'/' s)
unfolding split grow
split_some [] = omega arith
split_some (c ∷ s) = ground (arith, grow_some c (split b'/' s))

pub split_weight : (s : Bytes) → heavy (split b'/' s) + empties (split b'/' s) ≡ suc (length s)
unfolding split heavy empties is_empty
split_weight [] = refl
split_weight (c ∷ s) = ground (arith, split_weight s, heavy-grow c (split b'/' s) (split_some s))

unfoldable pub stack_weight : List Bytes → ℕ
stack_weight [] = 0
stack_weight (s ∷ ss) = suc (length s) + stack_weight ss

two_dots : (seg : Bytes) → eqb seg dot_dot ≡ true → length seg ≡ 2
two_dots seg e = rw (eqb→eq seg dot_dot e) refl

step_weight :
    (rooted : Bool) (stack : List Bytes) (seg : Bytes)
    → stack_weight (step_into rooted stack seg) ≤ stack_weight stack + heavy (seg ∷ [])
unfolding step_into step_up stack_weight heavy is_empty
step_weight true [] seg = ground arith
step_weight false [] seg = ground (arith, two_dots seg)
step_weight true (p ∷ ps) seg = ground (arith, two_dots seg)
step_weight false (p ∷ ps) seg = ground (arith, two_dots seg)

pub resolve_weight :
    (rooted : Bool) (stack segs : List Bytes)
    → stack_weight (resolve rooted stack segs) ≤ stack_weight stack + heavy segs
unfolding resolve heavy
resolve_weight rooted stack [] = omega arith
resolve_weight rooted stack (seg ∷ segs) =
    ground
      (arith, step_weight rooted stack seg, resolve_weight rooted (step_into rooted stack seg) segs)

pub length-slashed : (stack : List Bytes) → length (slashed stack) ≡ stack_weight stack
unfolding slashed stack_weight
length-slashed [] = refl
length-slashed (p ∷ ps) = ground (arith, length-slashed ps, length-append (slashed ps) (b'/' ∷ p))

empties_rooted : (s : Bytes) → 0 < empties (split b'/' (b'/' ∷ s))
unfolding split empties is_empty
empties_rooted s = omega arith
