-- ===== src/FilePath/Parents.antt =====
-- A parent directory is shorter than its path, or the path itself, or the current directory.
use mathlib.Core.Path.{◌≡◌, ◌∙◌, refl, subst, sym}
use claude_cowork_service.Base.{
  Bool, Bool-cases, Bytes, List, [], arith, false, has_byte, inl, inr, is_empty, length, refl,
  subst, suc, sym, true, ℕ, ◌-◌, ◌<◌, ◌==◌, ◌∙◌, ◌∷◌, ◌≡◌, ◌≤◌, ◌⊎◌,
}
use claude_cowork_service.FilePath.{clean, dir, up_to_last_slash}
use claude_cowork_service.FilePath.Segments.{
  dot, drop_slash, grow, is_rooted, render, resolve, slashed, split,
}
use claude_cowork_service.FilePath.Lengths.{
  empties, resolve_weight, length-slashed, split_some, split_weight, stack_weight,
}

last_empty : List Bytes → Bool
unfolding is_empty
last_empty [] = false
last_empty (s ∷ []) = is_empty s
last_empty (s ∷ t ∷ ss) = last_empty (t ∷ ss)

nothing_last : last_empty (split b'/' []) ≡ true
unfolding last_empty split is_empty
nothing_last = refl

last_empty-grow : (c : ℕ) (ss : List Bytes) → 1 < length ss → last_empty (grow c ss) ≡ last_empty ss
unfolding last_empty grow
last_empty-grow c [] h = absurd (omega arith)
last_empty-grow c (s ∷ []) h = absurd (omega arith)
last_empty-grow c (s ∷ t ∷ ss) h = refl

last_empty_cons :
    (s : Bytes) (ss : List Bytes) → 0 < length ss → last_empty (s ∷ ss) ≡ last_empty ss
unfolding last_empty
last_empty_cons s [] h = absurd (omega arith)
last_empty_cons s (t ∷ ss) h = refl

last_empty_counts : (ss : List Bytes) → last_empty ss ≡ true → 0 < empties ss
unfolding last_empty empties is_empty
last_empty_counts [] h = absurd (ground arith)
last_empty_counts (s ∷ []) h = ground arith
last_empty_counts (s ∷ t ∷ ss) h = ground (arith, last_empty_counts (t ∷ ss) h)

grow_count : (c : ℕ) (ss : List Bytes) → 0 < length ss → length (grow c ss) ≡ length ss
unfolding grow
grow_count c [] h = absurd (omega arith)
grow_count c (s ∷ ss) h = refl

split_two : (s : Bytes) → has_byte s b'/' ≡ true → 1 < length (split b'/' s)
unfolding split has_byte
split_two [] h = absurd (ground arith)
split_two (c ∷ s) h =
    ground (arith, split_two s, split_some s, grow_count c (split b'/' s) (split_some s))

up_has_byte : (s : Bytes) → has_byte (up_to_last_slash s) b'/' ≡ has_byte s b'/'
unfolding up_to_last_slash has_byte
up_has_byte [] = refl
up_has_byte (c ∷ s) = ground (arith, up_has_byte s)

up_length : (s : Bytes) → length (up_to_last_slash s) ≤ length s
unfolding up_to_last_slash
up_length [] = omega arith
up_length (c ∷ s) = ground (arith, up_length s)

up_last_empty : (s : Bytes) → last_empty (split b'/' (up_to_last_slash s)) ≡ true
unfolding up_to_last_slash split has_byte
up_last_empty [] = nothing_last
up_last_empty (c ∷ s) =
    let u : Bytes = up_to_last_slash s in
    ground (
      arith,
      nothing_last,
      up_last_empty s,
      up_has_byte s,
      split_two u,
      split_some u,
      last_empty-grow c (split b'/' u),
      last_empty_cons [] (split b'/' u) (split_some u),
    )

render_rooted :
    (st : List Bytes) → (render true st ≡ b'/' ∷ []) ⊎ (length (render true st) ≤ stack_weight st)
unfolding render
render_rooted [] = inl refl
render_rooted (p ∷ ps) = inr (ground (arith, length-slashed (p ∷ ps)))

length-drop_slash : (s : Bytes) → length (drop_slash s) ≡ length s - 1
unfolding drop_slash
length-drop_slash [] = refl
length-drop_slash (c ∷ s) = omega arith

render_relative :
    (st : List Bytes) → (render false st ≡ dot) ⊎ (suc (length (render false st)) ≤ stack_weight st)
unfolding render stack_weight
render_relative [] = inl refl
render_relative (p ∷ ps) =
    let l = length-slashed (p ∷ ps) in
    let d = length-drop_slash (slashed (p ∷ ps)) in inr (ground (arith, l, d))

dir_of_rooted : (s : Bytes) → (dir (b'/' ∷ s) ≡ b'/' ∷ []) ⊎ (length (dir (b'/' ∷ s)) ≤ length s)
unfolding dir clean is_rooted stack_weight
dir_of_rooted s =
    let u : Bytes = up_to_last_slash s in
    let st : List Bytes = resolve true [] (split b'/' u) in
    elim (render_rooted st) [
      | inl e ↦ inl e
      | inr l ↦
          let a = resolve_weight true [] (split b'/' u) in
          let b = split_weight u in
          let c = last_empty_counts (split b'/' u) (up_last_empty s) in
          let d = up_length s in inr (omega arith)
    ]

plain_last_empty :
    (c : ℕ) (s : Bytes)
    → (c == b'/') ≡ false
    → has_byte s b'/' ≡ true
    → last_empty (split b'/' (c ∷ up_to_last_slash s)) ≡ true
unfolding split
plain_last_empty c s ne h =
    let u : Bytes = up_to_last_slash s in
    ground
      (arith, ne, h, up_last_empty s, up_has_byte s, split_two u, last_empty-grow c (split b'/' u))

dir_of_empty : dir [] ≡ dot
unfolding dir is_empty
dir_of_empty = refl

dir_of_plain :
    (c : ℕ) (s : Bytes)
    → (c == b'/') ≡ false
    → (dir (c ∷ s) ≡ dot) ⊎ (length (dir (c ∷ s)) ≤ length s)
unfolding dir clean stack_weight is_rooted is_empty
dir_of_plain c s ne = elim (Bool-cases (has_byte s b'/')) [
  | inl e ↦
      let u : Bytes = up_to_last_slash s in
      let ss : List Bytes = split b'/' (c ∷ u) in
      let st : List Bytes = resolve false [] ss in
      let shape : dir (c ∷ s) ≡ render false st = rw (ne, e, ne) refl in
      elim (render_relative st) [
        | inl r ↦ inl (shape ∙ r)
        | inr l ↦
            let a = resolve_weight false [] ss in
            let b = split_weight (c ∷ u) in
            let d = up_length s in
            let k = last_empty_counts ss (plain_last_empty c s ne e) in inr (rw shape (omega arith))
      ]
  | inr e ↦ inl (rw (ne, e) refl)
]

rooted_cases :
    (s : Bytes)
    → (dir (b'/' ∷ s) ≡ b'/' ∷ s)
      ⊎ ((dir (b'/' ∷ s) ≡ dot) ⊎ (length (dir (b'/' ∷ s)) < length (b'/' ∷ s)))
rooted_cases [] = elim (dir_of_rooted []) [ inl e ↦ inl e | inr l ↦ inr (inr (omega arith)) ]
rooted_cases (c ∷ s) = elim (dir_of_rooted (c ∷ s)) [
  | inl e ↦ inr (inr (rw e (omega arith)))
  | inr l ↦ inr (inr (omega arith))
]

-- filepath.Dir of a path gives the path itself, the current directory, or a shorter path.
pub dir_cases :
    (path : Bytes) → (dir path ≡ path) ⊎ ((dir path ≡ dot) ⊎ (length (dir path) < length path))
dir_cases [] = inr (inl dir_of_empty)
dir_cases (c ∷ s) = elim (Bool-cases (c == b'/')) [
  | inl e ↦
      let slash : c ≡ b'/' = ground (arith, e) in
      subst
        (λ x.
          (dir (x ∷ s) ≡ x ∷ s) ⊎ ((dir (x ∷ s) ≡ dot) ⊎ (length (dir (x ∷ s)) < length (x ∷ s))))
        (sym slash) (rooted_cases s)
  | inr e ↦ elim (dir_of_plain c s e) [ inl d ↦ inr (inl d) | inr l ↦ inr (inr (omega arith)) ]
]
