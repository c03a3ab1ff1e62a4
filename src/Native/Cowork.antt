-- ===== src/Native/Cowork.antt =====
-- collapseRepeatedCoworkPrefix of native/backend.go.
use claude_cowork_service.Base.{
  Bool, Bool-cases, Bytes, Option, Option-cases, [], arith, codes, drop, false, has_prefix,
  if◌then◌else◌, index, inl, inr, is_empty, length, length-append, length-take_le, none, refl, some,
  suc, take, true, zero, ℕ, ◌++◌, ◌+◌, ◌<◌, ◌∷◌, ◌≡◌, ◌≤◌,
}
use claude_cowork_service.FilePath.{base, join}
use claude_cowork_service.Native.Signals.{trim_prefix}

-- strings.Contains.
unfoldable pub contains : Bytes → Bytes → Bool
unfolding index
contains s sub = elim (index s sub) [ none ↦ false | some i ↦ true ]

-- strings.Replace(s, old, new, 1).
unfoldable pub replace_first : Bytes → Bytes → Bytes → Bytes
unfolding index
replace_first s old new = elim (index s old) [
  | none ↦ s
  | some i ↦ take i s ++ new ++ drop (i + length old) s
]

-- The loop, with fuel for its rounds.
collapse_rounds : ℕ → Bytes → Bytes → Bytes → Bytes
unfolding contains replace_first
collapse_rounds zero marker base s = s
collapse_rounds (suc n) marker base s =
    let rest = collapse_rounds n marker base (replace_first s marker base) in
    if contains s marker then rest else s

abbrev pub cowork_base : Bytes → Bytes
cowork_base home =
    join (home ∷ codes ".local" ∷ codes "share" ∷ codes "claude-cowork" ∷ []) ++ codes "/"

-- The base directly followed by itself less its leading slash.
unfoldable pub doubled : Bytes → Bytes
unfolding trim_prefix
doubled base = base ++ trim_prefix base (codes "/")

-- Each round makes the path shorter, so as many rounds as it has bytes are enough.
unfoldable pub collapse_prefix : Bytes → Bytes → Bytes
unfolding collapse_rounds doubled
collapse_prefix base s = collapse_rounds (length s) (doubled base) base s

-- collapseRepeatedCoworkPrefix. The home directory may not be known.
unfoldable pub collapse_repeated_cowork_prefix : Option Bytes → Bytes → Bytes
unfolding collapse_prefix
collapse_repeated_cowork_prefix none s = s
collapse_repeated_cowork_prefix (some home) s = collapse_prefix (cowork_base home) s

prefix_length : (s p : Bytes) → has_prefix s p ≡ true → length p ≤ length s
unfolding has_prefix
prefix_length s [] h = omega arith
prefix_length [] (p ∷ ps) h = absurd (ground arith)
prefix_length (c ∷ s) (p ∷ ps) h = ground (arith, prefix_length s ps)

index_bound : (s sub : Bytes) (i : ℕ) → index s sub ≡ some i → i + length sub ≤ length s
unfolding index is_empty
index_bound [] [] i h = ground arith
index_bound [] (c ∷ sub) i h = absurd (ground arith)
index_bound (c ∷ s) sub i h = elim (Bool-cases (has_prefix (c ∷ s) sub)) [
  | inl e ↦ ground (arith, e, prefix_length (c ∷ s) sub e)
  | inr e ↦ elim (Option-cases (index s sub)) [
    | inl g ↦ absurd (ground (arith, e, g))
    | inr (j, g) ↦ ground (arith, e, g, index_bound s sub j g)
  ]
]

length-drop : (n : ℕ) (s : Bytes) → n ≤ length s → length (drop n s) + n ≡ length s
length-drop zero s h = omega arith
length-drop (suc n) [] h = absurd (omega arith)
length-drop (suc n) (c ∷ s) h = ground (arith, length-drop n s)

length-replace_first :
    (s old new : Bytes) (i : ℕ)
    → index s old ≡ some i
    → length (replace_first s old new) + length old ≡ length s + length new
unfolding replace_first
length-replace_first s old new i h =
    let b = index_bound s old i h in
    let tail_ : Bytes = drop (i + length old) s in
    rw (replace_first, h, length-append (take i s ++ new) tail_, length-append (take i s) new)
      (let t = length-take_le i s (omega arith) in
        let d = length-drop (i + length old) s b in omega arith)

marker_case : (marker : Bytes) → 0 < length marker → index [] marker ≡ none
unfolding index is_empty
marker_case [] h = absurd (omega arith)
marker_case (c ∷ marker) h = refl

trimmed : (base : Bytes) → length base ≤ suc (length (trim_prefix base (codes "/")))
unfolding trim_prefix has_prefix
trimmed [] = omega arith
trimmed (c ∷ base) = ground arith

module _ (marker base : Bytes) (shrinks : length base < length marker) where
  nothing_in_nothing : index [] marker ≡ none
  nothing_in_nothing = marker_case marker (omega arith)

  collapse_rounds-none :
      (n : ℕ) (s : Bytes) → length s ≤ n → index (collapse_rounds n marker base s) marker ≡ none
  unfolding collapse_rounds contains
  collapse_rounds-none zero [] h = nothing_in_nothing
  collapse_rounds-none zero (c ∷ s) h = absurd (omega arith)
  collapse_rounds-none (suc n) s h = elim (Option-cases (index s marker)) [
    | inl e ↦ ground (arith, e)
    | inr (i, e) ↦
        let l = length-replace_first s marker base i e in
        ground (arith, e, collapse_rounds-none n (replace_first s marker base) (omega arith))
  ]

length-doubled : (base : Bytes) → 1 < length base → length base < length (doubled base)
unfolding doubled trim_prefix
length-doubled base h =
    rw (length-append base (trim_prefix base (codes "/"))) (let t = trimmed base in omega arith)

-- The collapsed path holds no repeated base: for a base longer than its slash, the loop ends, and
-- the marker is nowhere in what it returns.
pub collapse_prefix_lem :
    (base s : Bytes) → 1 < length base → index (collapse_prefix base s) (doubled base) ≡ none
unfolding collapse_prefix
collapse_prefix_lem base s h =
    collapse_rounds-none (doubled base) base (length-doubled base h) (length s) s (omega arith)
