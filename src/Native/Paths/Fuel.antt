-- ===== src/Native/Paths/Fuel.antt =====
-- The walk up the ancestors ends.
use mathlib.Core.Path.{◌≡◌, refl}
use claude_cowork_service.Base.{
  Bool-cases, Bytes, [], arith, eqb, eqb_refl, if◌then◌else◌, inl, inr, is_empty, length, none,
  refl, some, suc, true, zero, ℕ, ◌<◌, ◌∷◌, ◌≡◌, ◌⊎◌,
}
use claude_cowork_service.FilePath.{base, dir, join}
use claude_cowork_service.FilePath.Segments.{dot, is_rooted}
use claude_cowork_service.FilePath.Parents.{dir_cases}
use claude_cowork_service.Native.Paths.{Host, canonicalize, canonicalize_path}

-- Enough fuel for a path.
Fits : Bytes → ℕ → Type 0
Fits path n = ((path ≡ dot) × (0 < n)) ⊎ (suc (length path) < n)

dir_of_dot : dir dot ≡ dot
unfolding dir is_rooted is_empty
dir_of_dot = refl

-- The next round is the last one, or has enough fuel for the parent.
parent-Fits :
    (path : Bytes) (n : ℕ) → Fits path (suc n) → (eqb (dir path) path ≡ true) ⊎ Fits (dir path) n
unfolding Fits
parent-Fits path n (inl (e, h)) = inl (rw (e, dir_of_dot) (eqb_refl dot))
parent-Fits path n (inr h) = elim (dir_cases path) [
  | inl e ↦ inl (rw e (eqb_refl path))
  | inr (inl e) ↦ inr (inl (e, omega arith))
  | inr (inr l) ↦ inr (inr (omega arith))
]

canonicalize_stable :
    (host : Host) (m n : ℕ) (path : Bytes)
    → Fits path m
    → Fits path n
    → canonicalize m host path ≡ canonicalize n host path
unfolding canonicalize Fits
canonicalize_stable host zero n path a b = absurd (ground arith)
canonicalize_stable host (suc m) zero path a b = absurd (ground arith)
canonicalize_stable host (suc m) (suc n) path a b = elim (Bool-cases (eqb (dir path) path)) [
  | inl e ↦ ground (arith, e)
  | inr e ↦
      let a' : Fits (dir path) m = elim (parent-Fits path m a) [
        | inl h ↦ absurd (ground arith)
        | inr f ↦ f
      ] in
      let b' : Fits (dir path) n = elim (parent-Fits path n b) [
        | inl h ↦ absurd (ground arith)
        | inr f ↦ f
      ] in
      ground (arith, e, canonicalize_stable host m n (dir path) a' b')
]

-- The walk up the ancestors of a path ends: canonicalizePath satisfies the source's own recursive
-- equation at every path, with no bound on the depth.
pub canonicalize_path_lem :
    (host : Host) (path : Bytes)
    → canonicalize_path host path ≡ elim (host.eval_symlinks path) [
      | some resolved ↦ resolved
      | none ↦
          if eqb (dir path) path
          then path
          else join (canonicalize_path host (dir path) ∷ base path ∷ [])
    ]
unfolding canonicalize_path canonicalize Fits
canonicalize_path_lem host path = elim (Bool-cases (eqb (dir path) path)) [
  | inl e ↦ ground (arith, e)
  | inr e ↦
      let n : ℕ = suc (length path) in
      let fits : Fits (dir path) n = elim (parent-Fits path n (inr (omega arith))) [
        | inl h ↦ absurd (ground arith)
        | inr f ↦ f
      ] in
      let same =
        canonicalize_stable host n (suc (suc (length (dir path)))) (dir path) fits
          (inr (omega arith)) in
      ground (arith, e, same)
]
