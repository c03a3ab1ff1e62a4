-- ===== src/Native/Paths.antt =====
-- Paths of the native backend (native/backend.go: canonicalizePath and resolveSubpath).
pub mod Fuel
use claude_cowork_service.Base.{
  Bool, Bytes, Option, [], eqb, has_prefix, if◌then◌else◌, is_empty, length, none, some, suc, zero,
  ℕ, ◌++◌, ◌||◌, ◌∷◌,
}
use claude_cowork_service.FilePath.{base, clean, dir, join}

-- What the file system answers: filepath.EvalSymlinks, and whether os.Stat finds a directory.
pub record Host : Type 0 where
  pub eval_symlinks : Bytes → Option Bytes
  pub is_dir : Bytes → Bool

-- canonicalizePath, with fuel for the walk up the ancestors.
canonicalize : ℕ → Host → Bytes → Bytes
unfolding dir base join eqb
canonicalize zero host path = path
canonicalize (suc n) host path =
    let rest = canonicalize n host (dir path) in
    elim (host.eval_symlinks path) [
      | some resolved ↦ resolved
      | none ↦ if eqb (dir path) path then path else join (rest ∷ (base path ∷ []))
    ]

-- canonicalizePath. Each parent but the last is shorter than the path.
unfoldable pub canonicalize_path : Host → Bytes → Bytes
unfolding canonicalize
canonicalize_path host path = canonicalize (suc (suc (length path))) host path

-- The path is the directory itself or lies below it.
unfoldable pub is_under : Bytes → Bytes → Bool
unfolding has_prefix eqb
is_under path home = has_prefix path (home ++ b'/' ∷ []) || eqb path home

-- resolveSubpath.
unfoldable pub resolve_subpath : Host → Bytes → Bytes → Bytes
unfolding is_under canonicalize_path is_empty clean join
resolve_subpath host home rel_path =
    let as_root = clean (b'/' ∷ rel_path) in
    if is_empty rel_path
    then home
    else if is_under as_root home
    then as_root
    else if is_under (canonicalize_path host as_root) (canonicalize_path host home)
    then canonicalize_path host as_root
    else join (home ∷ (rel_path ∷ []))
