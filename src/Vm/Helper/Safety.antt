-- ===== src/Vm/Helper/Safety.antt =====
-- Where the helper mounts, and how it answers.
use claude_cowork_service.Base.{All, Bytes, [], has_prefix, true, ◌++◌, ◌∷◌, ◌≡◌, ◌⊎◌}
use claude_cowork_service.Json.{Json}
use claude_cowork_service.Vm.Helper.{Mount, VfsHelper}

-- The path is the shared root or below it.
abbrev pub IsShared : Bytes → Bytes → Type 0
IsShared root p = (p ≡ root) ⊎ (has_prefix p (root ++ b'/' ∷ []) ≡ true)

-- All mounts are at shared targets, below the root that the helper was started with.
pub record IsConfined (root : Bytes) (h : VfsHelper) : Type 0 where
  pub root_kept : h.shared_root ≡ root
  pub confined : All (λ (m : Mount). IsShared root m.target) h.mounts
