-- ===== src/Vm/Paths.antt =====
-- Paths of the KVM backend (vm/paths.go).
use claude_cowork_service.Base.{
  Bytes, Result, [], arith, codes, err, if◌then◌else◌, is_empty, ok, refl, true, ◌++◌, ◌∷◌, ◌≡◌,
  ◌⊎◌,
}
use claude_cowork_service.FilePath.{clean, is_abs}
use claude_cowork_service.Native.Paths.{Host, canonicalize_path, is_under}

-- canonicalizePathVM has the body of the native backend's canonicalizePath.
unfoldable pub canonicalize_path_vm : Host → Bytes → Bytes
unfolding canonicalize_path
canonicalize_path_vm host path = canonicalize_path host path

-- The home directory that counts: the given one, or else os.UserHomeDir, which may fail.
unfoldable pub home_or_user : Result Bytes Bytes → Bytes → Result Bytes Bytes
unfolding is_empty
home_or_user user_home home = if is_empty home then user_home else ok home

-- From the tests against the home directory on.
unfoldable pub within_home : Host → Bytes → Bytes → Result Bytes Bytes
unfolding is_under canonicalize_path_vm
within_home host abs home =
    if is_under abs home
    then ok abs
    else if is_under (canonicalize_path_vm host abs) (canonicalize_path_vm host home)
    then ok (canonicalize_path_vm host abs)
    else err (codes "path outside home: " ++ abs)

-- hostAbsFromSharedWithHome.
unfoldable pub host_abs_from_shared_with_home :
    Host → Result Bytes Bytes → Bytes → Bytes → Result Bytes Bytes
unfolding is_empty is_abs clean home_or_user within_home
host_abs_from_shared_with_home host user_home rel_path home =
    if is_empty rel_path
    then err (codes "relPath required")
    else if is_abs rel_path
    then err (codes "expected shared-relative path, got absolute: " ++ rel_path)
    else elim (home_or_user user_home home) [
      | err e ↦ err (codes "resolving home: " ++ e)
      | ok h ↦ within_home host (clean (b'/' ∷ rel_path)) h
    ]

-- hostAbsFromShared.
unfoldable pub host_abs_from_shared : Host → Result Bytes Bytes → Bytes → Result Bytes Bytes
unfolding host_abs_from_shared_with_home
host_abs_from_shared host user_home rel_path =
    host_abs_from_shared_with_home host user_home rel_path []

-- The path is the home directory or below it, or so are their canonical forms.
pub IsInHome : Host → Bytes → Bytes → Type 0
IsInHome host home p =
    (is_under p home ≡ true) ⊎ (is_under p (canonicalize_path_vm host home) ≡ true)

pub within_home-IsInHome :
    (host : Host) (abs home p : Bytes) → within_home host abs home ≡ ok p → IsInHome host home p
unfolding within_home IsInHome
within_home-IsInHome host abs home p h = ground arith

-- A path that Desktop shares is turned into one inside the user's home directory or refused.
pub host_abs_from_shared-IsInHome :
    (host : Host) (user_home : Result Bytes Bytes) (rel_path p : Bytes)
    → host_abs_from_shared host user_home rel_path ≡ ok p
    → (home : Bytes) × (user_home ≡ ok home) × IsInHome host home p
unfolding host_abs_from_shared is_empty
host_abs_from_shared-IsInHome host (ok home) rel_path p h =
    (home, refl, within_home-IsInHome host (clean (b'/' ∷ rel_path)) home p (ground arith))
host_abs_from_shared-IsInHome host (err e) rel_path p h = absurd (ground arith)
