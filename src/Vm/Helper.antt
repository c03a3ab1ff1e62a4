-- ===== src/Vm/Helper.antt =====
-- The mount helper (vm/helper.go), which runs as a process of its own: each line of its input is a
-- request, each request has a reply.
pub mod Requests
pub mod Answers
pub mod Safety
use claude_cowork_service.Base.{
  Bool, Bytes, List, Option, Result, [], codes, elem, eqb, err, false, has_prefix, if◌then◌else◌,
  is_empty, none, not, ok, some, true, ◌&&◌, ◌++◌, ◌||◌, ◌∷◌,
}
use claude_cowork_service.FilePath.{clean, is_abs, join}
use claude_cowork_service.Json.{Json}

-- helperRequest.
pub record HelperRequest : Type 0 where
  pub id : Json
  pub op : Bytes
  pub host_path : Bytes
  pub rel_path : Bytes
  pub mode : Bytes

-- A bind mount that the kernel holds.
pub record Mount : Type 0 where
  pub source : Bytes
  pub target : Bytes
  pub read_only : Bool

-- vfsHelper, with the kernel's mounts in its namespace, the newest first.
pub record VfsHelper : Type 0 where
  pub shared_root : Bytes
  -- The keys of activeBinds, in the order in which range visits them.
  pub active_binds : List Bytes
  pub stopping : Bool
  -- SIGTERM was sent to virtiofsd.
  pub terminated : Bool
  pub mounts : List Mount

-- os.Stat.
pub data Stat : Type 0 where
  directory other_file not_exist : Stat
  stat_failed : Bytes → Stat

-- What the system answers, failures by their texts.
pub record MountCalls : Type 0 where
  pub stat : Bytes → Stat
  -- os.Stat after os.MkdirAll of the same path.
  pub stat_again : Bytes → Stat
  pub mkdir_error : Bytes → Option Bytes
  pub mount_error : Bytes → Option Bytes
  pub remount_error : Bytes → Option Bytes
  pub umount_error : Bytes → Option Bytes
  -- What encoding/json makes of a number, an array or an object that it stores in an interface{}: a
  -- number becomes the nearest float64, and none is the error of one that is out of range.
  pub to_any : Json → Option Json

-- validateRelPath: the target below the shared root.
unfoldable pub validate_rel_path : VfsHelper → Bytes → Result Bytes Bytes
unfolding is_empty is_abs clean join eqb has_prefix
validate_rel_path h rel_path =
    let target = clean (join (h.shared_root ∷ rel_path ∷ [])) in
    if is_empty rel_path
    then err (codes "relPath required")
    else if is_abs rel_path
    then err (codes "relPath must be relative: " ++ rel_path)
    else if not (eqb target h.shared_root) && not (has_prefix target (h.shared_root ++ b'/' ∷ []))
    then err (codes "relPath escapes shared root: " ++ rel_path)
    else ok target

abbrev pub Bound : Type 0
Bound = VfsHelper × Result Bytes (Unit {0})

unfoldable pub add_mount : Bytes → Bytes → VfsHelper → VfsHelper
add_mount source target h = record h {
  mounts = record { source = source; target = target; read_only = false } ∷ h.mounts;
}

-- mount -o remount,ro,bind: the newest mount at the target becomes read-only.
set_read_only : Bytes → List Mount → List Mount
unfolding eqb
set_read_only target [] = []
set_read_only target (m ∷ ms) =
    let rest = set_read_only target ms in
    if eqb m.target target then record m { read_only = true } ∷ ms else m ∷ rest

record_bind : Bytes → VfsHelper → VfsHelper
record_bind rel_path h = record h { active_binds = h.active_binds ++ rel_path ∷ [] }

-- After the bind mount at the target.
protect : MountCalls → HelperRequest → Bytes → VfsHelper → Bound
unfolding eqb record_bind set_read_only
protect os req target h =
    if eqb req.mode (codes "ro")
    then elim (os.remount_error target) [
      | some e ↦ (h, err (codes "remount ro failed: " ++ e))
      | none ↦
          (record_bind req.rel_path (record h { mounts = set_read_only target h.mounts }), ok tt)
    ]
    else (record_bind req.rel_path h, ok tt)

-- From os.MkdirAll(target) on.
mount_source : MountCalls → HelperRequest → Bytes → VfsHelper → Bound
unfolding protect add_mount
mount_source os req target h = elim (os.mkdir_error target) [
  | some e ↦ (h, err (codes "mkdir target: " ++ e))
  | none ↦ elim (os.mount_error target) [
    | some e ↦ (h, err (codes "mount --bind failed: " ++ e))
    | none ↦ protect os req target (add_mount req.host_path target h)
  ]
]

-- A source that is not a directory is skipped without an error.
from_stat : MountCalls → HelperRequest → Bytes → Stat → VfsHelper → Bound
unfolding mount_source
from_stat os req target directory h = mount_source os req target h
from_stat os req target other h = (h, ok tt)

-- A source that is missing is created for a writable bind.
create_source : MountCalls → HelperRequest → Bytes → VfsHelper → Bound
unfolding from_stat
create_source os req target h = elim (os.mkdir_error req.host_path) [
  | some e ↦ (h, err (codes "mkdir hostPath: " ++ e))
  | none ↦ elim (os.stat_again req.host_path) [
    | directory ↦ from_stat os req target directory h
    | other_file ↦ from_stat os req target other_file h
    | not_exist ↦ (h, err (codes "stat hostPath after mkdir: file does not exist"))
    | stat_failed e ↦ (h, err (codes "stat hostPath after mkdir: " ++ e))
  ]
]

missing_source : MountCalls → HelperRequest → Bytes → Stat → VfsHelper → Bound
unfolding create_source eqb
missing_source os req target not_exist h =
    if eqb req.mode (codes "rw") || eqb req.mode (codes "rwd")
    then create_source os req target h
    else (h, err (codes "hostPath missing: " ++ req.host_path))
missing_source os req target other h = (h, err (codes "hostPath missing: " ++ req.host_path))

bind_source : MountCalls → HelperRequest → Bytes → VfsHelper → Bound
unfolding from_stat missing_source
bind_source os req target h = elim (os.stat req.host_path) [
  | directory ↦ from_stat os req target directory h
  | other_file ↦ from_stat os req target other_file h
  | not_exist ↦ missing_source os req target not_exist h
  | stat_failed e ↦ missing_source os req target (stat_failed e) h
]

-- doBind.
unfoldable pub do_bind : MountCalls → HelperRequest → VfsHelper → Bound
unfolding is_empty is_abs validate_rel_path elem bind_source
do_bind os req h =
    if is_empty req.host_path || not (is_abs req.host_path)
    then (h, err (codes "hostPath must be absolute: " ++ req.host_path))
    else elim (validate_rel_path h req.rel_path) [
      | err e ↦ (h, err e)
      | ok target ↦
          if elem req.rel_path h.active_binds then (h, ok tt) else bind_source os req target h
    ]
