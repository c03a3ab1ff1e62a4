-- ===== src/Vm/Artifacts.antt =====
-- What is done to the files that the native backend has left, before a spawn in a VM (vm/native_artifacts.go).
pub mod Resume
pub mod Spared
mod Examples
use claude_cowork_service.Base.{
  Bool, Bytes, Dict, List, Option, Result, [], codes, drop, eqb, err, false, get, has_byte,
  has_prefix, if◌then◌else◌, is_empty, length, ltb, none, not, ok, remove, some, true, ◌&&◌, ◌++◌,
  ◌+◌, ◌||◌, ◌∷◌,
}
use claude_cowork_service.FilePath.{join}
use claude_cowork_service.Native.Paths.{Host}
use claude_cowork_service.Rpc.Backend.{MountSpec}
use claude_cowork_service.Transcript.{sort_strings}
use claude_cowork_service.Vm.Paths.{host_abs_from_shared_with_home}

-- The entries of the directories by their paths: whether each is a symbolic link.
abbrev pub Tree : Type 0
Tree = Dict Bool

-- The names in a directory, none if it cannot be read, and the failures of os.Remove.
pub record TreeCalls : Type 0 where
  pub names_in : Bytes → Tree → Option (List Bytes)
  pub remove_error : Bytes → Option Bytes

-- os.Remove of a path that is a symbolic link; nothing else is removed. An error is logged only.
unfoldable pub remove_link : TreeCalls → Bytes → Tree → Tree
unfolding get remove
remove_link os path t = elim (get path t) [
  | some true ↦ elim (os.remove_error path) [ none ↦ remove path t | some e ↦ t ]
  | some false ↦ t
  | none ↦ t
]

-- The loop over the session's mnt directory.
unfoldable pub remove_links : TreeCalls → Bytes → List Bytes → Tree → Tree
unfolding remove_link join
remove_links os d [] t = t
remove_links os d (name ∷ names) t =
    remove_links os d names (remove_link os (join (d ∷ name ∷ [])) t)

pub mnt_dir : Bytes → Bytes → Bytes
unfolding join
mnt_dir home session_name = join (
    home
    ∷ codes ".local"
    ∷ codes "share"
    ∷ codes "claude-cowork"
    ∷ codes "sessions"
    ∷ session_name
    ∷ codes "mnt"
    ∷ [])

unfoldable pub clear_dir : TreeCalls → Bytes → Tree → Tree
unfolding remove_links
clear_dir os d t = elim (os.names_in d t) [ none ↦ t | some names ↦ remove_links os d names t ]

unfoldable pub clear_mnt : TreeCalls → Bytes → Bytes → Tree → Tree
clear_mnt os home session_name t =
    if is_empty session_name then t else clear_dir os (mnt_dir home session_name) t

-- The longest of the names under which the name nests, and else the one that is given.
unfoldable pub longest_parent : Bytes → Bytes → List Bytes → Bytes
unfolding eqb has_prefix
longest_parent name parent [] = parent
longest_parent name parent (p ∷ ps) =
    longest_parent name
      (if not (eqb p name) && (has_prefix name (p ++ b'/' ∷ []) && ltb (length parent) (length p))
        then p
        else parent)
      ps

pub mount_path : Bytes → Dict MountSpec → Bytes
unfolding get
mount_path name mounts = elim (get name mounts) [ some spec ↦ spec.path | none ↦ [] ]

-- One round of the loop over the mount names.
unfoldable pub clear_nested :
    TreeCalls
    → Host
    → Result Bytes Bytes
    → Bytes
    → Dict MountSpec
    → List Bytes
    → Bytes
    → Tree
    → Tree
unfolding has_byte longest_parent is_empty mount_path host_abs_from_shared_with_home remove_link
    join
clear_nested os host user_home home mounts names name t =
    let parent = longest_parent name [] names in
    if not (has_byte name b'/') || is_empty parent
    then t
    else elim (host_abs_from_shared_with_home host user_home (mount_path parent mounts) home) [
      | err e ↦ t
      | ok src ↦ remove_link os (join (src ∷ drop (length parent + 1) name ∷ [])) t
    ]

unfoldable pub clear_all_nested :
    TreeCalls
    → Host
    → Result Bytes Bytes
    → Bytes
    → Dict MountSpec
    → List Bytes
    → List Bytes
    → Tree
    → Tree
unfolding clear_nested
clear_all_nested os host user_home home mounts names [] t = t
clear_all_nested os host user_home home mounts names (name ∷ rest) t =
    clear_all_nested os host user_home home mounts names rest
      (clear_nested os host user_home home mounts names name t)

unfoldable pub mount_names : Dict MountSpec → List Bytes
mount_names [] = []
mount_names ((name, spec) ∷ mounts) = name ∷ mount_names mounts

-- sanitizeNativeArtifacts.
unfoldable pub sanitize_native_artifacts :
    TreeCalls → Host → Result Bytes Bytes → Bytes → Bytes → Dict MountSpec → Tree → Tree
unfolding clear_mnt mount_names sort_strings clear_all_nested
sanitize_native_artifacts os host user_home home session_name mounts t =
    let names = sort_strings (mount_names mounts) in
    clear_all_nested os host user_home home mounts names names (clear_mnt os home session_name t)
