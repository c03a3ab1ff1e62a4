-- ===== src/Native/Backups.antt =====
-- pruneBackups of native/backend.go: the oldest pre-stop backups of a session go.
pub mod Newest
use claude_cowork_service.Base.{
  All, Bytes, List, [], has_prefix, if◌then◌else◌, length, ltb, take, true, ℕ, ◌&&◌, ◌++◌, ◌-◌, ◌∷◌,
  ◌≡◌,
}
use claude_cowork_service.Native.Disk.{
  DirRead, DiskCalls, SessionDir, backup_infix, failed, listed, not_exist, remove_entry,
}
use claude_cowork_service.Transcript.{lex_leb, sort_strings}

-- The names of the session's backups. A path in one directory sorts as its name does.
backups_of : Bytes → List SessionDir → List Bytes
unfolding has_prefix
backups_of base [] = []
backups_of base (d ∷ ds) =
    let rest = backups_of base ds in
    if d.is_dir && has_prefix d.name (base ++ backup_infix) then d.name ∷ rest else rest

-- backups[:len(backups)-keep], when there are more than `keep`.
unfoldable pub oldest : ℕ → List Bytes → List Bytes
oldest keep names = if ltb keep (length names) then take (length names - keep) names else []

unfoldable pub remove_names : DiskCalls → List Bytes → DirRead → DirRead
unfolding remove_entry
remove_names os [] root = root
remove_names os (name ∷ names) root = remove_names os names (remove_entry os name root).0

-- The sorted backups of a session.
unfoldable pub sorted_backups : Bytes → List SessionDir → List Bytes
unfolding backups_of sort_strings
sorted_backups base ds = sort_strings (backups_of base ds)

-- pruneBackups, for a session directory with the last element `base`.
unfoldable pub prune_backups : DiskCalls → Bytes → ℕ → DirRead → DirRead
unfolding remove_names oldest sorted_backups
prune_backups os base keep (failed e) = failed e
prune_backups os base keep not_exist = not_exist
prune_backups os base keep (listed ds) =
    remove_names os (oldest keep (sorted_backups base ds)) (listed ds)
