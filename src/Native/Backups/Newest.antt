-- ===== src/Native/Backups/Newest.antt =====
-- The newest backups stay.
use claude_cowork_service.Base.{
  Bool, Bytes, List, [], codes, drop, elem, eqb, false, has_prefix, length, none, true, ℕ, ◌&&◌,
  ◌++◌, ◌||◌, ◌∷◌, ◌≡◌,
}
use claude_cowork_service.Native.Disk.{DirRead, DiskCalls, SessionDir}
use claude_cowork_service.Native.Disk.Keep.{is_there}
use claude_cowork_service.Native.Backups.{oldest}

-- The backups that are not among the oldest.
abbrev pub newest : ℕ → List Bytes → List Bytes
newest keep names = drop (length (oldest keep names)) names

-- An entry with the name is a directory that StopVM has set aside for the session.
abbrev pub has_backup : Bytes → Bytes → List SessionDir → Bool
has_backup base en [] = false
has_backup base en (d ∷ ds) =
    eqb d.name en && (d.is_dir && has_prefix d.name (base ++ codes ".pre-stop-"))
    || has_backup base en ds

-- What pruning does with the names that it takes off and those that it leaves.
abbrev pub Pruned : DiskCalls → List Bytes → DirRead → DirRead → Type 0
Pruned os old before after =
    ((en : Bytes) → elem en old ≡ true → os.remove_error en ≡ none → is_there en after ≡ false)
    × ((en : Bytes) → elem en old ≡ false → is_there en after ≡ is_there en before)
