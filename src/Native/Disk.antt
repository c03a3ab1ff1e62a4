-- ===== src/Native/Disk.antt =====
-- Disk usage and cleanup of session directories (native/diskmgmt.go).
pub mod Gone
pub mod Keep
pub mod Prune
pub mod Usage
use claude_cowork_service.Base.{
  Bool, Bytes, List, Option, Result, [], codes, eqb, err, has_prefix, if◌then◌else◌, is_empty, none,
  not, ok, put, some, ℕ, ◌++◌, ◌||◌, ◌∷◌,
}
use claude_cowork_service.FilePath.{base}
use claude_cowork_service.Native.Sessions.{Sessions, is_session_running}
use claude_cowork_service.Rpc.Backend.{DeleteSessionDirsResult}

-- An entry of the sessions directory, with the bytes that dirSize counts below it.
pub record SessionDir : Type 0 where
  pub name : Bytes
  pub is_dir : Bool
  pub size : ℕ

-- os.ReadDir of the sessions directory.
pub data DirRead : Type 0 where
  listed : List SessionDir → DirRead
  not_exist : DirRead
  failed : Bytes → DirRead

-- What the operating system answers.
pub record DiskCalls : Type 0 where
  -- An error of os.UserHomeDir.
  pub home_error : Option Bytes
  -- os.RemoveAll of an entry: its error.
  pub remove_error : Bytes → Option Bytes
  -- statfs: total and free bytes.
  pub total_bytes : ℕ
  pub free_bytes : ℕ
  -- time.Now, and the time that a backup's timestamp names, in seconds.
  pub now : ℕ
  pub parse_time : Bytes → Option ℕ

-- The directory's entries, or what reading it fails with; and the processes.
pub record Disk : Type 0 where
  pub root : DirRead
  pub sessions : Sessions

abbrev pub backup_infix : Bytes
backup_infix = codes ".pre-stop-"

without : Bytes → List SessionDir → List SessionDir
unfolding eqb
without name [] = []
without name (d ∷ ds) = let rest = without name ds in if eqb d.name name then rest else d ∷ rest

remove_from : Bytes → DirRead → DirRead
unfolding without
remove_from name (listed ds) = listed (without name ds)
remove_from name not_exist = not_exist
remove_from name (failed e) = failed e

-- The first of two errors.
abbrev first_error : Option Bytes → Option Bytes → Option Bytes
first_error (some e) other = some e
first_error none other = other

-- The entry is the session's own directory, or one of its backups.
unfoldable pub belongs_to : Bytes → Bytes → Bool
unfolding eqb has_prefix
belongs_to name en = eqb en name || has_prefix en (name ++ backup_infix)

-- os.RemoveAll of one entry.
unfoldable pub remove_entry : DiskCalls → Bytes → DirRead → DirRead × Option Bytes
unfolding remove_from
remove_entry os en root = elim (os.remove_error en) [
  | none ↦ (remove_from en root, none)
  | some e ↦ (root, some e)
]

-- The loop over the entries of DeleteSessionDirs, for one session.
remove_session : DiskCalls → Bytes → List SessionDir → DirRead → DirRead × Option Bytes
unfolding belongs_to remove_entry
remove_session os name [] root = (root, none)
remove_session os name (d ∷ ds) root =
    let after = if belongs_to name d.name then remove_entry os d.name root else (root, none) in
    let rest = remove_session os name ds (after.0) in (rest.0, first_error (after.1) (rest.1))

-- A name that is not a plain entry of the sessions directory.
unfoldable pub is_invalid_name : Bytes → Bool
unfolding is_empty eqb base has_prefix
is_invalid_name name = is_empty name || (not (eqb name (base name)) || has_prefix name (codes "."))

abbrev pub Deleting : Type 0
Deleting = Disk × DeleteSessionDirsResult

refuse : Bytes → Bytes → DeleteSessionDirsResult → DeleteSessionDirsResult
unfolding put
refuse name e r = record r { errors = put name e r.errors }

finish_session : Bytes → Option Bytes → DeleteSessionDirsResult → DeleteSessionDirsResult
unfolding refuse
finish_session name (some e) r = refuse name e r
finish_session name none r = record r { deleted = r.deleted ++ name ∷ [] }

-- The body of the loop over the names of DeleteSessionDirs.
delete_one : DiskCalls → List SessionDir → Bytes → Deleting → Deleting
unfolding is_invalid_name is_session_running remove_session refuse finish_session
delete_one os entries name (disk, r) =
    if is_invalid_name name
    then (disk, refuse name (codes "invalid session name") r)
    else let running = is_session_running name disk.sessions in
      let disk' : Disk = record disk { sessions = running.1 } in
      if running.0
      then (disk', refuse name (codes "session has a running process") r)
      else let removed = remove_session os name entries disk'.root in
        (record disk' { root = removed.0 }, finish_session name (removed.1) r)

delete_each : DiskCalls → List SessionDir → List Bytes → Deleting → Deleting
unfolding delete_one
delete_each os entries [] s = s
delete_each os entries (name ∷ names) s =
    delete_each os entries names (delete_one os entries name s)

abbrev pub nothing_deleted : DeleteSessionDirsResult
nothing_deleted = record { deleted = []; errors = [] }

-- The entries, none when the directory is missing.
delete_listed :
    DiskCalls → DirRead → List Bytes → Disk → Disk × Result Bytes DeleteSessionDirsResult
unfolding delete_each
delete_listed os (failed e) names disk = (disk, err e)
delete_listed os not_exist names disk =
    let s = delete_each os [] names (disk, nothing_deleted) in (s.0, ok (s.1))
delete_listed os (listed ds) names disk =
    let s = delete_each os ds names (disk, nothing_deleted) in (s.0, ok (s.1))

-- DeleteSessionDirs.
unfoldable pub delete_session_dirs :
    DiskCalls → List Bytes → Disk → Disk × Result Bytes DeleteSessionDirsResult
unfolding delete_listed
delete_session_dirs os names disk = elim os.home_error [
  | some e ↦ (disk, err e)
  | none ↦ delete_listed os disk.root names disk
]
