-- ===== src/Native/Disk/Usage.antt =====
-- GetSessionsDiskInfo of native/diskmgmt.go.
use claude_cowork_service.Base.{
  Bool, Bytes, Dict, List, Result, [], err, false, get, if◌then◌else◌, none, ok, put, some, true, ℕ,
  ◌++◌, ◌+◌, ◌∷◌,
}
use claude_cowork_service.Native.Disk.{
  DirRead, Disk, DiskCalls, SessionDir, failed, listed, not_exist,
}
use claude_cowork_service.Native.Disk.Prune.{owner_of}
use claude_cowork_service.Transcript.{sort_strings}
use claude_cowork_service.Rpc.Backend.{SessionsDiskInfo}

-- The session that an entry counts for: a backup counts for its owner.
unfoldable pub counts_for : Bytes → Bytes
unfolding owner_of
counts_for name = elim (owner_of name) [ none ↦ name | some owner ↦ owner ]

-- sizes[k], 0 for a missing key.
unfoldable pub size_at : Bytes → Dict ℕ → ℕ
unfolding get
size_at k sizes = elim (get k sizes) [ none ↦ 0 | some n ↦ n ]

-- The loop over the entries: the sizes, and their keys in the order of the first entry.
sum_sizes : List SessionDir → Dict ℕ → List Bytes → Dict ℕ × List Bytes
unfolding counts_for size_at put get
sum_sizes [] sizes names = (sizes, names)
sum_sizes (d ∷ ds) sizes names =
    let owner : Bytes = counts_for d.name in
    let is_new : Bool = elim (get owner sizes) [ none ↦ true | some n ↦ false ] in
    if d.is_dir
    then sum_sizes ds (put owner (size_at owner sizes + d.size) sizes)
        (if is_new then names ++ owner ∷ [] else names)
    else sum_sizes ds sizes names

session_infos : List Bytes → Dict ℕ → List (Bytes × ℕ)
unfolding size_at
session_infos [] sizes = []
session_infos (n ∷ ns) sizes = (n, size_at n sizes) ∷ session_infos ns sizes

disk_info : DiskCalls → List (Bytes × ℕ) → SessionsDiskInfo
disk_info os sessions = record {
  total_bytes = os.total_bytes;
  free_bytes = os.free_bytes;
  sessions = sessions;
}

info_of_root : DiskCalls → DirRead → Result Bytes SessionsDiskInfo
unfolding sum_sizes session_infos sort_strings disk_info
info_of_root os (failed e) = err e
info_of_root os not_exist = ok (disk_info os [])
info_of_root os (listed ds) =
    let s = sum_sizes ds [] [] in ok (disk_info os (session_infos (sort_strings (s.1)) (s.0)))

-- GetSessionsDiskInfo. The low-water mark is only logged.
unfoldable pub get_sessions_disk_info : DiskCalls → Disk → Result Bytes SessionsDiskInfo
unfolding info_of_root
get_sessions_disk_info os disk = elim os.home_error [
  | some e ↦ err e
  | none ↦ info_of_root os disk.root
]
