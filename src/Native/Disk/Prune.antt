-- ===== src/Native/Disk/Prune.antt =====
-- PruneSessionCaches of native/diskmgmt.go.
pub mod Keep
use claude_cowork_service.Base.{
  Bool, Bytes, Dict, List, Option, Result, [], drop, elem, err, false, if◌then◌else◌, index, leb,
  length, ltb, negsuc, none, ok, pos, put, some, suc, take, true, zero, ℕ, ℤ, ◌++◌, ◌+◌, ◌∷◌,
}
use claude_cowork_service.Native.Sessions.{is_session_running}
use claude_cowork_service.Native.Disk.{
  DirRead, Disk, DiskCalls, SessionDir, backup_infix, failed, listed, not_exist, remove_entry,
}
use claude_cowork_service.Transcript.{sort_strings}
use claude_cowork_service.Rpc.Backend.{PruneSessionCachesResult}

-- The session that a backup belongs to: what stands before the infix, not first in the name.
unfoldable pub owner_of : Bytes → Option Bytes
unfolding index
owner_of name = elim (index name backup_infix) [
  | none ↦ none
  | some zero ↦ none
  | some (suc i) ↦ some (take (suc i) name)
]

-- The timestamp of a backup.
stamp_of : Bytes → Bytes
unfolding index
stamp_of name = elim (index name backup_infix) [
  | none ↦ []
  | some i ↦ drop (i + length backup_infix) name
]

-- The backup is younger than `older` seconds, or its timestamp cannot be read; never when no age is
-- asked for.
unfoldable pub is_too_young : DiskCalls → ℤ → Bytes → Bool
unfolding stamp_of
is_too_young os (negsuc n) name = false
is_too_young os (pos zero) name = false
is_too_young os (pos (suc n)) name = elim (os.parse_time (stamp_of name)) [
  | none ↦ true
  | some created ↦ ltb os.now (created + suc n)
]

-- The maps of pruned and of skipped owners, and the result's other fields.
pub record Pruning : Type 0 where
  pub disk : Disk
  pub pruned : List Bytes
  pub skipped : List Bytes
  pub freed : ℕ
  pub errors : Dict Bytes

-- m[k] = true.
unfoldable pub add_key : Bytes → List Bytes → List Bytes
unfolding elem
add_key k ks = if elem k ks then ks else ks ++ k ∷ []

skip_owner : Bytes → Pruning → Pruning
unfolding add_key
skip_owner owner p = record p { skipped = add_key owner p.skipped }

-- From dirSize on.
remove_backup : DiskCalls → SessionDir → Bytes → Pruning → Pruning
unfolding remove_entry add_key put
remove_backup os d owner p = elim (os.remove_error d.name) [
  | some e ↦ record p { errors = put d.name e p.errors }
  | none ↦ record {
    disk = record p.disk { root = (remove_entry os d.name p.disk.root).0 };
    pruned = add_key owner p.pruned;
    skipped = p.skipped;
    freed = p.freed + d.size;
    errors = p.errors;
  }
]

-- A backup of the owner.
prune_backup : DiskCalls → ℤ → SessionDir → Bytes → Pruning → Pruning
unfolding is_session_running skip_owner is_too_young remove_backup
prune_backup os older d owner p =
    let running = is_session_running owner p.disk.sessions in
    let p' : Pruning = record p { disk = record p.disk { sessions = running.1 } } in
    if running.0
    then skip_owner owner p'
    else if is_too_young os older d.name
    then skip_owner owner p'
    else remove_backup os d owner p'

-- The body of the loop over the entries.
prune_one : DiskCalls → ℤ → SessionDir → Pruning → Pruning
unfolding owner_of prune_backup
prune_one os older d p =
    if d.is_dir
    then elim (owner_of d.name) [ none ↦ p | some owner ↦ prune_backup os older d owner p ]
    else p

prune_each : DiskCalls → ℤ → List SessionDir → Pruning → Pruning
unfolding prune_one
prune_each os older [] p = p
prune_each os older (d ∷ ds) p = prune_each os older ds (prune_one os older d p)

minus : List Bytes → List Bytes → List Bytes
unfolding elem
minus [] ks = []
minus (s ∷ ss) ks = let rest = minus ss ks in if elem s ks then rest else s ∷ rest

prune_result : Pruning → PruneSessionCachesResult
unfolding minus sort_strings
prune_result p = record {
  pruned_sessions = sort_strings p.pruned;
  skipped_sessions = sort_strings (minus p.skipped p.pruned);
  freed_bytes = p.freed;
  errors = p.errors;
}

abbrev pub nothing_pruned : Disk → Pruning
nothing_pruned disk = record { disk = disk; pruned = []; skipped = []; freed = 0; errors = [] }

prune_listed : DiskCalls → ℤ → DirRead → Disk → Disk × Result Bytes PruneSessionCachesResult
unfolding prune_each prune_result
prune_listed os older (failed e) disk = (disk, err e)
prune_listed os older not_exist disk = (disk, ok (prune_result (nothing_pruned disk)))
prune_listed os older (listed ds) disk =
    let p = prune_each os older ds (nothing_pruned disk) in (p.disk, ok (prune_result p))

-- The free bytes reach a threshold that is positive.
is_enough_free : ℕ → ℤ → Bool
is_enough_free free (negsuc n) = false
is_enough_free free (pos zero) = false
is_enough_free free (pos (suc n)) = leb (suc n) free

-- PruneSessionCaches.
unfoldable pub prune_session_caches :
    DiskCalls → ℤ → Bool → ℤ → Disk → Disk × Result Bytes PruneSessionCachesResult
unfolding prune_result prune_listed is_enough_free
prune_session_caches os only_below include_tmp older disk =
    let nothing : Disk × Result Bytes PruneSessionCachesResult =
      (disk, ok (prune_result (nothing_pruned disk))) in
    if include_tmp
    then elim os.home_error [
      | some e ↦ (disk, err e)
      | none ↦
          if is_enough_free os.free_bytes only_below
          then nothing
          else prune_listed os older disk.root disk
    ]
    else nothing
