-- ===== src/Native/Disk/Prune/Keep.antt =====
-- What pruning leaves alone.
use mathlib.Core.Path.{◌≡◌, refl, sym}
use claude_cowork_service.Base.{
  Bool, Bool-cases, Bytes, List, Option-cases, [], arith, eqb, eqb→eq, inl, inr, none, refl, some,
  sym, true, ℤ, ◌∷◌, ◌≡◌, ◌⊎◌,
}
use claude_cowork_service.Native.Sessions.{Sessions, is_session_running}
use claude_cowork_service.Native.Sessions.Index.{is_session_running_stable}
use claude_cowork_service.Native.Disk.{
  DirRead, Disk, DiskCalls, SessionDir, failed, listed, not_exist,
}
use claude_cowork_service.Native.Disk.Keep.{is_there, remove_entry_other}
use claude_cowork_service.Native.Disk.Prune.{
  Pruning, nothing_pruned, owner_of, prune_backup, prune_each, prune_listed, prune_one,
  prune_session_caches, remove_backup, skip_owner,
}

-- The entry is no backup, or a backup of a session with a live process.
abbrev pub IsKept : Sessions → Bytes → Type 0
IsKept s en =
    (owner_of en ≡ none)
    ⊎ ((owner : Bytes) × (owner_of en ≡ some owner) × ((is_session_running owner s).0 ≡ true))

module _ (os : DiskCalls) (older : ℤ) (en : Bytes) where
  Before : Pruning → Pruning → Type 0
  Before p p' =
      (is_there en p'.disk.root ≡ is_there en p.disk.root)
      × ((o : Bytes)
          → (is_session_running o p'.disk.sessions).0 ≡ (is_session_running o p.disk.sessions).0)

  prune_backup-sessions :
      (d : SessionDir) (owner o : Bytes) (p : Pruning)
      → (is_session_running o (prune_backup os older d owner p).disk.sessions).0
        ≡ (is_session_running o p.disk.sessions).0
  unfolding prune_backup skip_owner remove_backup
  prune_backup-sessions d owner o p =
      ground (arith, is_session_running_stable owner o p.disk.sessions)

  prune_backup-root :
      (d : SessionDir) (owner : Bytes) (p : Pruning)
      → owner_of d.name ≡ some owner
      → IsKept p.disk.sessions en
      → is_there en (prune_backup os older d owner p).disk.root ≡ is_there en p.disk.root
  unfolding prune_backup skip_owner remove_backup
  prune_backup-root d owner p own kept = elim (Bool-cases (eqb d.name en)) [
    | inl e ↦
        let mine : owner_of en ≡ some owner = rw (sym (eqb→eq d.name en e)) own in
        ground (arith, mine)
    | inr e ↦ ground (arith, remove_entry_other os en d.name p.disk.root e)
  ]

  prune_one-Before :
      (d : SessionDir) (p : Pruning) → IsKept p.disk.sessions en → Before p (prune_one os older d p)
  unfolding Before prune_one
  prune_one-Before d p kept = elim (Option-cases (owner_of d.name)) [
    | inl e ↦ (ground (arith, e), λ o. ground (arith, e))
    | inr (owner, e) ↦ (
      ground (arith, e, prune_backup-root d owner p e kept),
      λ o. ground (arith, e, prune_backup-sessions d owner o p),
    )
  ]

  IsKept-after :
      (p p' : Pruning) → Before p p' → IsKept p.disk.sessions en → IsKept p'.disk.sessions en
  unfolding Before
  IsKept-after p p' b (inl e) = inl e
  IsKept-after p p' b (inr (o, e, runs)) = inr (o, e, ground (arith, b.1 o))

  prune_each-root :
      (ds : List SessionDir) (p : Pruning)
      → IsKept p.disk.sessions en
      → is_there en (prune_each os older ds p).disk.root ≡ is_there en p.disk.root
  unfolding prune_each Before
  prune_each-root [] p kept = refl
  prune_each-root (d ∷ ds) p kept =
      let b = prune_one-Before d p kept in
      rw
        (prune_each-root ds (prune_one os older d p)
          (IsKept-after p (prune_one os older d p) b kept))
        (b.0)

prune_listed-root :
    (os : DiskCalls) (older : ℤ) (en : Bytes) (root : DirRead) (disk : Disk)
    → IsKept disk.sessions en
    → is_there en (prune_listed os older root disk).0.root ≡ is_there en disk.root
unfolding prune_listed
prune_listed-root os older en (listed ds) disk kept =
    prune_each-root os older en ds (nothing_pruned disk) kept
prune_listed-root os older en not_exist disk kept = refl
prune_listed-root os older en (failed e) disk kept = refl

-- Pruning, at any threshold and age, leaves every entry in the sessions directory that is not a
-- backup, and every backup of a session which has a live process when the call is made.
pub prune_session_caches_keeps :
    (os : DiskCalls) (only_below older : ℤ) (include_tmp : Bool) (disk : Disk) (en : Bytes)
    → IsKept disk.sessions en
    → is_there en (prune_session_caches os only_below include_tmp older disk).0.root
      ≡ is_there en disk.root
unfolding prune_session_caches
prune_session_caches_keeps os only_below older include_tmp disk en kept =
    ground (arith, prune_listed-root os older en disk.root disk kept)
