-- ===== src/Native/Disk/Keep.antt =====
-- What cleaning up leaves alone.
use claude_cowork_service.Base.{
  All, Bool, Bool-cases, Bytes, List, [], arith, eqb, eqb_iff, false, inl, inr, refl, true, ◌||◌,
  ◌∷◌, ◌≡◌, ◌⊎◌,
}
use claude_cowork_service.Native.Sessions.{Sessions, is_session_running}
use claude_cowork_service.Native.Sessions.Index.{is_session_running_stable}
use claude_cowork_service.Native.Disk.{
  Deleting, DirRead, Disk, DiskCalls, SessionDir, belongs_to, delete_each, delete_listed,
  delete_one, delete_session_dirs, failed, is_invalid_name, listed, not_exist, nothing_deleted,
  remove_entry, remove_from, remove_session, without,
}

-- An entry of the name is in the list.
unfoldable pub has_entry : Bytes → List SessionDir → Bool
unfolding eqb
has_entry en [] = false
has_entry en (d ∷ ds) = eqb d.name en || has_entry en ds

-- An entry of the name is in the directory.
unfoldable pub is_there : Bytes → DirRead → Bool
unfolding has_entry
is_there en (listed ds) = has_entry en ds
is_there en not_exist = false
is_there en (failed e) = false

without_other :
    (en name : Bytes) (ds : List SessionDir)
    → eqb name en ≡ false
    → has_entry en (without name ds) ≡ has_entry en ds
unfolding without has_entry
without_other en name [] ne = refl
without_other en name (d ∷ ds) ne =
    ground
      (arith, eqb_iff d.name name, eqb_iff d.name en, eqb_iff name en, without_other en name ds ne)

pub remove_entry_other :
    (os : DiskCalls) (en name : Bytes) (root : DirRead)
    → eqb name en ≡ false
    → is_there en (remove_entry os name root).0 ≡ is_there en root
unfolding remove_entry remove_from is_there
remove_entry_other os en name (listed ds) ne = ground (arith, without_other en name ds ne)
remove_entry_other os en name not_exist ne = ground arith
remove_entry_other os en name (failed e) ne = ground arith

remove_session_other :
    (os : DiskCalls) (en name : Bytes) (ds : List SessionDir) (root : DirRead)
    → belongs_to name en ≡ false
    → is_there en (remove_session os name ds root).0 ≡ is_there en root
unfolding remove_session
remove_session_other os en name [] root ne = refl
remove_session_other os en name (d ∷ ds) root ne = elim (Bool-cases (belongs_to name d.name)) [
  | inl e ↦
      let differ : eqb d.name en ≡ false = ground (arith, eqb_iff d.name en, ne, e) in
      rw (e, remove_session_other os en name ds (remove_entry os d.name root).0 ne)
        (remove_entry_other os en d.name root differ)
  | inr e ↦ rw e (remove_session_other os en name ds root ne)
]

-- The request cannot touch the entry: it belongs to no named session, unless the name is refused or
-- the session runs.
abbrev pub IsSpared : Sessions → Bytes → Bytes → Type 0
IsSpared s en name =
    (belongs_to name en ≡ false)
    ⊎ ((is_invalid_name name ≡ true) ⊎ ((is_session_running name s).0 ≡ true))

delete_one_keeps :
    (os : DiskCalls) (entries : List SessionDir) (en name : Bytes) (st : Deleting)
    → IsSpared st.0.sessions en name
    → is_there en (delete_one os entries name st).0.root ≡ is_there en st.0.root
unfolding delete_one
delete_one_keeps os entries en name (disk, r) h =
    ground (arith, remove_session_other os en name entries disk.root)

delete_one_sessions :
    (os : DiskCalls) (entries : List SessionDir) (other name : Bytes) (st : Deleting)
    → (is_session_running other (delete_one os entries name st).0.sessions).0
      ≡ (is_session_running other st.0.sessions).0
unfolding delete_one
delete_one_sessions os entries other name (disk, r) =
    ground (arith, is_session_running_stable name other disk.sessions)

IsSpared-after :
    (os : DiskCalls) (entries : List SessionDir) (en name : Bytes) (names : List Bytes)
    (st : Deleting)
    → All (IsSpared st.0.sessions en) names
    → All (IsSpared (delete_one os entries name st).0.sessions en) names
IsSpared-after os entries en name [] st h = tt
IsSpared-after os entries en name (n ∷ names) st h = (
  ground (arith, h.0, delete_one_sessions os entries n name st),
  IsSpared-after os entries en name names st h.1,
)

delete_each_keeps :
    (os : DiskCalls) (entries : List SessionDir) (en : Bytes) (names : List Bytes) (st : Deleting)
    → All (IsSpared st.0.sessions en) names
    → is_there en (delete_each os entries names st).0.root ≡ is_there en st.0.root
unfolding delete_each
delete_each_keeps os entries en [] st h = refl
delete_each_keeps os entries en (name ∷ names) st h =
    let next_st : Deleting = delete_one os entries name st in
    let still = IsSpared-after os entries en name names st h.1 in
    rw (delete_each_keeps os entries en names next_st still)
      (delete_one_keeps os entries en name st h.0)

delete_listed_keeps :
    (os : DiskCalls) (root : DirRead) (names : List Bytes) (disk : Disk) (en : Bytes)
    → All (IsSpared disk.sessions en) names
    → is_there en (delete_listed os root names disk).0.root ≡ is_there en disk.root
unfolding delete_listed
delete_listed_keeps os (listed ds) names disk en h =
    delete_each_keeps os ds en names (disk, nothing_deleted) h
delete_listed_keeps os not_exist names disk en h =
    delete_each_keeps os [] en names (disk, nothing_deleted) h
delete_listed_keeps os (failed e) names disk en h = refl

-- Whatever session directories are to be deleted, an entry stays in the sessions directory when
-- each requested name is one that it does not belong to, or an invalid one, or that of a session
-- which has a live process when the call is made.
pub delete_session_dirs_keeps :
    (os : DiskCalls) (names : List Bytes) (disk : Disk) (en : Bytes)
    → All (IsSpared disk.sessions en) names
    → is_there en (delete_session_dirs os names disk).0.root ≡ is_there en disk.root
unfolding delete_session_dirs
delete_session_dirs_keeps os names disk en h =
    ground (arith, delete_listed_keeps os disk.root names disk en h)
