-- ===== src/Native/Disk/Gone.antt =====
-- What a reported deletion guarantees.
use mathlib.Core.Path.{◌≡◌, refl, subst, sym}
use claude_cowork_service.Base.{
  Bool-cases, Bytes, List, Option, Option-cases, [], arith, elem, eqb, eqb_iff, eqb→eq, false,
  if◌then◌else◌, inl, inr, none, ok, refl, subst, sym, true, ◌++◌, ◌||◌, ◌∷◌, ◌≡◌,
}
use claude_cowork_service.Native.Disk.{
  Deleting, DirRead, Disk, DiskCalls, SessionDir, belongs_to, delete_each, delete_listed,
  delete_one, delete_session_dirs, failed, finish_session, listed, not_exist, nothing_deleted,
  refuse, remove_entry, remove_from, remove_session, without,
}
use claude_cowork_service.Native.Disk.Keep.{has_entry, is_there}
use claude_cowork_service.Rpc.Backend.{DeleteSessionDirsResult}

module _ (os : DiskCalls) (en : Bytes) where
  without_gone :
      (name : Bytes) (ds : List SessionDir)
      → has_entry en ds ≡ false
      → has_entry en (without name ds) ≡ false
  unfolding without has_entry
  without_gone name [] h = refl
  without_gone name (d ∷ ds) h = ground (arith, without_gone name ds)

  without_self : (ds : List SessionDir) → has_entry en (without en ds) ≡ false
  unfolding without has_entry
  without_self [] = refl
  without_self (d ∷ ds) = ground (arith, without_self ds)

  pub remove_entry_gone :
      (name : Bytes) (root : DirRead)
      → is_there en root ≡ false
      → is_there en (remove_entry os name root).0 ≡ false
  unfolding remove_entry remove_from is_there
  remove_entry_gone name (listed ds) h = ground (arith, without_gone name ds h)
  remove_entry_gone name not_exist h = ground arith
  remove_entry_gone name (failed e) h = ground arith

  pub remove_entry_self :
      (root : DirRead)
      → (remove_entry os en root).1 ≡ none
      → is_there en (remove_entry os en root).0 ≡ false
  unfolding remove_entry remove_from is_there
  remove_entry_self (listed ds) h = ground (arith, without_self ds)
  remove_entry_self not_exist h = ground arith
  remove_entry_self (failed e) h = ground arith

  remove_session_gone :
      (name : Bytes) (ds : List SessionDir) (root : DirRead)
      → is_there en root ≡ false
      → is_there en (remove_session os name ds root).0 ≡ false
  unfolding remove_session
  remove_session_gone name [] root h = h
  remove_session_gone name (d ∷ ds) root h = elim (Bool-cases (belongs_to name d.name)) [
    | inl e ↦ rw e (
        remove_session_gone name ds (remove_entry os d.name root).0
          (remove_entry_gone d.name root h))
    | inr e ↦ rw e (remove_session_gone name ds root h)
  ]

  -- Without an error, every entry that belongs to the session is gone.
  remove_session_all :
      (name : Bytes) (ds : List SessionDir) (root : DirRead)
      → belongs_to name en ≡ true
      → has_entry en ds ≡ true
      → (remove_session os name ds root).1 ≡ none
      → is_there en (remove_session os name ds root).0 ≡ false
  unfolding remove_session has_entry
  remove_session_all name [] root b h ok_ = absurd (ground arith)
  remove_session_all name (d ∷ ds) root b h ok_ = elim (Bool-cases (eqb d.name en)) [
    | inl e ↦
        let same : d.name ≡ en = eqb→eq d.name en e in
        let mine : belongs_to name d.name ≡ true = rw same b in
        let fine : (remove_entry os en root).1 ≡ none = ground (arith, same, mine) in
        rw (mine, same)
          (remove_session_gone name ds (remove_entry os en root).0 (remove_entry_self root fine))
    | inr e ↦
        let after : DirRead × Option Bytes =
          if belongs_to name d.name then remove_entry os d.name root else (root, none) in
        remove_session_all name ds after.0 b (ground (arith, e)) (ground arith)
  ]

elem_snoc : (n name : Bytes) (ns : List Bytes) → elem n (ns ++ name ∷ []) ≡ elem n ns || eqb name n
unfolding elem
elem_snoc n name [] = ground arith
elem_snoc n name (m ∷ ns) = ground (arith, elem_snoc n name ns)

-- The entry is there only if it was listed; and once the session is reported as deleted, it is gone.
IsReported : List SessionDir → Bytes → Bytes → Deleting → Type 0
IsReported entries n en st =
    (is_there en st.0.root ≡ true → has_entry en entries ≡ true)
    × (elem n st.1.deleted ≡ true → is_there en st.0.root ≡ false)

module _ (os : DiskCalls) (entries : List SessionDir) (n en : Bytes)
    (b : belongs_to n en ≡ true) where
  delete_one-IsReported :
      (name : Bytes) (st : Deleting)
      → IsReported entries n en st
      → IsReported entries n en (delete_one os entries name st)
  unfolding IsReported delete_one finish_session refuse
  delete_one-IsReported name (disk, r) h = ground (
    arith,
    remove_session_gone os en name entries disk.root,
    λ (e : name ≡ n) (listed_ : has_entry en entries ≡ true).
        remove_session_all os en name entries disk.root (rw e b) listed_,
    elem_snoc n name r.deleted,
    eqb_iff name n,
  )

  delete_each-IsReported :
      (names : List Bytes) (st : Deleting)
      → IsReported entries n en st
      → IsReported entries n en (delete_each os entries names st)
  unfolding delete_each
  delete_each-IsReported [] st h = h
  delete_each-IsReported (name ∷ names) st h =
      delete_each-IsReported names (delete_one os entries name st) (delete_one-IsReported name st h)

  reported_gone :
      (names : List Bytes) (disk disk' : Disk) (r : DeleteSessionDirsResult)
      → (is_there en disk.root ≡ true → has_entry en entries ≡ true)
      → delete_each os entries names (disk, nothing_deleted) ≡ (disk', r)
      → elem n r.deleted ≡ true
      → is_there en disk'.root ≡ false
  unfolding IsReported elem
  reported_gone names disk disk' r start_ h m =
      let end_ : IsReported entries n en (disk', r) = subst (IsReported entries n en) h (
        delete_each-IsReported names (disk, nothing_deleted)
          (start_, λ e. absurd (ground arith))) in
      end_.1 m

delete_listed_done :
    (os : DiskCalls) (root : DirRead) (names : List Bytes) (disk disk' : Disk)
    (r : DeleteSessionDirsResult) (n en : Bytes)
    → root ≡ disk.root
    → delete_listed os root names disk ≡ (disk', ok r)
    → elem n r.deleted ≡ true
    → belongs_to n en ≡ true
    → is_there en disk'.root ≡ false
unfolding delete_listed is_there has_entry
delete_listed_done os (listed ds) names disk disk' r n en same h m b =
    reported_gone os ds n en b names disk disk' r (rw (sym same) (λ x. x)) (ground arith) m
delete_listed_done os not_exist names disk disk' r n en same h m b =
    reported_gone os [] n en b names disk disk' r (rw (sym same) (λ x. x)) (ground arith) m
delete_listed_done os (failed e) names disk disk' r n en same h m b = absurd (ground arith)

-- When DeleteSessionDirs reports a session as deleted, no entry of the sessions directory is left
-- that is its directory or one of its backups.
pub delete_session_dirs_done :
    (os : DiskCalls) (names : List Bytes) (disk disk' : Disk) (r : DeleteSessionDirsResult)
    (n en : Bytes)
    → delete_session_dirs os names disk ≡ (disk', ok r)
    → elem n r.deleted ≡ true
    → belongs_to n en ≡ true
    → is_there en disk'.root ≡ false
unfolding delete_session_dirs
delete_session_dirs_done os names disk disk' r n en h m b = elim (Option-cases os.home_error) [
  | inl e ↦ delete_listed_done os disk.root names disk disk' r n en refl (ground (arith, e)) m b
  | inr (x, e) ↦ absurd (ground (arith, e))
]
