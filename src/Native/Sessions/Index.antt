-- ===== src/Native/Sessions/Index.antt =====
-- Pruning dead ids from the index of one session changes no session's answer.
use claude_cowork_service.Base.{
  Bool-cases, Bytes, Dict, List, [], arith, eqb, eqb_iff, get-put, get-remove, if◌then◌else◌, inl,
  inr, length, put, refl, remove, ◌∷◌, ◌≡◌,
}
use claude_cowork_service.Native.Sessions.{
  LocalProcess, Sessions, alive_ids, is_alive, is_session_running, procs_of, prune_dead,
}

alive_ids_idem :
    (ps : Dict LocalProcess) (ids : List Bytes) → alive_ids ps (alive_ids ps ids) ≡ alive_ids ps ids
unfolding alive_ids
alive_ids_idem ps [] = refl
alive_ids_idem ps (id ∷ ids) = elim (Bool-cases (is_alive ps id)) [
  | inl e ↦ rw (e, e, alive_ids_idem ps ids) refl
  | inr e ↦ rw e (alive_ids_idem ps ids)
]

no_alive : (ps : Dict LocalProcess) → alive_ids ps [] ≡ []
unfolding alive_ids
no_alive ps = refl

empty_of_length : (ids : List Bytes) → length ids ≡ 0 → ids ≡ []
empty_of_length [] e = refl
empty_of_length (id ∷ ids) e = absurd (ground arith)

procs_of-put :
    (name other : Bytes) (ids : List Bytes) (s : Sessions)
    → procs_of other (record s { session_procs = put name ids s.session_procs })
      ≡ (if eqb name other then ids else procs_of other s)
unfolding procs_of
procs_of-put name other ids s = ground (arith, get-put name other ids s.session_procs)

procs_of-remove :
    (name other : Bytes) (s : Sessions)
    → procs_of other (record s { session_procs = remove name s.session_procs })
      ≡ (if eqb name other then [] else procs_of other s)
unfolding procs_of
procs_of-remove name other s = ground (arith, get-remove name other s.session_procs)

pub prune_dead-alive :
    (name other : Bytes) (s : Sessions)
    → alive_ids s.processes (procs_of other (prune_dead name s))
      ≡ alive_ids s.processes (procs_of other s)
unfolding prune_dead
prune_dead-alive name other s =
    let alive : List Bytes = alive_ids s.processes (procs_of name s) in
    ground (
      arith,
      eqb_iff name other,
      procs_of-put name other alive s,
      procs_of-remove name other s,
      alive_ids_idem s.processes (procs_of name s),
      no_alive s.processes,
      empty_of_length alive,
    )

prune_dead-processes : (name : Bytes) (s : Sessions) → (prune_dead name s).processes ≡ s.processes
unfolding prune_dead
prune_dead-processes name s = ground arith

-- Asking whether one session runs changes no session's answer.
pub is_session_running_stable :
    (name other : Bytes) (s : Sessions)
    → (is_session_running other (is_session_running name s).1).0 ≡ (is_session_running other s).0
unfolding is_session_running
is_session_running_stable name other s =
    rw (prune_dead-processes name s, prune_dead-alive name other s) refl
