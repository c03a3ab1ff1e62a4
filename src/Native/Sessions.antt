-- ===== src/Native/Sessions.antt =====
-- Which sessions run: the tracker's table of processes (native/process.go), and the index of a
-- session's processes (isSessionRunning of native/diskmgmt.go).
pub mod Index
use claude_cowork_service.Base.{
  Bool, Bytes, Dict, List, [], false, get, if◌then◌else◌, length, ltb, none, pos, put, remove, some,
  true, ℤ, ◌==◌, ◌∷◌,
}

-- localProcess: whether `done` is closed, and the exit code it then has.
pub record LocalProcess : Type 0 where
  pub done : Bool
  pub exit_code : ℤ

-- The processes of the tracker, and the process ids of every session.
pub record Sessions : Type 0 where
  pub processes : Dict LocalProcess
  pub session_procs : Dict (List Bytes)

-- isRunning. Its error is always nil.
unfoldable pub is_running : Bytes → Dict LocalProcess → Bool × ℤ
unfolding get
is_running id processes = elim (get id processes) [
  | none ↦ (false, pos 0)
  | some lp ↦ if lp.done then (false, lp.exit_code) else (true, pos 0)
]

abbrev pub is_alive : Dict LocalProcess → Bytes → Bool
is_alive processes id = (is_running id processes).0

-- The ids that are alive, in order.
unfoldable pub alive_ids : Dict LocalProcess → List Bytes → List Bytes
unfolding is_running
alive_ids processes [] = []
alive_ids processes (id ∷ ids) =
    let rest = alive_ids processes ids in if is_alive processes id then id ∷ rest else rest

-- sessionProcs[name], with no ids for a missing key.
unfoldable pub procs_of : Bytes → Sessions → List Bytes
unfolding get
procs_of name s = elim (get name s.session_procs) [ some ids ↦ ids | none ↦ [] ]

-- The dead ids leave the index, and an empty set leaves it too.
unfoldable pub prune_dead : Bytes → Sessions → Sessions
unfolding alive_ids procs_of put remove
prune_dead name s =
    let alive = alive_ids s.processes (procs_of name s) in
    if length alive == length (procs_of name s)
    then s
    else if length alive == 0
    then record s { session_procs = remove name s.session_procs }
    else record s { session_procs = put name alive s.session_procs }

-- isSessionRunning, with the index it leaves.
unfoldable pub is_session_running : Bytes → Sessions → Bool × Sessions
unfolding prune_dead procs_of alive_ids
is_session_running name s =
    (ltb 0 (length (alive_ids s.processes (procs_of name s))), prune_dead name s)
