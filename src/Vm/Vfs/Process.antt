-- ===== src/Vm/Vfs/Process.antt =====
-- The life of the helper process, as the daemon drives it (vm/vfs.go: Start and Stop).
use claude_cowork_service.Base.{
  Bool, Bytes, List, Option, Result, [], codes, err, if◌then◌else◌, none, ok, some, ◌++◌, ◌∷◌,
}
use claude_cowork_service.Guest.Message.{GuestText}
use claude_cowork_service.Vm.Vfs.{VfsClient, stop_command}
use claude_cowork_service.Vm.Vfs.Send.{Sending, send}

-- The arguments of unshare, for the daemon's own executable.
abbrev pub helper_args : Bytes → Bytes → Bytes → List Bytes
helper_args self_exe staging_dir socket_path =
    codes "--user"
    ∷ codes "--map-root-user"
    ∷ codes "--mount"
    ∷ codes "--propagation=slave"
    ∷ codes "--"
    ∷ self_exe
    ∷ codes "--vfs-helper"
    ∷ codes "--staging"
    ∷ staging_dir
    ∷ codes "--socket"
    ∷ socket_path
    ∷ []

-- What is done to the process.
pub data HelperAct : Type 0 where
  launch : List Bytes → HelperAct
  close_stdin : HelperAct
  sigterm : HelperAct
  sigkill : HelperAct

-- Whether the process ends within 3 s, and within 2 s of SIGTERM.
pub record StopWaits : Type 0 where
  pub ends_by_itself : Bool
  pub ends_by_sigterm : Bool

-- Stop after its "stop" command: the signals escalate until the process has ended.
unfoldable pub stop_acts : StopWaits → List HelperAct
stop_acts waits =
    if waits.ends_by_itself
    then close_stdin ∷ []
    else if waits.ends_by_sigterm
    then close_stdin ∷ sigterm ∷ []
    else close_stdin ∷ sigterm ∷ sigkill ∷ []

-- Stop, of a process that was launched. The outcome of the command is ignored.
unfoldable pub stop :
    {W : Type 0}
    → GuestText
    → (Bytes → W → Sending W)
    → StopWaits
    → VfsClient
    → W
    → Option (VfsClient × W × List HelperAct)
unfolding send stop_command stop_acts
stop text peer waits v w = elim (send text peer (codes "stop") stop_command v w) [
  | none ↦ none
  | some (v', w', r) ↦ some (v', w', stop_acts waits)
]

-- What the select of Start sees first.
pub data StartEvent : Type 0 where
  becomes_ready : StartEvent
  start_times_out : StartEvent
  exits_early : StartEvent

-- The failures of the calls in Start, by their texts.
pub record StartCalls : Type 0 where
  pub self_exe : Result Bytes Bytes
  pub pipe_error : Option Bytes
  pub start_error : Option Bytes
  pub first : StartEvent
  pub waits : StopWaits

-- From the select on. Only a process that is not ready in time is stopped; the command "stop" that
-- Stop then sends first is left out. One that has ended needs no stop.
unfoldable pub start_waits : StartCalls → Result Bytes (Unit {0}) × List HelperAct
unfolding stop_acts
start_waits os = elim os.first [
  | becomes_ready ↦ (ok tt, [])
  | start_times_out ↦ (err (codes "vfs-helper did not become ready within 15s"), stop_acts os.waits)
  | exits_early ↦ (err (codes "vfs-helper exited before ready"), [])
]

-- Start, with a timeout of 15 s: its result and what it does to the process.
unfoldable pub start : StartCalls → Bytes → Bytes → Result Bytes (Unit {0}) × List HelperAct
unfolding start_waits
start os staging_dir socket_path = elim os.self_exe [
  | err e ↦ (err (codes "locating self executable: " ++ e), [])
  | ok self_exe ↦ elim os.pipe_error [
    | some e ↦ (err e, [])
    | none ↦ elim os.start_error [
      | some e ↦ (err (codes "starting vfs helper: " ++ e), [])
      | none ↦
          let (r, acts) = start_waits os in
          (r, launch (helper_args self_exe staging_dir socket_path) ∷ acts)
    ]
  ]
]
