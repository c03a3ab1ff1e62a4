-- ===== src/Vm/Backend/Start.antt =====
-- StartVM of vm/backend.go, in its steps: it holds the lock while it tests for a start in flight, and
-- opens the parts of the VM one by one without the lock, until it stores them; the last step follows
-- the wait for the guest. Between two steps other calls may run.
use claude_cowork_service.Base.{
  Bool, Bytes, Dict, Option, Result, [], codes, err, false, if◌then◌else◌, is_empty, is_positive,
  none, not, ok, some, true, ℕ, ℤ, ◌++◌, ◌+◌, ◌∷◌,
}
use claude_cowork_service.Json.{Json, str}
use claude_cowork_service.Vm.Backend.{
  KvmBackend, Machine, Runtime, cleanup_vm_runtime, emit, no_runtime, shut, take_exited_vm_state,
}

abbrev pub startup_step : Bytes → Bytes → Dict Json
startup_step step status =
    (codes "type", str (codes "startupStep"))
    ∷ ((codes "step", str step) ∷ ((codes "status", str status) ∷ []))

abbrev pub startup_failed : Bytes → Dict Json
startup_failed reason =
    startup_step (codes "prepare_session") (codes "failed") ++ (codes "error", str reason) ∷ []

abbrev pub vm_started : Bytes → Dict Json
vm_started name = (codes "type", str (codes "vmStarted")) ∷ ((codes "name", str name) ∷ [])

-- How the first step goes on: StartVM returns nil at once, or starts.
pub data Begun : Type 0 where
  returns : Begun
  proceeds : Begun

-- The test of b.starting, with the runtime of a QEMU that has exited, if it was taken.
unfoldable pub test_starting : Option Runtime → KvmBackend → Machine → KvmBackend × Machine × Begun
test_starting stale b m =
    let proceeding : KvmBackend = record b { starting = true } in
    if b.starting then (b, m, returns) else elim stale [
      | none ↦ (proceeding, m, proceeds)
      | some state ↦
          let (b', m') = cleanup_vm_runtime state state.session_name proceeding m in
          (b', m', proceeds)
    ]

-- The test of b.started.
unfoldable pub test_started : KvmBackend → Machine → KvmBackend × Machine × Begun
test_started b m =
    let (b', stale) = take_exited_vm_state m b in
    if not b.started
    then test_starting none b m
    else elim stale [ none ↦ (b, m, returns) | some state ↦ test_starting (some state) b' m ]

-- StartVM up to the preflight.
unfoldable pub begin_start : ℤ → KvmBackend → Machine → KvmBackend × Machine × Begun
begin_start cpu_count b m =
    test_started (if is_positive cpu_count then record b { cpus = cpu_count } else b) m

-- The deferred function.
unfoldable pub end_start : KvmBackend → KvmBackend
end_start b = record b { starting = false }

-- The outcomes of the steps that open the VM: failures by their texts.
pub record OpenCalls : Type 0 where
  -- CheckKvmPrerequisites: the reason why the VM cannot run.
  pub missing : Option Bytes
  -- The bundle directory, or the error of its preparation.
  pub prepared : Result Bytes Bytes
  -- Creating the session's directory, and preparing the NVRAM in it.
  pub session_dir_error : Option Bytes
  pub vars_error : Option Bytes
  -- The staging directory of the shared files, and the helper; one that fails is gone.
  pub staging_error : Option Bytes
  pub helper_error : Option Bytes
  pub qemu_error : Option Bytes
  -- DialQMP succeeds; a failure is logged only.
  pub has_qmp : Bool
  pub listen_error : Option Bytes

abbrev pub Opened : Type 0
Opened = KvmBackend × Machine × Result Bytes (Unit {0})

-- A part is opened, under a new handle.
unfoldable pub open_part : Machine → Machine × ℕ
open_part m =
    (record m { live = m.next_handle ∷ m.live; next_handle = m.next_handle + 1 }, m.next_handle)

unfoldable pub open_if : Bool → Machine → Machine × Option ℕ
unfolding open_part
open_if false m = (m, none)
open_if true m = let (m', n) = open_part m in (m', some n)

-- The names and directories of a start.
pub record StartNames : Type 0 where
  pub session_id : Bytes
  pub session_dir : Bytes
  pub bundle_dir : Bytes

-- The fields are stored under the lock, with a new channel for the watchdog.
unfoldable pub publish : StartNames → Runtime → KvmBackend → Machine → KvmBackend × Machine
unfolding open_part
publish names parts b m =
    let (m', stop) = open_part m in
    (
      record b {
        started = true;
        runtime = record parts {
          session_dir = names.session_dir;
          session_name = names.session_id;
          bundle_dir = names.bundle_dir;
          watchdog_stop = some stop;
        };
      },
      m',
    )

abbrev wait_for_guest : Dict Json
wait_for_guest = startup_step (codes "wait_for_guest") (codes "running")

-- From bridge.Listen on.
unfoldable pub open_bridge :
    OpenCalls → StartNames → ℕ → ℕ → Option ℕ → KvmBackend → Machine → Opened
unfolding shut open_part publish end_start emit
open_bridge os names helper qemu qmp b m = elim os.listen_error [
  | some e ↦ (
    end_start b,
    shut (some helper) (shut qmp (shut (some qemu) m)),
    err (codes "bridge listen: " ++ e),
  )
  | none ↦
      let (m', bridge) = open_part m in
      let parts = record no_runtime {
        qemu = some qemu;
        qmp = qmp;
        helper = some helper;
        bridge = some bridge;
      } in
      let (b', m'') = publish names parts b m' in (b', emit wait_for_guest m'', ok tt)
]

-- What a step of a start hands on, or the error that it fails with.
abbrev pub Partly : Type 0 → Type 0
Partly A = KvmBackend × Machine × Result Bytes A

-- startQEMU and DialQMP.
unfoldable pub open_qemu : OpenCalls → ℕ → KvmBackend → Machine → Partly (ℕ × Option ℕ)
unfolding shut open_part open_if end_start
open_qemu os helper b m = elim os.qemu_error [
  | some e ↦ (end_start b, shut (some helper) m, err e)
  | none ↦
      let (m', qemu) = open_part m in
      let (m'', qmp) = open_if os.has_qmp m' in (b, m'', ok (qemu, qmp))
]

-- helper.Start. A pending bind of the SDK is replayed, and its failure is logged only.
unfoldable pub open_helper : OpenCalls → KvmBackend → Machine → Partly ℕ
unfolding open_part end_start emit
open_helper os b m = elim os.helper_error [
  | some e ↦ (end_start b, m, err (codes "starting vfs helper: " ++ e))
  | none ↦
      let (m', helper) = open_part m in
      (
        record b { pending_sdk_bind = none },
        emit (startup_step (codes "start_vm") (codes "running")) m',
        ok helper,
      )
]

-- The session's directory and what is prepared in it.
unfoldable pub open_session : OpenCalls → StartNames → KvmBackend → Machine → Partly StartNames
unfolding end_start
open_session os names b m =
    let m' : Machine = record m { session_dirs = names.session_dir ∷ m.session_dirs } in
    elim os.session_dir_error [
      | some e ↦ (end_start b, m, err (codes "creating session dir: " ++ e))
      | none ↦ elim os.vars_error [
        | some e ↦ (end_start b, m', err e)
        | none ↦ elim os.staging_error [
          | some e ↦ (end_start b, m', err (codes "creating virtiofs staging dir: " ++ e))
          | none ↦ (b, m', ok names)
        ]
      ]
    ]

abbrev pub prepare_session : Dict Json
prepare_session = startup_step (codes "prepare_session") (codes "running")

-- StartVM from the preflight to the helper. A failure ends the start.
unfoldable pub prepare_vm :
    OpenCalls → (Bytes → StartNames) → KvmBackend → Machine → Partly StartNames
unfolding open_session end_start emit
prepare_vm os names b m = elim os.missing [
  | some reason ↦
      (end_start b, emit (startup_failed reason) m, err (codes "KVM unavailable: " ++ reason))
  | none ↦ elim os.prepared [
    | err e ↦ (end_start b, emit prepare_session m, err e)
    | ok bundle_dir ↦ open_session os (names bundle_dir) b (emit prepare_session m)
  ]
]

-- A step that succeeds is followed by the next one.
unfoldable and_open : {A : Type 0} → Partly A → (KvmBackend → Machine → A → Opened) → Opened
and_open (b, m, err e) next = (b, m, err e)
and_open (b, m, ok a) next = next b m a

-- StartVM from the preflight to the wait for the guest, when no other call comes in between.
unfoldable pub open_vm : OpenCalls → (Bytes → StartNames) → KvmBackend → Machine → Opened
unfolding prepare_vm open_helper open_qemu open_bridge and_open
open_vm os names b m = and_open (prepare_vm os names b m) (λ b' m' ns.
    and_open (open_helper os b' m') (λ b'' m'' helper.
      and_open (open_qemu os helper b'' m'')
        (λ c n parts. open_bridge os ns helper parts.0 parts.1 c n)))

-- StartVM up to the wait for the guest, when no other call comes between its steps.
unfoldable pub start_kvm : OpenCalls → (Bytes → StartNames) → ℤ → KvmBackend → Machine → Opened
start_kvm os names cpu_count b m =
    let (b', m', begun) = begin_start cpu_count b m in
    elim begun [ returns ↦ (b', m', ok tt) | proceeds ↦ open_vm os names b' m' ]

-- StartVM after the wait, but for the installation of the SDK: the guest is there or not, and the
-- prober is replaced if there is an address to probe. The watchdog runs if the VM has not been
-- stopped meanwhile.
unfoldable pub finish_start : Bytes → Bool → Bytes → KvmBackend → Machine → KvmBackend × Machine
unfolding end_start emit is_empty
finish_start name guest_ready api_probe_url b m =
    let status = if guest_ready then codes "completed" else codes "failed" in
    (
      end_start (if is_empty api_probe_url then b else record b { has_prober = true }),
      emit (vm_started name) (emit (startup_step (codes "wait_for_guest") status) m),
    )
