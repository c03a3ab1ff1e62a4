-- ===== src/Vm/Backend/Examples.antt =====
-- The theorems on the KVM backend at concrete inputs.
use mathlib.Core.Option
use claude_cowork_service.Base.{
  Bytes, List, Option, [], ap, arith, codes, eqb, false, is_positive, ltb, none, ok, pos, refl,
  some, true, ℕ, ◌%◌, ◌+◌, ◌-◌, ◌<◌, ◌∷◌, ◌≡◌, ◌≢◌, ◌≤◌,
}
use claude_cowork_service.Decimal.{digits_value, digits_value-format_uint}
use claude_cowork_service.Json.{Fields, Json, bool, end, field, null, obj, str}
use claude_cowork_service.Guest.Message.{GuestText}
use claude_cowork_service.Rpc.Backend.{SpawnArgs}
use claude_cowork_service.Vm.Backend.{
  KvmBackend, Machine, Runtime, is_qemu_running, new_kvm_backend, no_runtime, stop_kvm,
}
use claude_cowork_service.Vm.Backend.Start.{
  Begun, OpenCalls, StartNames, begin_start, open_vm, start_kvm, test_started, test_starting,
}
use claude_cowork_service.Vm.Backend.Leaks.{Off}
use claude_cowork_service.Vm.Backend.Leaks.Begin.{is_lost}
use claude_cowork_service.Vm.Backend.Leaks.Run.{lost_start_leaks, nothing_left_open}
use claude_cowork_service.Vm.Backend.Watchdog.{Silent, watchdog_loop, watchdog_loop_lem}
use claude_cowork_service.Vm.Backend.Cid.{
  CidCalls, Works, allocate_cid, cid_at, cid_at_cycle, stored_cid,
}
use claude_cowork_service.Vm.Backend.Processes.{
  ProcessAct, emitted, is_process_running, is_process_running_lem, message, process_acts,
  runs_after, spawned,
}
use claude_cowork_service.Vm.Backend.Forward.{GuestCalls}
use claude_cowork_service.Vm.Backend.Forward.Spawn.{guest_claude, guest_command, spawn_params}
use claude_cowork_service.Vm.Backend.Leaks.Steps.{
  Run, Stage, Stepped, begins, begun_start, is_opening, new, open_step, opens, step, without_result,
}

abbrev no_machine : Machine
no_machine = record { live = []; next_handle = 0; exited = []; session_dirs = []; events = [] }

-- A start that succeeds, without QMP.
abbrev opens_all : OpenCalls
opens_all = record {
  missing = none;
  prepared = ok (codes "/b");
  session_dir_error = none;
  vars_error = none;
  staging_error = none;
  helper_error = none;
  qemu_error = none;
  has_qmp = false;
  listen_error = none;
}

abbrev named : Bytes → StartNames
named bundle = record {
  session_id = codes "s";
  session_dir = codes "/v/sessions/s";
  bundle_dir = bundle;
}

started_run :
    (start_kvm opens_all named (pos 2) new_kvm_backend no_machine).1.live ≡ 3 ∷ 2 ∷ 1 ∷ 0 ∷ []
unfolding start_kvm begin_start test_started test_starting is_positive open_vm new_kvm_backend
started_run = refl

not_lost : is_lost new_kvm_backend no_machine ≡ false
unfolding new_kvm_backend
not_lost = refl

-- The backend after that start.
abbrev up : KvmBackend × Machine
up = without_result (start_kvm opens_all named (pos 2) new_kvm_backend no_machine)

-- A start that has come so far that its helper runs.
abbrev begun : KvmBackend × Machine × Begun
begun = begin_start (pos 2) new_kvm_backend no_machine

abbrev with_dirs : Stage × KvmBackend × Machine
with_dirs = open_step opens_all named begun_start begun.0 begun.1

abbrev helped : Stage × KvmBackend × Machine
helped = open_step opens_all named with_dirs.0 with_dirs.1 with_dirs.2

helped-Run : Run helped.0 helped.1 helped.2
unfolding begin_start test_started test_starting is_positive open_step new_kvm_backend
helped-Run =
    step
      (step (step (new {m = no_machine} refl refl) (begins (pos 2) not_lost refl))
        (opens opens_all named refl refl))
      (opens opens_all named refl refl)

helped_opening : is_opening helped.0 ≡ true
unfolding begin_start test_started test_starting is_positive open_step new_kvm_backend
helped_opening = refl

nothing_left_open_example :
    (is_opening helped.0 ≡ false → (name : Bytes) → Off (stop_kvm name helped.1 helped.2))
    × (is_opening helped.0 ≡ true
        → ((name : Bytes) → stop_kvm name helped.1 helped.2 ≡ (helped.1, helped.2))
          × ((os : OpenCalls) (names : Bytes → StartNames)
              → Stepped (open_step os names helped.0 helped.1 helped.2)))
nothing_left_open_example = nothing_left_open helped-Run

-- The QEMU of that start has ended, and its wait for the guest goes on.
abbrev down : Machine
down = record (up.1) { exited = 1 ∷ [] }

lost_now : is_lost up.0 down ≡ true
unfolding start_kvm begin_start test_started test_starting is_positive open_vm new_kvm_backend
    is_qemu_running
lost_now = refl

lost_start_leaks_example :
    let (b', m', r) = start_kvm opens_all named (pos 0) up.0 down in
    (r ≡ ok tt)
    × (m' ≡ down)
    × (b'.runtime ≡ no_runtime)
    × ((name : Bytes) → stop_kvm name b' m' ≡ (b', m'))
lost_start_leaks_example = lost_start_leaks opens_all named (pos 0) up.0 down lost_now

watchdog_run : watchdog_loop 10 (λ t. 3) (λ t. false) 4 ≡ some 34
unfolding watchdog_loop
watchdog_run = refl

watchdog_loop_lem_example :
    ((fired : ℕ)
      → watchdog_loop 10 (λ t. 3) (λ t. false) 4 ≡ some fired
      → Silent (λ t. 3) (λ t. false) fired)
    × ((last : ℕ)
        → 1 ≤ last
        → last ≤ 4
        → 4 < last + 30
        → 7 ≤ 10
        → ((t : ℕ) → 4 ≤ t → ◌≡◌ {A = ℕ} 3 last)
        → ((t : ℕ) → false ≡ false)
        → (fired : ℕ) × (watchdog_loop 10 (λ t. 3) (λ t. false) 4 ≡ some fired)
          × (fired < last + 35))
watchdog_loop_lem_example = watchdog_loop_lem 10 (λ t. 3) (λ t. false) 4

abbrev counter : CidCalls
counter = record {
  scan = λ s. some (digits_value s);
  open_error = none;
  flock_error = none;
  truncate_error = none;
  write_error = none;
}

counter-Works : Works counter
counter-Works = record {
  opens = refl;
  locks = refl;
  truncates = refl;
  writes = refl;
  scans = λ n h. ap some (digits_value-format_uint n (omega arith));
}

small_counter : stored_cid counter (codes "65534") < 65535
unfolding stored_cid digits_value
small_counter = omega arith

cid_run : cid_at counter 1 (codes "65534") ≡ 3
unfolding cid_at allocate_cid digits_value
cid_run = refl

cid_at_cycle_example :
    ((k : ℕ)
      → cid_at counter k (codes "65534") ≡ 3 + (stored_cid counter (codes "65534") - 3 + k) % 65532)
    × ((i j : ℕ)
        → i < j
        → j < i + 65532
        → cid_at counter i (codes "65534") ≢ cid_at counter j (codes "65534"))
cid_at_cycle_example = cid_at_cycle counter (codes "65534") counter-Works small_counter

abbrev one_exit : List ProcessAct
one_exit =
    spawned (codes "p")
    ∷ spawned (codes "q")
    ∷ emitted (message ((codes "type", str (codes "exit")) ∷ ((codes "id", str (codes "p")) ∷ [])))
    ∷ []

is_process_running_lem_example :
    is_process_running (codes "q") (process_acts (λ v. codes "0") one_exit [])
    ≡ runs_after (λ v. codes "0") (codes "q") one_exit (is_process_running (codes "q") [])
is_process_running_lem_example = is_process_running_lem (λ v. codes "0") (codes "q") one_exit []

-- A guest that counts the calls, and is there from the second state on.
abbrev counting : GuestCalls ℕ
counting = record {
  is_connected = λ g. ltb 0 g;
  forward = λ method params g. (g + 1, ok null);
  notify = λ method params g. (g + 1, ok tt);
  bind = λ path mode g. (g, ok tt);
}

abbrev with_bridge : Runtime
with_bridge = record no_runtime { bridge = some 2 }

abbrev plain_text : GuestText
plain_text = record {
  parse = λ s. none;
  print = λ v. codes "?";
  to_any = λ v. v;
  float_text = λ v. codes "0";
  in_range = λ v. true;
}

-- {"command": "/home/u/claude", "isResume": true}.
abbrev resume_fields : Fields
resume_fields =
    field (codes "command") (str (codes "/home/u/claude"))
      (field (codes "isResume") (bool true) end)

abbrev resume_args : SpawnArgs (Option Json)
resume_args = record {
  name = codes "s";
  id = codes "p";
  cmd = codes "/home/u/claude";
  args = [];
  env = [];
  cwd = codes "/sessions/s";
  mounts = [];
  raw_params = some (obj resume_fields);
  oauth_token = [];
}

spawn_params_run :
    spawn_params plain_text resume_args
    ≡ (codes "command", str guest_claude) ∷ ((codes "isResume", bool true) ∷ [])
unfolding spawn_params guest_command eqb
spawn_params_run = refl

-- The backend of a VM whose guest is there, without a helper.
abbrev reachable : KvmBackend
reachable = record new_kvm_backend { runtime = with_bridge }
