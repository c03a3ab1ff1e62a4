-- ===== src/Vm/Backend/Boot.antt =====
-- StartVM of vm/backend.go as a whole, up to the wait for the guest: the preflight and the images
-- that it prepares decide how the steps go. The end of a stale QEMU is in Vm/Qemu/Stale.
use claude_cowork_service.Base.{Bytes, err, none, ok, refl, some, ℤ, ◌≡◌}
use claude_cowork_service.Vm.Images.{Store}
use claude_cowork_service.Vm.Preflight.{HostProbe, check_kvm_prerequisites}
use claude_cowork_service.Vm.Backend.{KvmBackend, Machine}
use claude_cowork_service.Vm.Backend.Prepare.{
  BootHost, BootPlan, Planned, plan_boot, prepare_disks, prepare_vars,
}
use claude_cowork_service.Vm.Backend.Start.{
  Begun, OpenCalls, Opened, StartNames, begin_start, open_vm, proceeds, returns, start_kvm,
}

-- In the session's directory, once it is there: the NVRAM, and then the disks.
unfoldable prepare_session_files :
    BootHost → StartNames → BootPlan → OpenCalls → Store → Store × OpenCalls
unfolding prepare_vars prepare_disks
prepare_session_files os names plan calls fs = elim calls.session_dir_error [
  | some e ↦ (fs, calls)
  | none ↦
      let (fs', vars) = prepare_vars os.images names.session_dir plan fs in
      elim vars [
        | err e ↦ (fs', record calls { vars_error = some e })
        | ok path ↦ ((prepare_disks os names.bundle_dir fs').0, record calls { vars_error = none })
      ]
]

unfoldable prepare_planned :
    BootHost → (Bytes → StartNames) → OpenCalls → Planned → Store × OpenCalls
unfolding prepare_session_files
prepare_planned os names calls (fs, err e) = (fs, record calls { prepared = err e })
prepare_planned os names calls (fs, ok plan) =
    prepare_session_files os (names plan.bundle_dir) plan
      (record calls { prepared = ok plan.bundle_dir }) fs

-- The images, and what their preparation comes to; the other outcomes are given.
unfoldable pub prepare_open :
    BootHost → (Bytes → StartNames) → Bytes → OpenCalls → Store → Store × OpenCalls
unfolding prepare_planned plan_boot
prepare_open os names bundle_path calls fs = elim calls.missing [
  | some reason ↦ (fs, calls)
  | none ↦ prepare_planned os names calls (plan_boot os bundle_path fs)
]

-- The outcomes of the steps, with the preflight's own.
abbrev pub checked : HostProbe → OpenCalls → OpenCalls
checked probe calls = record calls { missing = check_kvm_prerequisites probe }

unfoldable pub start_proceeds :
    BootHost
    → HostProbe
    → (Bytes → StartNames)
    → Bytes
    → OpenCalls
    → Store
    → KvmBackend × Machine × Begun
    → Store × Opened
unfolding prepare_open check_kvm_prerequisites open_vm
start_proceeds os probe names bundle_path calls fs (b, m, returns) = (fs, (b, m, ok tt))
start_proceeds os probe names bundle_path calls fs (b, m, proceeds) =
    let (fs', calls') = prepare_open os names bundle_path (checked probe calls) fs in
    (fs', open_vm calls' names b m)

unfoldable pub start_vm_kvm :
    BootHost
    → HostProbe
    → (Bytes → StartNames)
    → Bytes
    → ℤ
    → OpenCalls
    → KvmBackend
    → Machine
    → Store
    → Store × Opened
unfolding begin_start start_proceeds
start_vm_kvm os probe names bundle_path cpu_count calls b m fs =
    start_proceeds os probe names bundle_path calls fs (begin_start cpu_count b m)

-- The backend and the machine after StartVM are those of its steps, for the outcomes that the
-- preflight and the images come to: what holds of the steps for any outcomes holds of StartVM.
pub start_vm_kvm-start_kvm :
    (os : BootHost) (probe : HostProbe) (names : Bytes → StartNames) (bundle_path : Bytes)
    (cpu_count : ℤ) (calls : OpenCalls) (b : KvmBackend) (m : Machine) (fs : Store)
    → (start_vm_kvm os probe names bundle_path cpu_count calls b m fs).1
      ≡ start_kvm (prepare_open os names bundle_path (checked probe calls) fs).1 names cpu_count b m
unfolding start_vm_kvm start_kvm start_proceeds
start_vm_kvm-start_kvm os probe names bundle_path cpu_count calls b m fs =
    by_begun (begin_start cpu_count b m)
  where
    by_begun :
        (begun : KvmBackend × Machine × Begun)
        → (start_proceeds os probe names bundle_path calls fs begun).1 ≡ (
            let (b', m', r) = begun in
            elim r [
              | returns ↦ (b', m', ok tt)
              | proceeds ↦
                  open_vm (prepare_open os names bundle_path (checked probe calls) fs).1 names b' m'
            ])
    by_begun (b', m', returns) = refl
    by_begun (b', m', proceeds) = refl
