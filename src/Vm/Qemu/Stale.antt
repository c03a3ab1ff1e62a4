-- ===== src/Vm/Qemu/Stale.antt =====
-- killStalePID and isQemuProcess of vm/qemu.go: the process whose pid a crashed daemon has left.
use claude_cowork_service.Base.{
  All, Bool, Bool-cases, Bytes, List, Option, Option-cases, [], arith, codes, false, has_prefix,
  if◌then◌else◌, inl, inr, length, none, refl, some, suc, true, zero, ℕ, ◌&&◌, ◌+◌, ◌∷◌, ◌≡◌, ◌≤◌,
}
use claude_cowork_service.FilePath.{base}
use claude_cowork_service.Vm.Qemu.{QemuAct, remove_pid_file, sigkill, sigterm}

-- The pid file and the process table.
pub record PidCalls : Type 0 where
  pub read_pid_file : Option Bytes
  -- strconv.Atoi of the trimmed text; os.FindProcess finds every pid on Unix.
  pub atoi : Bytes → Option ℕ
  -- The link /proc/<pid>/exe.
  pub exe_link : ℕ → Option Bytes
  -- Signal 0 succeeds before SIGTERM, and after a number of the waits of 100 ms.
  pub is_alive : ℕ → Bool
  pub is_alive_after : ℕ → ℕ → Bool

-- isQemuProcess.
unfoldable pub is_qemu_process : PidCalls → ℕ → Bool
unfolding has_prefix base
is_qemu_process os pid = elim (os.exe_link pid) [
  | none ↦ false
  | some exe ↦ has_prefix (base exe) (codes "qemu-system-")
]

-- The loop after SIGTERM, with the rounds left and the round that comes.
unfoldable pub await_exit : ℕ → ℕ → PidCalls → ℕ → List QemuAct
await_exit zero round os pid = sigkill pid ∷ remove_pid_file ∷ []
await_exit (suc n) round os pid =
    let rest = await_exit n (round + 1) os pid in
    if os.is_alive_after pid round then rest else remove_pid_file ∷ []

-- A pid that was read.
unfoldable pub kill_pid : PidCalls → ℕ → List QemuAct
kill_pid os pid =
    let acts = sigterm pid ∷ await_exit 50 0 os pid in
    if os.is_alive pid && is_qemu_process os pid then acts else remove_pid_file ∷ []

-- killStalePID.
unfoldable pub kill_stale_pid : PidCalls → List QemuAct
unfolding kill_pid
kill_stale_pid os = elim os.read_pid_file [
  | none ↦ []
  | some text ↦ elim (os.atoi text) [ none ↦ remove_pid_file ∷ [] | some pid ↦ kill_pid os pid ]
]

-- A signal goes only to a process that is QEMU's and alive, and whose pid the file holds.
abbrev pub IsForQemu : PidCalls → QemuAct → Type 0
IsForQemu os (sigterm pid) = is_qemu_process os pid ≡ true
IsForQemu os (sigkill pid) = is_qemu_process os pid ≡ true
IsForQemu os other = Unit {0}

abbrev pub ends_removed : List QemuAct → Bool
ends_removed [] = false
ends_removed (remove_pid_file ∷ []) = true
ends_removed (a ∷ acts) = ends_removed acts

abbrev Careful : PidCalls → List QemuAct → Type 0
Careful os acts = All (IsForQemu os) acts × (ends_removed acts ≡ true) × (length acts ≤ 3)

await_exit-Careful :
    (n round : ℕ) (os : PidCalls) (pid : ℕ)
    → is_qemu_process os pid ≡ true
    → All (IsForQemu os) (await_exit n round os pid)
      × (ends_removed (await_exit n round os pid) ≡ true)
      × (length (await_exit n round os pid) ≤ 2)
unfolding await_exit
await_exit-Careful zero round os pid q = ((q, (tt, tt)), refl, omega arith)
await_exit-Careful (suc n) round os pid q = elim (Bool-cases (os.is_alive_after pid round)) [
  | inl e ↦ rw e (await_exit-Careful n (round + 1) os pid q)
  | inr e ↦ rw e ((tt, tt), refl, omega arith)
]

sigterm-Careful :
    (os : PidCalls) (pid : ℕ) (acts : List QemuAct)
    → is_qemu_process os pid ≡ true
    → All (IsForQemu os) acts × (ends_removed acts ≡ true) × (length acts ≤ 2)
    → Careful os (sigterm pid ∷ acts)
sigterm-Careful os pid acts q (a, b, c) = ((q, a), b, omega arith)

kill_pid-Careful : (os : PidCalls) (pid : ℕ) → Careful os (kill_pid os pid)
unfolding kill_pid
kill_pid-Careful os pid = elim (Bool-cases (os.is_alive pid && is_qemu_process os pid)) [
  | inl e ↦ rw e (
      sigterm-Careful os pid (await_exit 50 0 os pid) (ground (arith, e))
        (await_exit-Careful 50 0 os pid (ground (arith, e))))
  | inr e ↦ rw e ((tt, tt), refl, omega arith)
]

-- Whatever a pid file holds that a crashed daemon has left, no process is signalled but one whose
-- executable is a qemu-system binary; there are at most two signals; and the last step removes the
-- pid file, so that the pid is not taken up again.
pub kill_stale_pid_lem :
    (os : PidCalls) (text : Bytes)
    → os.read_pid_file ≡ some text
    → All (IsForQemu os) (kill_stale_pid os)
      × (ends_removed (kill_stale_pid os) ≡ true)
      × (length (kill_stale_pid os) ≤ 3)
unfolding kill_stale_pid is_qemu_process
kill_stale_pid_lem os text h = elim (Option-cases (os.atoi text)) [
  | inl e ↦ rw (kill_stale_pid, h, e) ((tt, tt), refl, omega arith)
  | inr (pid, e) ↦ rw (kill_stale_pid, h, e) (kill_pid-Careful os pid)
]
