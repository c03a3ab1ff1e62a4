-- ===== src/Vm/Qemu/Examples.antt =====
-- The theorem on a stale QEMU at a process that ignores SIGTERM.
use claude_cowork_service.Base.{All, [], codes, length, refl, some, true, ◌∷◌, ◌≡◌, ◌≤◌}
use claude_cowork_service.Vm.Qemu.{remove_pid_file, sigkill, sigterm}
use claude_cowork_service.Vm.Qemu.Stale.{
  IsForQemu, PidCalls, await_exit, ends_removed, is_qemu_process, kill_stale_pid,
  kill_stale_pid_lem,
}

-- A QEMU that ignores SIGTERM.
abbrev stubborn : PidCalls
stubborn = record {
  read_pid_file = some (codes "7");
  atoi = λ s. some 7;
  exe_link = λ pid. some (codes "/usr/bin/qemu-system-x86_64");
  is_alive = λ pid. true;
  is_alive_after = λ pid n. true;
}

stubborn_run : kill_stale_pid stubborn ≡ sigterm 7 ∷ sigkill 7 ∷ remove_pid_file ∷ []
unfolding kill_stale_pid is_qemu_process await_exit
stubborn_run = refl

kill_stale_pid_lem_example :
    All (IsForQemu stubborn) (kill_stale_pid stubborn)
    × (ends_removed (kill_stale_pid stubborn) ≡ true)
    × (length (kill_stale_pid stubborn) ≤ 3)
kill_stale_pid_lem_example = kill_stale_pid_lem stubborn (codes "7") refl
