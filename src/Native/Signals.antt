-- ===== src/Native/Signals.antt =====
-- Signals and kill of native/process.go.
use claude_cowork_service.Base.{
  Bool, Bytes, Dict, List, Result, [], codes, drop, eqb, err, false, get, has_prefix, if◌then◌else◌,
  leb, length, none, not, ok, refl, some, true, ◌&&◌, ◌++◌, ◌-◌, ◌∷◌, ◌≡◌,
}
use claude_cowork_service.Native.Sessions.{LocalProcess}

pub data Signal : Type 0 where
  sigterm sigkill sigint sigquit sighup sigusr1 sigusr2 : Signal

-- strings.ToUpper, of ASCII letters.
unfoldable pub to_upper : Bytes → Bytes
to_upper [] = []
to_upper (c ∷ s) = (if leb b'a' c && leb c b'z' then c - 32 else c) ∷ to_upper s

-- strings.TrimPrefix.
unfoldable pub trim_prefix : Bytes → Bytes → Bytes
unfolding has_prefix
trim_prefix s p = if has_prefix s p then drop (length p) s else s

abbrev pub signal_names : Dict Signal
signal_names =
    (codes "KILL", sigkill)
    ∷ (codes "INT", sigint)
    ∷ (codes "QUIT", sigquit)
    ∷ (codes "HUP", sighup)
    ∷ (codes "USR1", sigusr1)
    ∷ (codes "USR2", sigusr2)
    ∷ []

-- mapSignal: a name that no case has is SIGTERM.
unfoldable pub map_signal : Bytes → Signal
unfolding get to_upper trim_prefix
map_signal name = elim (get (to_upper (trim_prefix (to_upper name) (codes "SIG"))) signal_names) [
  | some s ↦ s
  | none ↦ sigterm
]

-- signalName, of the signals that mapSignal gives.
unfoldable pub signal_name : Signal → Bytes
signal_name sigterm = codes "SIGTERM"
signal_name sigkill = codes "SIGKILL"
signal_name sigint = codes "SIGINT"
signal_name sigquit = codes "SIGQUIT"
signal_name sighup = codes "SIGHUP"
signal_name sigusr1 = codes "SIGUSR1"
signal_name sigusr2 = codes "SIGUSR2"

-- What kill does to a process: a signal to it, the wait of three seconds on `done`, and a signal to
-- its process group, or to it alone when the group is not found.
pub data Sent : Type 0 where
  to_process to_group : Signal → Sent
  wait_done : Sent

-- What the system answers: the command has a process, it exits while kill waits, its group is found.
pub record Killed : Type 0 where
  pub has_process : Bool
  pub exits_in_time : Bool
  pub has_group : Bool

escalate : Killed → Signal → List Sent
escalate os sig = (if os.has_group then to_group sig else to_process sig) ∷ []

is_sigkill : Signal → Bool
is_sigkill sigkill = true
is_sigkill s = false

drain : Killed → Signal → List Sent
unfolding escalate
drain os sig = to_process sigint ∷ wait_done ∷ (if os.exits_in_time then [] else escalate os sig)

-- kill.
unfoldable pub kill : Killed → Bytes → Bytes → Dict LocalProcess → Result Bytes (List Sent)
unfolding get map_signal is_sigkill drain escalate
kill os id signal processes = elim (get id processes) [
  | none ↦ err (codes "process " ++ id ++ codes " not found")
  | some lp ↦
      if not os.has_process
      then ok []
      else if is_sigkill (map_signal signal)
      then ok (escalate os sigkill)
      else ok (drain os (map_signal signal))
]

-- The name of a signal is mapped to that signal.
pub map_signal-signal_name : (s : Signal) → map_signal (signal_name s) ≡ s
unfolding map_signal signal_name eqb
map_signal-signal_name sigterm = refl
map_signal-signal_name sigkill = refl
map_signal-signal_name sigint = refl
map_signal-signal_name sigquit = refl
map_signal-signal_name sighup = refl
map_signal-signal_name sigusr1 = refl
map_signal-signal_name sigusr2 = refl
