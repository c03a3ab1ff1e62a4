-- ===== src/Vm/Backend/Forward/Sdk.antt =====
-- InstallSdk and runPendingSdkInstall of vm/backend.go: an installation that waits for the guest.
use claude_cowork_service.Base.{
  Bytes, Option, [], ap, arith, codes, err, if◌then◌else◌, is_empty, none, not, ok, some, true, ℕ,
  ◌&&◌, ◌+◌, ◌==◌, ◌∙◌, ◌∷◌, ◌≡◌, ◌≢◌,
}
use claude_cowork_service.Json.{Json, str}
use claude_cowork_service.Vm.Backend.{KvmBackend, PendingSdkInstall}
use claude_cowork_service.Vm.Backend.Forward.{GuestCalls, Replied, has_guest, is_some, object}

-- forwardParams.
abbrev pub forward_params : PendingSdkInstall → Json
forward_params p =
    object ((codes "sdkSubpath", str p.sdk_subpath) ∷ (codes "version", str p.version) ∷ [])

-- The end of runPendingSdkInstall: what was sent is pending no more, unless another installation has
-- been requested meanwhile, with a serial of its own.
unfoldable pub clear_pending :
    PendingSdkInstall → Option PendingSdkInstall → Option PendingSdkInstall
clear_pending sent none = none
clear_pending sent (some p) = if p.serial == sent.serial then none else some p

unfoldable pub note_installed :
    {G : Type 0} → PendingSdkInstall → Replied G Json → KvmBackend → KvmBackend × G
unfolding clear_pending
note_installed sent (g, err e) b = (b, g)
note_installed sent (g, ok reply) b =
    (record b { pending_sdk_install = clear_pending sent b.pending_sdk_install }, g)

unfoldable pub run_sdk :
    {G : Type 0}
    → GuestCalls G
    → (KvmBackend → KvmBackend)
    → Option PendingSdkInstall
    → KvmBackend
    → G
    → KvmBackend × G
unfolding note_installed
run_sdk os meanwhile none b g = (b, g)
run_sdk os meanwhile (some pending) b g =
    if has_guest os b g
    then note_installed pending (os.forward (codes "installSdk") (forward_params pending) g)
        (meanwhile b)
    else (b, g)

-- runPendingSdkInstall. `meanwhile` is what other calls do to the backend while the guest installs.
unfoldable pub run_pending_sdk_install :
    {G : Type 0} → GuestCalls G → (KvmBackend → KvmBackend) → KvmBackend → G → KvmBackend × G
unfolding run_sdk
run_pending_sdk_install os meanwhile b g = run_sdk os meanwhile b.pending_sdk_install b g

-- What InstallSdk stores under the lock.
unfoldable pub queue_sdk : Bytes → Bytes → KvmBackend → KvmBackend
unfolding is_empty
queue_sdk sdk_subpath version b =
    let pending : PendingSdkInstall = record {
      sdk_subpath = sdk_subpath;
      version = version;
      serial = b.next_serial;
    } in
    let b' : KvmBackend = record b {
      pending_sdk_install = some pending;
      next_serial = b.next_serial + 1;
    } in
    if not (is_empty sdk_subpath) && not (is_some b.runtime.helper)
    then record b' { pending_sdk_bind = some (record { subpath = sdk_subpath; mode = codes "rw" }) }
    else b'

-- The bind of InstallSdk when the helper is up; its failure is logged only.
unfoldable pub bind_sdk : {G : Type 0} → GuestCalls G → Bytes → KvmBackend → G → G
unfolding is_empty
bind_sdk os sdk_subpath b g =
    let (g', r) = os.bind sdk_subpath (codes "rw") g in
    if not (is_empty sdk_subpath) && is_some b.runtime.helper then g' else g

-- InstallSdk.
unfoldable pub install_sdk :
    {G : Type 0}
    → GuestCalls G
    → (KvmBackend → KvmBackend)
    → Bytes
    → Bytes
    → KvmBackend
    → G
    → KvmBackend × G
unfolding queue_sdk bind_sdk run_pending_sdk_install
install_sdk os meanwhile sdk_subpath version b g =
    let b' = queue_sdk sdk_subpath version b in
    let g' = bind_sdk os sdk_subpath b g in
    if has_guest os b g' then run_pending_sdk_install os meanwhile b' g' else (b', g')

-- The request whose pending installation this is.
abbrev pub sdk_of : Bytes → Bytes → ℕ → PendingSdkInstall
sdk_of sdk_subpath version serial = record {
  sdk_subpath = sdk_subpath;
  version = version;
  serial = serial;
}

run_sdk-some :
    {G : Type 0} (os : GuestCalls G) (meanwhile : KvmBackend → KvmBackend) (b : KvmBackend) (g : G)
    (sent : PendingSdkInstall)
    → has_guest os b g ≡ true
    → run_sdk os meanwhile (some sent) b g
      ≡ note_installed sent (os.forward (codes "installSdk") (forward_params sent) g) (meanwhile b)
unfolding run_sdk
run_sdk-some os meanwhile b g sent guest = rw guest

run_pending_lem :
    {G : Type 0} (os : GuestCalls G) (meanwhile : KvmBackend → KvmBackend) (b : KvmBackend) (g : G)
    (sent : PendingSdkInstall)
    → b.pending_sdk_install ≡ some sent
    → has_guest os b g ≡ true
    → run_pending_sdk_install os meanwhile b g
      ≡ note_installed sent (os.forward (codes "installSdk") (forward_params sent) g) (meanwhile b)
unfolding run_pending_sdk_install
run_pending_lem os meanwhile b g sent p guest =
    ap (λ o. run_sdk os meanwhile o b g) p ∙ run_sdk-some os meanwhile b g sent guest

-- What is pending once a reply to the pending installation is there.
abbrev Noted : {G : Type 0} → PendingSdkInstall → Replied G Json → KvmBackend × G → Type 0
Noted sdk (h, reply) (b, g) =
    (g ≡ h)
    × ((v : Json) → reply ≡ ok v → b.pending_sdk_install ≡ none)
    × ((e : Bytes) → reply ≡ err e → b.pending_sdk_install ≡ some sdk)

note_installed_newer :
    {G : Type 0} (sent wanted : PendingSdkInstall) (reply : Replied G Json) (b : KvmBackend)
    → b.pending_sdk_install ≡ some wanted
    → wanted.serial ≢ sent.serial
    → (note_installed sent reply b).0.pending_sdk_install ≡ some wanted
unfolding note_installed clear_pending
note_installed_newer sent wanted (h, ok v) b p other = ground (arith, p, other)
note_installed_newer sent wanted (h, err e) b p other = p

-- A pending installation is given up only for the one that the guest has acknowledged: when another
-- request has replaced it while the guest installed, that one stays pending.
pub dropped_only_when_installed :
    {G : Type 0} (os : GuestCalls G) (meanwhile : KvmBackend → KvmBackend) (b : KvmBackend) (g : G)
    (sent wanted : PendingSdkInstall)
    → b.pending_sdk_install ≡ some sent
    → (meanwhile b).pending_sdk_install ≡ some wanted
    → has_guest os b g ≡ true
    → wanted.serial ≢ sent.serial
    → (run_pending_sdk_install os meanwhile b g).0.pending_sdk_install ≡ some wanted
dropped_only_when_installed os meanwhile b g sent wanted p q guest other =
    let reply = os.forward (codes "installSdk") (forward_params sent) g in
    rw (run_pending_lem os meanwhile b g sent p guest)
      (note_installed_newer sent wanted reply (meanwhile b) q other)
