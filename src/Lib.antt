-- ===== src/Lib.antt =====
-- Verification library of claude-cowork-service, the daemon that serves Claude Desktop's "cowork"
-- sessions over a Unix socket, either with a virtual machine (vm/) or on the host itself (native/).
--
-- How the parts interact. pipe/server.go accepts connections and hands each length-prefixed JSON
-- request to pipe/handlers.go, which decodes the parameters and calls a backend through the
-- interface VMBackend. The native backend runs the commands itself: native/workspace.go picks a
-- working directory with the help of transcript/transcript.go, native/process.go tracks the
-- processes, native/diskmgmt.go cleans up. The KVM backend of vm/backend.go finds a bundle, converts
-- its images (vm/qemu.go, vm/uefi.go), starts a mount helper (vm/vfs.go on its own side of a pipe,
-- vm/helper.go on the other), starts QEMU, and forwards the calls to a guest daemon through the
-- channel of vm/bridge.go.
--
-- Files and the code they model:
--   Base        byte strings, lists, maps and results that the other files share;
--   Decimal     strconv.FormatUint;
--   FilePath    path/filepath on Unix: Clean, IsAbs, Join, Base, Dir;
--   Json        JSON values, and how json.Unmarshal fills the structs of pipe/handlers.go;
--   Wire        ReadMessage and WriteMessage of pipe/protocol.go, readFramed of vm/bridge.go;
--   Rpc         pipe/handlers.go and the connection loop of pipe/server.go, over any backend
--               (Rpc/Backend is the interface VMBackend): Params, Message, Handlers, Dispatch, Serve;
--   Guest       vm/bridge.go: Message parses a message of the guest, Bridge holds the pending
--               requests; Bridge/Steps is the step relation of its goroutines;
--   Transcript  transcript/transcript.go: slugs, resume ids, and in Copy the atomic copy;
--   Native      Paths, Cowork, Auth, Backups and State model functions of native/backend.go,
--               Workspace native/workspace.go, Sessions and Disk native/diskmgmt.go, Signals the
--               kill of native/process.go;
--   Vm          Paths vm/paths.go, Helper vm/helper.go, Vfs vm/vfs.go (Vfs/Remote puts both its ends
--               together), Bundles and Images the bundle search and the disk images of vm/backend.go,
--               vm/qemu.go and vm/uefi.go, Artifacts vm/native_artifacts.go, Preflight
--               vm/preflight.go, Qemu the QEMU process of vm/qemu.go, Qmp vm/qmp.go, Backend the rest
--               of vm/backend.go: Prepare and Start are StartVM, Boot both together, Leaks what is left
--               open, Watchdog, Cid, Processes, and Forward the calls that go to the guest.
-- A function keeps the source's name in snake case; the loops and branches inside it that need a
-- name of their own stand beside it. The theorems on a part are in its child modules, the tests and
-- concrete instances in modules called Examples or Tests.
--
-- Conventions. A string or []byte is a list of bytes. A map is an association list, whose order
-- stands for the order in which Go's range visits it. A shared object is a state that the functions
-- pass on; an error is its text. What the operating system, encoding/json or a backend answers is an
-- argument: a record of functions or of outcomes (Host, Lookup, CopyCalls, DiskCalls, GuestText,
-- VmBackend, MountCalls, ImageCalls, OpenCalls, GuestCalls and others). A send on a closed channel, or
-- a second close, is none. What is done to a process is a list of acts. Log lines are left out. In
-- Vm/Backend the parts of a running VM are known by handles; StartVM is split into steps, one for each
-- part that it opens without the lock, and other calls come between them (Vm/Backend/Leaks/Steps).
-- A clean-up without the lock is one step with the call that has taken the runtime.
-- Where the stop channel of the watchdog and its ticker are both ready, the stop is taken. The
-- executable of a stale process does not change while it is waited for.
--
-- Bounds and fuel. Lengths in the prefix are 32 bits, and a message has at most 10 MB. The connection
-- loop has fuel for one round per byte received, which is enough since each round reads a prefix or
-- ends the loop. The loop that collapses repeated prefixes has a round per byte of the path, and each
-- round shortens it. The walk of canonicalizePath up the ancestors has two rounds more than the path
-- has bytes; a parent is shorter than its path, but for the last step to "." or "/". The watchdog runs
-- for a number of ticks, and the wait for a stale QEMU for the 50 rounds of the source. Request ids
-- wrap at 2^64, CIDs at 2^32.
--
-- Not modelled: the spawning of processes and their output in native/process.go and
-- native/backend.go, probe/, process/, logx/ and main.go; the session doctor, packaging and scripts.
-- Of pipe/, the listener and the delivery of events to subscribers are left out, of vm/bridge.go the
-- vsock system calls, of vm/helper.go the virtiofsd process and the poll for its socket, of
-- vm/backend.go the subscribers and the prober. The overflow of an age in seconds that is turned into a
-- duration is left out, and in the events of the guest that are decoded into maps, the error of a number
-- out of the range of a float64.
pub mod Base
pub mod Decimal
pub mod FilePath
pub mod Wire
pub mod Json
pub mod Transcript
pub mod Guest
pub mod Rpc
pub mod Native
pub mod Vm
