-- ===== src/Lib.antt =====
-- The migration controller of the Nutanix VM migration operator, with its hook runner and transfer
-- manager, the builder of the target VMs, the validation of plans, and the requests of the Nutanix
-- client. The controller takes a Migration (a plan and a status for each VM) through the phases of
-- a cold or a warm migration: each reconcile resolves the plan's references, starts VMs up to
-- MaxInFlight, runs phase handlers until each VM waits, fails or is complete, and writes the status
-- back.
--
-- Files, with the code that each models:
--   Api         the types of api/v1alpha1 and internal/nutanix/types.go, as far as they are read
--   Target      the VirtualMachine that internal/builder/vm.go fills in
--   Outside     the interface NutanixClient (internal/nutanix/client.go), the Kubernetes API and the
--               clock: calls, and their answers `Env`
--   Session     how a phase handler runs: `Exec` is Go code that changes the VM's status, makes calls
--               and may return a PhaseResult early. Session/Keeps has the frame rules, Session/Makes
--               the actions whose calls do not depend on the answers
--   Transfer    internal/transfer (manager.go, datavolume.go, delta.go); Script is the
--               shell script of the delta Pod, Objects are the Kubernetes objects that are built
--   Context     migrationContext, shortID, filterDataDisks, getDiskUUID and getDiskSize of
--               internal/controller/migration_controller.go
--   Builder     internal/builder: Sanitize is sanitize.go, Machine is vm.go
--   Phases      the handlers: Power (phaseStorePowerState, phasePowerOff, phaseWaitForPowerOff), Disks
--               (phaseCreateSnapshot, phaseExportDisks), Volumes (phaseImportDisks, createDataVolumes,
--               pollDataVolumes), Kubevirt (phaseCreateVM, phaseStartVM), Cleanup (phaseCleanup,
--               cleanupFailedVM), Delta (runDeltaRound, checkDeltaPod, finalizePrecopyRound,
--               finalizeFinalSync), Warm (phaseBulkCopy, phaseWaitBulkCopy, phasePrecopy,
--               phaseFinalSync), Hooks (internal/controller/hook_runner.go). Frame has the frame
--               lemma of each handler
--   Pipeline    phaseOrder, warmPhaseOrder, nextPhaseInOrder and the tests on phases
--   Controller  Advance (executePhase, advanceSingleVM), Sweep (initializeVMStatuses,
--               processCancellations, advanceVMs), Status (updateOverallStatus, setMigrationFailed,
--               handleDeletion), Reconcile (Reconcile, resolveMigrationContext)
--   Validation  internal/validation/validator.go: the rules on the source; Validation/Target those on
--               the target cluster, and Validate
--   Plans       internal/controller/plan_controller.go
--   Providers   internal/controller/provider_controller.go
--   HttpClient  internal/nutanix: doRequest and doJSON of client.go. Config is NewClient, Tasks is
--               tasks.go, Codec the data of types.go and the bodies, Operations vm.go, snapshot.go and
--               image.go, Lists the lists by pages and storage.go, Cbt is cbt.go
--   Kubectl     cmd/kubectl-vma/main.go: what the commands do; Print is what they print
--   Mock        pkg/mock: the store; Range is parseRangeHeader, Handlers and Objects are the handlers,
--               Cbt is handlers_cbt.go, Server is server.go: its routes, its fixtures, and the server
--               as a transport of the client (its children are on the client against the server)
--   Tests       a concrete outside and plan, and each result applied to them
--   Prelude     shared names, numbers, lists, and Go's int64
--
-- State. A `Session` is the VM's status and the history of calls, the newest first. `Env` is a
-- parameter: each answer is any function of the calls made before, so that an answer may change
-- from call to call. Below the interface NutanixClient, `Io` is an operation of the HTTP client:
-- it takes the requests and waits made before and gives its result with those made after it. Its
-- `Transport` answers requests and tells the time, and its `Codec` is encoding/json; both are
-- parameters. The controller's `Env` is not derived from them. Nothing is assumed of it but where
-- a theorem says so. Reconcile passes the list of statuses and the history on, and gives the
-- Migration that is stored afterwards: a failed write leaves the old one.
--
-- Numbers. An int64 is its bit pattern below 2 ^ 64, and its sums wrap. Times are nanoseconds. The
-- counters that only this code writes, from 0 on (rounds, disk index, attempts), are natural
-- numbers.
--
-- Fuel. The loop of advanceSingleVM and the loop over the pages of changed regions run on fuel;
-- running out is a result of its own (`spinning`, `paging`, `diverged`), so that it is never taken
-- for an answer. For the first, one more than the phases that remain is enough; for the second,
-- one more than the distance to the limit of the offsets. A task is polled on fuel too, and one
-- round for each nanosecond of the timeout is enough where each takes time; a list by pages needs
-- one round more than it has full pages. The loop of SanitizeName over suffixes has fuel too.
--
-- Texts. A phase or a power state other than the constants is one constructor. Event messages, log
-- lines, the byte and duration metrics, and the byte contents of Kubernetes objects are left out;
-- an object is what it is built from. The guards on the number of images before the export and the
-- import loops skip loops that would do nothing, and are not written out where that is so.
--
-- URLs and clocks. A URL is a text: fragments, escapes and the cleaning of paths by net/http are not
-- modelled, so that results of the client against the server ask for UUIDs of letters, digits and
-- hyphens, which stand for themselves. The value of a cookie loses the bytes that net/http does not
-- allow. The clock of a `Transport` may depend on all that happened; what a result needs of it (that
-- waits last, or that no event takes much longer than it waits) is a hypothesis of that result.
--
-- Not modelled: flags and the set-up of the processes (cmd/main.go, the clients of cmd/kubectl-vma),
-- TLS (internal/nutanix/auth.go), the start and end of the HTTP server of pkg/mock, the
-- generated deep copies, the declarations of metrics and the helpers of the end-to-end tests: they
-- have no logic of their own. In the history of calls a DataVolume and a delta Pod are held by the
-- options that BuildDataVolume and BuildDeltaPod copy into them (Transfer.Objects).
pub mod Prelude
pub mod Api
pub mod Target
pub mod Outside
pub mod Session
pub mod Transfer
pub mod Context
pub mod Builder
pub mod Validation
pub mod Phases
pub mod Pipeline
pub mod Controller
pub mod Plans
pub mod Providers
pub mod HttpClient
pub mod Kubectl
pub mod Mock
pub mod Tests
