-- ===== src/Lib.antt =====
-- A model of the control plane of pi-container: the platform that starts agent Workspaces as containers
-- on Workers, and lets users reach them through a gateway.
--
-- The parts and the files that model them (paths from the repository's root):
--   * Database: the Workspace repositories of packages/database/src on one database state. Records and
--     Tables have the rows, the statements (`update ... where`, `delete ... where`) and the triggers of
--     packages/database/migrations that they fire. Lifecycle is workspace-lifecycle.ts, RuntimeChanges
--     is runtime-changes.ts, Recovery is recovery.ts, Idle is idle.ts, Scheduling is scheduling.ts,
--     WorkerEgress the Worker's report in egress.ts, and Workspaces is workspaces.ts. Requests has the
--     methods as one step function, and Coherence the state machine that they implement, written
--     apart from the code. Users is users.ts and ModelKeys model-keys.ts, each with a step function of
--     its own, and Workers the part of workers.ts that is not a Worker's report. Row follows one
--     Workspace row through the statements.
--   * WorkerRevocation: apps/control-plane/src/worker-revocation.ts, which closes what is still open to a
--     Worker that was disabled in Database/Workers, in WorkerChannel and in SessionConnections.
--   * RuntimeCommands: the outcome of a command in apps/control-plane/src/runtime-commands.ts.
--   * WorkspaceRoutes: the handlers of apps/control-plane/src/routes/workspaces.ts that stop and delete a
--     Workspace: the transactions of Database with a command of RuntimeCommands in between.
--   * ModelKeyManager: ensureWorkspaceKey and reconcileWorker of
--     apps/control-plane/src/model-gateway/key-manager.ts, on the key transactions of Database/ModelKeys.
--   * Reconciliation: reconcileWorkerWorkspaces of apps/control-plane/src/runtime-commands.ts, which settles
--     the Workspaces of a Worker that connects through the transactions of Database/Recovery.
--   * IdleStopper: apps/control-plane/src/idle/idle-stopper.ts, the sweep that stops idle Workspaces. It
--     asks SessionConnections, AccessTracker and ComputeActivity, and begins a stop in Database.
--   * ComputeActivity: apps/control-plane/src/idle/compute-activity.ts, the CPU activity of Workspaces.
--   * Gateway: packages/gateway/src/index.ts, the headers, cookies and host names of the gateway.
--   * LoginGuard: apps/control-plane/src/login-guard.ts, the client address and the counters of a login,
--     which Throttle keeps.
--   * Scheduler: apps/control-plane/src/scheduler.ts, the selector that Scheduling calls as a parameter.
--   * Throttle: packages/database/src/auth-throttle.ts, the counters that slow down password guessing.
--   * Egress: packages/protocol/src/egress.ts (Text reads addresses, the root module merges, splits and
--     compares intervals); Egress/Rules is apps/control-plane/src/egress.ts, and Egress/Rules/Store
--     the transactions of packages/database/src/egress.ts, which call the validation as a parameter.
--   * WorkerChannel: apps/control-plane/src/worker-channel.ts, the commands that wait for a response.
--   * SessionExchange: apps/control-plane/src/session-exchange.ts, one-time codes.
--   * SessionConnections: apps/control-plane/src/session-connections.ts, the open connections.
--   * AccessTracker: apps/control-plane/src/idle/access-tracker.ts, the last access to each Workspace.
--   * Prelude: Boolean tests, lists, tables, sorting and texts that these share.
-- The operations keep the source's names in lower case with underscores.
--
-- How the code is modelled. A transaction is one step, since the code runs it under row locks or an
-- advisory lock (the issue of a model key takes shared locks only, so its insert may come to a
-- database other than the one its first queries saw); an interleaving of requests is a sequence of such steps with arbitrary arguments. An
-- exception that rolls a transaction back is `none`. UUIDs, Worker IDs, image references, hashes and
-- addresses that the code only compares are numbers, and times are milliseconds; the clock and random
-- UUIDs are arguments. A column that may be NULL is an option, and SQL comparisons with NULL are false.
-- Numbers are exact: IPv4 addresses stay below 2 ^ 53, so the source's arithmetic does not round.
-- The only loop on fuel is that of `interval_to_cidrs`, whose fuel is the number of addresses; each
-- round takes one at least.
--
-- A CPU average is compared without rounding, where the source divides floating-point numbers. Time
-- that passes inside a handler is a parameter: what other requests do between its transactions.
--
-- Not modelled: the web interface, configuration, logging and metrics, external sign-in, the Worker's
-- container runtime (I/O and third-party libraries), the other routes, starting Workspaces, the
-- maintenance passes of the manager of model keys, the reports of Workers and the routing of the gateway.
-- Parameters stand for what a library reads: IP addresses and networks, URLs, the schema of Workspace
-- IDs, the keyed hash, and the order and the constraints of PostgreSQL's networks.
pub mod Prelude
pub mod AccessTracker
pub mod ComputeActivity
pub mod Database
pub mod Egress
pub mod Gateway
pub mod IdleStopper
pub mod LoginGuard
pub mod ModelKeyManager
pub mod Reconciliation
pub mod RuntimeCommands
pub mod Scheduler
pub mod SessionConnections
pub mod SessionExchange
pub mod Throttle
pub mod WorkerChannel
pub mod WorkerRevocation
pub mod WorkspaceRoutes
