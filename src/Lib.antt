-- ===== src/Lib.antt =====
-- route-sync keeps the routes and policy rules of a Linux machine in step with lists of prefixes.
-- For each group of its configuration it fetches a list (RIPE's resources of a country, or a text
-- file), normalises it, checks the gateways, and compares the routes and rules that the group wants
-- with those of its routing table; the difference is a plan, which it applies to the kernel.
--
-- How the parts interact: App.Run (reconcileOnce, cleanupOwned, runDaemon of internal/app/app.go)
-- calls App.Plan (BuildPlan), which reads the machine through the interfaces of App.World, calls
-- Source.Normalize, State, App.Candidates with Health, Reconcile.Routes and Reconcile.Rules, and
-- hands the collected inputs to Planner. The plan goes back to Reconcile, which changes the kernel.
--
--   Base          shared types and lemmas: Go's errors (Base.Result), 64-bit integers (Base.Int),
--                 maps whose order of iteration is open (Base.Maps), texts (Base.Text)
--   Netip         the types of Go's net/netip that the program computes with
--   Source        internal/source/source.go (Source.Sorting, Source.Normalize) and
--                 internal/source/aggregate.go (Source.Aggregate); Source.Parsers is Parse, and
--                 Source.Fetch Fetch and open, of internal/source/txt/txt.go and
--                 internal/source/ripe/ripe.go
--   Rtnl          internal/rtnl/types.go: Route, Rule, Kernel; Rtnl.Netlink is
--                 internal/rtnl/netlink_linux.go over the calls of the netlink library, and
--                 Rtnl.Unsupported is internal/rtnl/netlink_unsupported.go
--   Config        internal/config/config.go; Config.Validate is Validate and what it calls,
--                 Config.File the file of Load
--   Metrics       internal/metrics/metrics.go: the registry and the text of Handler; Metrics.Server
--                 is the server of Serve
--   Health        internal/health/health.go: Select and evaluateCandidate; Health.Ping is ExecPinger
--   Planner       internal/planner/planner.go: Build and all that it calls; Planner.Show is
--                 Plan.String
--   Reconcile     internal/reconcile/routes/routes.go and internal/reconcile/rules/rules.go;
--                 Reconcile.Routes.Table has the routing table as a list that the calls change, and
--                 Reconcile.Rules.Table the rules
--   State         internal/state/state.go
--   App           internal/app/app.go: App.Candidates (gateways), App.Locals (exclusions), App.Plan
--                 (BuildPlan, BuildCleanupPlan), App.Run (reconciliation, cleanup and the
--                 daemon; App.Run.Turns has the daemon as steps), App.Flags (parseFlags), App.Main
--                 (Run, and main of cmd/route-sync/main.go); App.Tables is the machine of the
--                 theorems that see the kernel as lists of routes and rules
--   Signals       internal/signals/signals.go
--   Logging       internal/logging/logging.go
--   Tests         runs on a small machine
--
-- State. A method with effects takes the state of its world and returns the new one beside its
-- result. The kernel (Rtnl.Kernel), the Pinger and the link table (Health.Probe), the file system and
-- JSON (State.Files), the fetches, the interfaces of the machine and the configuration file
-- (App.World.World) are records of operations over a state that the model leaves open; the theorems
-- hold for all of them, and a law that a theorem needs is a hypothesis of it. The daemon's state is
-- its active configuration, the machine with the metrics registry, and whether it has returned
-- (App.Run.DaemonState); ticks and signals are a list of events in the order in which `select` takes
-- them. App.Run.Turns has the same daemon as a step relation: signals and ticks arrive in their
-- channels at any time, a full channel drops them, and `select` takes any that is ready.
--
-- Numbers. A Go int is an integer (Base.Int.ℤ); where the program adds or multiplies values of the
-- configuration (base + step * 1000 of the rules), the 64-bit wrap-around is written out. Counts and
-- the bits of addresses are natural numbers, and so are the counters of the metrics, which Go holds as
-- float64, exact up to 2^53.
--
-- Fuel. The loop of Aggregate runs on fuel: one more than the prefixes it starts with. Every round
-- but the last shortens the list, so that this is enough.
--
-- The routing table. What a kernel does to its table is a hypothesis of the theorems that need it
-- (IsTable in Reconcile.Routes.Table): a route is added, without its group and its device's name, which
-- no kernel holds, unless its table, metric and destination are taken, since the program ignores
-- EEXIST, and a route is deleted by all that its key holds. The law is only about routes that the
-- kernel takes as they are given; which ones these are is part of it, and the theorems assume that the
-- routes in play are among them. The same of the rules is IsRuleTable in Reconcile.Rules.Table, where a
-- rule is taken if its key is there. IsMachine in App.Tables puts them together: in addition a listing
-- returns what is in the lists, and all other calls leave the lists alone. Reconcile.Kernel derives
-- both laws for the NetlinkKernel of internal/rtnl/netlink_linux.go from laws of the netlink library, and
-- App.Tables.Listing what IsMachine asks of its listings.
--
-- Not modelled: the syntax of addresses and prefixes (Netip.Text), YAML and JSON, HTTP, the netlink
-- library, the ping program, logs, the life of the metrics server, the syntax of flags, the time at
-- which tickers and signals come, and timeouts. Each of these enters as an operation or an event, or
-- only writes output. In App.World the
-- fetches and the pings of the daemon are operations of the machine; Source.Fetch and Health.Ping model
-- what stands behind them on their own.
pub mod Base
pub mod Netip
pub mod Source
pub mod Rtnl
pub mod Config
pub mod Metrics
pub mod Planner
pub mod Health
pub mod Reconcile
pub mod State
pub mod Signals
pub mod Logging
pub mod App
pub mod Tests
