-- ===== src/Lib.antt =====
-- A model of the CastleOps client, an agent that collects a machine's metrics, caches them, uploads
-- them to a server, reports to it by heartbeats, and executes the commands that it sends.
--
-- How the parts interact. The configuration (Config) names the server and holds the credentials.
-- The API client (Api.Client, Api.Http, Api.Methods) sends requests with retries; the registration
-- services (Agent.Registration, Api.Registration) obtain credentials through it and write them into
-- the configuration and the client. The heartbeat service (Agent.Heartbeat) and the agent's tasks
-- (Agent.Tasks) call it on their tickers. Metrics and commands wait in the cache (Cache), which the
-- offline queue (Api.Queue), the command handler (Api.Commands) and the agent's tasks share behind
-- one interface (Cache.Interface). The moving average (Metrics.Average) smooths the collected
-- metrics; the monitors of the network and the disks (Metrics.Network, Metrics.Disk) stand by
-- themselves. The metrics system (Metrics.System) runs the collectors and hands each cycle's
-- metrics to the agent's callback, which stores them. The agent (Agent.Orchestrator) makes, starts
-- and stops all these parts. The executors of package commands (Packages.Executors) are registered
-- with the command handler and call the installer (Packages), which chooses a manager, Homebrew or
-- Chocolatey, that runs the operating system's programs. The command line (Main) installs the
-- program as a service (Service) or runs the agent as its worker.
--
-- Which file models which code:
--   Prelude, Prelude/*     Go's errors, maps, slices and integers, and lemmas on them
--   Cache/Types            internal/cache/cache.go: Command, Metrics, the status constants
--   Cache/Memory, Sort     internal/cache/memory.go: MemoryCache, its methods, its exchange sort
--   Cache/Interface        internal/cache/cache.go: the interface Cache, filled by MemoryCache
--   Cache/Factory          internal/cache/factory.go
--   Cache/Statements       internal/cache/sqlite.go: the schema and the statements
--   Cache/Sqlite           internal/cache/sqlite.go: SQLiteCache, and internal/cache/batch.go
--   Api/Models             internal/api/models.go
--   Api/Client             internal/api/client.go: NewClient, the credentials, which errors are retried
--   Api/Http               internal/api/client.go: executeRequest, doRequest
--   Api/Methods            internal/api/client.go: Register, Heartbeat, UploadMetrics and the others
--   Api/Queue, Batches     internal/api/queue.go: RequestQueue
--   Api/Priority           internal/api/queue.go: PriorityQueue
--   Api/Commands, Pool     internal/api/commands.go: CommandHandler, its worker pool, and the helpers
--                          that make executors (Commands/Payloads)
--   Api/Registration       internal/api/registration.go
--   Config                 internal/config/config.go and defaults.go
--   Agent/Heartbeat        internal/agent/heartbeat.go
--   Agent/Registration     internal/agent/registration.go
--   Agent/Tasks            internal/agent/agent.go: uploadMetrics, pollCommands
--   Agent/Orchestrator     internal/agent/agent.go: NewAgent, Start, Stop, Stats
--   Metrics/Buffer         internal/metrics/collector.go: Config, metricsBuffer
--   Metrics/Collectors     internal/metrics/cpu.go, memory.go, disk.go, network.go: the collectors
--   Metrics/System         internal/metrics/system.go
--   Metrics/Average        internal/metrics/collector.go: movingAverage
--   Metrics/Network        internal/metrics/network.go: NetworkRateMonitor
--   Metrics/Disk           internal/metrics/disk.go: GetDiskIO, DiskIOMonitor
--   Packages               internal/packagemgr/manager.go, registry.go and installer.go
--   Packages/Queries       internal/packagemgr/registry.go and installer.go: what only asks
--   Packages/Shell, Texts  internal/packagemgr/homebrew.go and chocolatey.go: executeCommand, texts
--   Packages/Listing       the same files: parsePackageList
--   Packages/Chocolatey    internal/packagemgr/chocolatey.go
--   Packages/Homebrew      internal/packagemgr/homebrew.go
--   Packages/Executors     internal/packagemgr/executor.go
--   Service, Platform      internal/service/service.go
--   Service/Darwin         internal/service/service_darwin.go
--   Service/Windows        internal/service/service_windows.go: windowsService
--   Service/Handler        internal/service/service_windows.go: serviceHandler
--   Main                   cmd/castleops-client/main.go
--   Examples/*             concrete inputs for the theorems, and tests
-- A child of a module models a part of the same code or proves what its name says; functions keep
-- their names, in snake_case.
--
-- How it is modelled. A method takes its receiver's state and returns it changed; an error is a
-- value (Prelude.Results), where `wrapped` is fmt.Errorf with %w, so that a type assertion sees the
-- outer constructor only. What lies outside the program is an argument: the network with the waits
-- between attempts is `Net`, a state that each send and wait moves on; JSON is `Codecs` and
-- `Texts`; the clock is a time that the caller passes; the order in which Go walks a map is a
-- function `range`; the executors of commands, viper's reading of the files, and the operating
-- system's paths and names are arguments as well. So are gopsutil's readings (`Machine`), the
-- programs of the operating system (`Shell`), the JSON of payloads (`Payloads`), the SQL driver
-- (`Engine`), and the services' files, launchctl (`Mac`) and service manager (`Scm`). Nothing is
-- assumed of them beyond the hypotheses of a theorem; for the driver these are the record
-- `IsRelational`: a statement does what Cache/Statements says or fails and changes nothing, a
-- transaction starts from the tables, and only a commit that succeeds publishes it. Where
-- goroutines share the worker pool, Api.Pool is a step relation, and the theorems hold for every
-- order of steps. A method that takes a lock for its whole body is one step.
--
-- Integers. Counters of 64 bits wrap around as in the code (the cache's numbering, the count of
-- failures, the seconds of an interval), a signed one as the bits that it has; the lengths of slices do not. A time is the nanoseconds
-- since Go's zero time, cut off at it. A float that is only carried along is its bit pattern; the
-- moving average and the collectors take their arithmetic as a parameter.
--
-- Loops. The loops over attempts count down from the number of rounds that their conditions allow
-- (MaxRetries + 1, RetryAttempts + 1, 5 and 4), and the batches take the number of entries as fuel,
-- which is enough for a batch size that is positive. The loops that wait for a service of Windows
-- have the 62 rounds that their deadline of 30 seconds leaves when each round sleeps half a second.
-- For the size 0 the loop in the code would not end; the queue's is the constant 100, and the
-- validation of the configuration excludes 0.
--
-- Starting and stopping. A goroutine that a Start begins is counted, and it ends when its channel
-- is closed; closing a channel twice is a panic, and so is a ticker whose period is not positive,
-- where the loop is begun: `none` or `panicked`. The agent's
-- shutdown is a list of steps, of which its timeout may cut off the end.
--
-- Not modelled: the ticker loops of the agent's workers and of the caches, which call the modelled
-- operations; the queries of the metrics package that hand gopsutil's data on; the closing of the
-- SQLite cache, its connection pool and its indexes; the codes and details of package errors, and
-- durations; the command line's foreground mode with its signals, and the calls that hand the
-- worker to the operating system's service manager; TLS and the transport; logging; and the length
-- of a backoff, which is computed in floats and only handed to a timer.
pub mod Prelude
pub mod Cache
pub mod Api
pub mod Config
pub mod Agent
pub mod Metrics
pub mod Packages
pub mod Service
pub mod Main
pub mod Examples
