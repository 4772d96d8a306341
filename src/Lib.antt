-- ===== src/Lib.antt =====
-- LocalCloud is an agent beside a local stack. Adapters capture what the services do as timeline
-- events; the agent's sink stores each event and publishes it on a bus; recordings group events to
-- scenarios; a replay sends a scenario's requests again; fault rules disturb chosen requests.
--
-- Base: tests on the native numbers, lists, integers, bytes and lists of reported errors.
-- Timeline: internal/timeline, the structs and enumerations (Models, Event), the values that
-- encoding/json decodes (Json), and `TimelineEvent.Validate` (`validate`).
-- Storage: internal/storage. `Db` holds the tables of the migrations of db.go as lists of rows in
-- rowid order. Each method of events.go and repositories.go is one function: `insert_event`,
-- `list_by_scenario`, `update_scenario_status`, `increment_hit_count` and so on. The argument `io`
-- is whether the driver runs the statement; an INSERT that violates a constraint of its table is
-- an error. A time reads back as whole milliseconds. Steps has the statements as a
-- step relation, Order what ORDER BY gives.
-- EventBus: internal/eventbus/bus.go. A handler acts on a world and may panic.
-- Agent: internal/agent/recording.go and the sink of internal/agent/agent.go: `emit`,
-- `start_recording`, `stop_recording`. Idle has the agents that a program reaches. Lifecycle has `New`,
-- `RegisterAdapter`, `Start` and `Stop` of agent.go, on the fields that these use; a shutdown of the
-- API may never return.
-- Redaction: internal/redaction/redaction.go.
-- Fault: internal/fault/matcher.go (Matcher) and internal/fault/engine.go (Engine). The engine
-- reads the rules from Storage and counts its hits there.
-- Replay: internal/replay/replay.go. Entry plans and sends one request, Replay runs a plan.
-- Config: internal/config/config.go. Models has the structs, Defaults `applyDefaults`, Checks
-- `Validate` and `validateService`, Samples `LoadFile` and the sample configurations.
-- YAML is not modelled: a `Config` is what was decoded.
-- Adapters: internal/adapters. Sink is `EventSink` of adapter.go, an interface that the agent
-- implements. Redis is redis/adapter.go: Parse has the lines of MONITOR, Monitor the events and the
-- loop of `readMonitor`. Postgres is postgres/adapter.go, the polls of the audit table, to
-- which triggers add rows between the polls. Each has a
-- module Lifecycle for `New`, `Start`, `Stop` and `Status`. Mailpit is mailpit/adapter.go, the
-- fetches and their cursor.
-- Export: internal/scenario/export.go, `Export` and the scan for secrets that were not redacted.
-- Proxy: internal/proxy/proxy.go, from the request to the event of its exchange.
-- Api: internal/api/handlers.go and server.go. Reply has what is written, Recordings and Rules the
-- handlers that write, Serve a sequence of requests, Reads the handlers that read, Stream the live
-- stream, and Origin the CORS middleware. They work on the tables of Storage.
-- Cli: internal/cli/cmd_fault.go (Faults), the requests of the command `fault` and its exit codes.
-- internal/cli/cmd_up.go (Up), the proxies and the adapters that `up` makes of the services, and
-- (Up/Run) the order in which it starts and stops them; what comes before the start of the agent, the
-- flags, the configuration file and docker, is outside.
--
-- Bounds and conventions. A string that is compared as a whole is a `String`, one whose bytes are
-- read is `Bytes`; letters are folded as in ASCII. A time is a number of nanoseconds from Go's zero
-- time. A Go int is an integer that does not wrap around, since the counts of the program stay far
-- below 2 ^ 63, except for the product of a fault's delay and the counter of the bus, which are taken
-- modulo 2 ^ 64. A Go map is the list of its entries in some order. The loop over a line of MONITOR is on
-- fuel, one unit for each byte, and every round reads two bytes at least. A mutex makes each
-- operation of the agent and of the bus one step. Generated ids and times are arguments.
--
-- Parameters. The JSON codec comes with its round trip as a law; time.ParseDuration, net.ParseIP, the
-- HTTP client with its context, url.Parse, SHA-256, the canonical names of headers, strconv and fmt
-- on numbers, and what subscribers, sinks and targets do are arguments of the definitions. What a
-- database, a socket or an API gives back in each round of a loop is an element of a list.
--
-- Not modelled: the listeners of the proxy and of the API, the opening and the migration of a
-- database file, the other commands, docker, random ids and the studio. They are calls of net/http,
-- database/sql and os/exec with little logic of their own, except the checks of `doctor`.
pub mod Base
pub mod Timeline
pub mod Redaction
pub mod EventBus
pub mod Storage
pub mod Adapters
pub mod Agent
pub mod Config
pub mod Replay
pub mod Fault
pub mod Export
pub mod Proxy
pub mod Api
pub mod Cli
pub mod Tests
