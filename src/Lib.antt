-- ===== src/Lib.antt =====
-- A model of vpp-lab, a virtual power plant: devices publish telemetry over MQTT, the server keeps their
-- state, plans a day ahead and sends commands to batteries and loads.
--
-- The parts, and the files that model them:
--
-- * internal/model/model.go is Model.antt: the data that the parts exchange.
-- * internal/topic/topic.go is Topic.antt, with Topic/RoundTrip.antt on printing and parsing.
-- * internal/state/state.go is State.antt: Store is the struct, one function for each method. Summary and
--   DeviceStates are State/Summary.antt and State/Runtime.antt. State/Lookup.antt is about devices,
--   State/Recent.antt about the recent commands and events, State/Restart.antt about the Redis copy.
-- * internal/scheduler/scheduler.go is Scheduler.antt: `tick` is Tick, `publish` is publish, `run_loop` is
--   Run. It reads the store (State) and calls the commander, which is a parameter. Its theorems are in
--   Scheduler/Rules.antt and Scheduler/Cooldown.antt; Scheduler/Published.antt has the calls that one
--   publish adds, and Scheduler/Keeps.antt carries a predicate that each publish keeps through the loop.
-- * internal/optimizer/plan.go is Optimizer.antt (configuration), Optimizer/Forecast.antt and
--   Optimizer/Plan.antt; the theorems are in Optimizer/Validated, Prices, Soc and Slots, with the
--   arithmetic of minutes in Optimizer/Minutes.antt.
-- * internal/dispatch/preview.go is Dispatch.antt: it takes the optimizer's plan and proposes the command of
--   the active slot. Dispatch/Outcome.antt is about the preview, Dispatch/Modes.antt about modes and devices.
-- * internal/deviceauth/auth.go is DeviceAuth.antt, with DeviceAuth/Signing.antt: the signatures of the
--   payloads that devices publish; DeviceAuth/Parse.antt has the keys.
-- * internal/edge/cache.go and the capturing, flushing and cleaning of cmd/edge-gateway/main.go are
--   Edge.antt: the SQL table is a list of rows. Edge/Rows.antt is about their ids, Edge/Forwarding.antt
--   about one flush, Edge/Delivery.antt about any run of the gateway. Edge/Local.antt and
--   Edge/Commands.antt are its HTTP interface, with Edge/Counted.antt on local commands.
-- * internal/config/config.go is Config.antt, and cmd/vpp-lab/main.go is Startup.antt, which puts the parts
--   together: Startup/Started.antt is about the server that it starts, Startup/Succeeds.antt about when.
-- * internal/timeseries/influx.go is Timeseries.antt: the point that a telemetry becomes.
-- * internal/mqtt/client.go is Mqtt.antt: `handle_message` and `publish_command` on a Client, which has the
--   store, the time series and, behind the interface CommandRecorder, a database. Mqtt/Gate.antt and
--   Mqtt/Own.antt are about what a message may change, Mqtt/Publish.antt about commands and their
--   acknowledgements. internal/mqtt/tls.go is Mqtt/Tls.antt.
-- * internal/repository is Repository.antt: a table is a list of rows, ON CONFLICT is `upsert_row`, and
--   `recorder` is the repository as the client's CommandRecorder. Repository/Queries.antt has the queries.
--   Repository/Keys.antt and Repository/Tables.antt are about the keys of rows and the statements,
--   Repository/Commands.antt about the order of a command and its acknowledgement,
--   Repository/Lists.antt about queries and about what is kept.
-- * internal/metrics/prometheus.go is Metrics.antt, with Metrics/Labels.antt and Metrics/Counts.antt.
-- * internal/api/server.go is Api.antt (requests, the server, the token), Api/Control.antt (the handlers
--   that change something), Api/Handlers.antt (the others, and `handle` over all routes) and
--   Api/Audit.antt (`serve`, with the audit log). Its publisher is the Client of Mqtt. What a request may
--   change is Api/Effects.antt; Api/Authorized.antt and Api/Audited.antt have the theorems.
-- * cmd/simulator/main.go is Simulator.antt: the device's side of commands, and the simulated battery, with
--   Simulator/Commands, Battery and Warnings on commands, on the state of charge and on its events.
-- * Prelude.antt has what they share; Examples.antt has a small site to which the theorems are applied.
--
-- How the code is read. Each method that takes a lock is one step. float64 is a parameter: a type R with
-- the operations of Prelude/Float.antt, and where a theorem needs them the laws of FloatLaws, which hold
-- for IEEE 754 with NaN. A time is an integer of nanoseconds, a duration an integer; int and int64 wrap
-- around where the code multiplies, written out with `int64`. Addition of a duration to a time does not
-- wrap. A Go map is an association list with one entry for each key, visited in its order. The clock,
-- encoding/json and what is on the network are parameters. There is no fuel: every loop is over a list or
-- a number of turns.
--
-- A method that reads the clock, or has the database read it, gets its readings as a function: `clock n` is
-- reading n. A query or statement that fails is `none`, and leaves the tables as they were; that the server
-- fails one is its field `reachable`. A panic of a handler is a missing response.
--
-- Not modelled: the libraries for HTTP, TLS, MQTT, SQL, Redis and InfluxDB other than as stated; the
-- connection to the broker, which is taken to be made once the files of TLS load; that PostgreSQL refuses a
-- NUL in a TEXT column; logging, the reading of settings by the other programs, firmware and deployment,
-- which are I/O or glue; and goroutines, of which the parts that are modelled see whole steps.
pub mod Prelude
pub mod Model
pub mod Topic
pub mod State
pub mod Scheduler
pub mod Optimizer
pub mod DeviceAuth
pub mod Dispatch
pub mod Edge
pub mod Timeseries
pub mod Mqtt
pub mod Repository
pub mod Metrics
pub mod Api
pub mod Config
pub mod Startup
pub mod Simulator
pub mod Examples
