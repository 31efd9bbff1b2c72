-- ===== src/Lib.antt =====
-- multinode_controller: a coordinator daemon that keeps connected worker daemons, runs client
-- requests on them and records the tasks in SQLite. Clients and workers connect over WebSockets;
-- the coordinator sends tasks to workers, hears of their start, output and exit, stores that and
-- broadcasts it to the clients that wait.
--
-- * `Protocol` models crates/protocol/src/lib.rs: the messages and specifications as records and
--   data types with the source's fields and variants. Identifiers and paths are texts, a text is
--   its list of bytes, an instant is a number.
-- * `Store` models crates/jobstore/src/lib.rs. `Store/Tables` has the three tables and a function
--   for each method that writes them, `Store/Queries` the methods that read,
--   `Store/Opening` those that open a store. Each SQL statement is
--   a function over lists of rows. `Formats` is a parameter: the calls of chrono and serde_json,
--   with the law that a written timestamp is read back. Statements do not fail.
-- * `Coordinator` models crates/coordinator/src/main.rs. `Coordinator/State` has the shared state
--   and the shape of a handler: a function of the state and the client's sink, which takes a given
--   number of responses and then fails. `Coordinator/Start` has `main`, `Coordinator/Connections`
--   the way from the handshake to a handler, `Coordinator/Clients` the dispatch of client requests
--   and those that read or kill, `Coordinator/Leases` those of leases, `Coordinator/Runs` `run_process`, `Coordinator/Diagnosis`
--   `build_job_diagnosis` and `Coordinator/Workers` a worker's connection, from registration to its
--   end. Each function there is named after the source's function, or after the arm of its match
--   (`on_heartbeat`). Clock readings and fresh identifiers are arguments, and so are the events
--   that a run receives and whether a worker's channel is open. `Coordinator/System` has the
--   coordinator as a step relation: requests, messages, registrations and losses in any order.
--   The other modules there have proofs.
-- * `Auth` models crates/auth/src/lib.rs: the comparison of tokens, token files, the client's
--   request and the check of it. `Http` is a parameter: requests, headers and header values, with
--   the documented laws of the http crate, and of HTTP on what the server receives: names of
--   headers are compared in any case of their letters, blanks at the ends of values may be lost. Files are a function from paths to their text.
-- * `Policy` models crates/policy/src/lib.rs, crates/sandbox-linux/src/lib.rs and the start of a
--   task in crates/worker/src/main.rs up to the call of the executor. `{:?}` of a command leaves
--   characters beyond ASCII as they are.
-- * `Executor` models crates/executor/src/lib.rs. `Executor/Events` has the events, the channel of a
--   task and a turn of `spawn_log_reader`, `Executor/Runs` `start`, `kill` and what the waiting task
--   does, as a step relation: the two readers and the waiting task of each run take their steps in
--   any order. What a process does is an argument of the steps: its identifier, its lines, its
--   exit status. The other modules there have proofs.
-- * `Worker` models crates/worker/src/main.rs. `Worker/Backoff` has `main`, `Worker/Start`
--   `run_worker` from its arguments on, `Worker/Connection` its loop over messages and the rest of
--   `start_task`.
-- * `Cli` models crates/cli/src/main.rs. `Cli/Client` has `request`, `Cli/Commands` the commands,
--   `Cli/Output` what is printed, `Cli/Programs` the steps that the commands are made of, over the
--   interface `Server` of a request, and `Cli/Handlers` the commands from `main` on; `watch_job`
--   runs for a given number of rounds, since it ends only when the job does. `Cli/Targets` has the
--   coordinator as such a server, `Cli/Torchrun` the requests of torchrun, `Cli/Quoting` the words
--   that a POSIX shell reads, for spaces, single quotes and backslashes.
-- * `Runtime` models crates/runtime/src/main.rs, the launcher. `Runtime/Config` has the configuration
--   and the commands that it gives, `Runtime/Host` the host: its files, what the launcher has other
--   programs do, and as the parameter `Os` what they answer, which file a path leads to, and what
--   those programs have done to the files by the end of each call (the coordinator writes its
--   database while the launcher waits); `Runtime/Files` the token and log
--   files, `Runtime/Launch` `main`, `start`, `stop`, `status` and the loops that wait, which run for
--   as many rounds as there are answers of `try_wait`. The other modules there have proofs.
-- * `Lifecycle` joins the executor, the worker and the coordinator: the messages that the worker
--   makes of a task's events, heard by the coordinator one after the other.
-- * `Socket` has what a WebSocket gives its reader.
-- * `Base` has the shared names: lists over native numbers, texts, maps as association lists (a
--   hash map's order of iteration is the list's order), sorting as SQL's ORDER BY.
-- * `Samples` and the modules named Tests hold concrete inputs.
--
-- Loops are structural recursions over the rows, messages, tasks or indices that they visit;
-- there is no fuel, but for the count of digits in `show`, where a number's successor is more
-- than enough rounds. A handler of a request or of a message is one step, and steps follow each
-- other in any order; the source holds its lock for parts of a handler only, and the states
-- between these parts are not seen here.
--
-- Not modelled: the parsing of command-line arguments, sockets, the TLS and HTTP layer, JSON and
-- YAML texts, and what the operating system does with processes.
pub mod Base
pub mod Protocol
pub mod Store
pub mod Coordinator
pub mod Samples
pub mod Auth
pub mod Policy
pub mod Cli
pub mod Executor
pub mod Worker
pub mod Socket
pub mod Runtime
pub mod Lifecycle
