-- ===== src/Lib.antt =====
-- A verification library of inoculum, a small pool that runs independent tasks on a trusted LAN.
--
-- The program. A coordinator owns one FIFO queue of tasks with leases (internal/leasequeue). Its
-- HTTP handlers (internal/coordinator) check requests with internal/types and internal/workload, call
-- the queue and record events in internal/monitor. Workers (internal/worker) claim tasks, renew leases
-- and deliver results; internal/cli submits batches and exports results.
--
-- The files.
--   Shared, Shared/*: Boolean tests, lists, Go's string-keyed maps, integers, and what the program
--     sees of a JSON document.
--   Text, Text/*: Go's strings as code points, with the length of their UTF-8 encoding, and the texts
--     of numbers and durations.
--   Types/Wire, Types/Validation: internal/types/types.go and validation.go.
--   Workload: internal/workload/manifest.go; Workload/Bounds and Workload/Loading prove its checks.
--   LeaseQueue/Tasks and LeaseQueue: internal/leasequeue/queue.go, one function for each method.
--     LeaseQueue/Invariant: the invariant; Lifecycle: the moves that a task may make; Expiry, Claims,
--     Leases, Outcomes: each method by its branches; Preservation: every method keeps the invariant;
--     Views: the reading methods; History: sequences of calls; Ownership, Delivery, Handover, Attempts:
--     what follows for workers and results.
--   Monitor/Model, Recorder, Job, Worker and Submit: the files of internal/monitor; Job/Counts and
--     Worker/History: what the counts of a job are, and a tracker after any calls.
--   Coordinator/Http and Coordinator/Server: internal/coordinator/server.go, requests, responses and
--     the server's state. Coordinator/Pull, Submit and Jobs: the five handlers of pull.go; Status: that
--     of status.go; Monitoring: MonitorSnapshot of monitor.go, Monitoring/Views: what it shows.
--     Coordinator/Soundness and Handlers: the state between requests; Requests: sequences of requests;
--     Jobs/States, Status/Counting, Status/Reports: what is reported; Submit/Batches, Submit/Queueing:
--     what a submitted batch becomes.
--   Worker/Connection, Delivery and Renewal: internal/worker/pull.go, the connection state with the
--     back-off, the loop that delivers a result, and the loop that renews a lease.
--   Worker/Config, Executor and Slots: NewPullWorker, internal/worker/executor.go, and runSlot with
--     executeClaim. Executor/Probing: what a probe sends; Slots/Counting and Tally: what a slot's
--     tracker counts.
--   Auth: internal/auth/auth.go; Auth/Tokens: which tokens pass. Coordinator/Routes: the routes behind
--     that check.
--   Crypto/Fingerprint, Disk, Identity and Trust: internal/crypto/tls.go, the coordinator's identity
--     and the client's trust record, over a disk and what the system refuses. Disk/Keeping,
--     Identity/Untouched and Restart, Trust/Accepting and Remembered: what is never overwritten, what
--     a restart loads, and which certificates are accepted.
--   Cli/Errors, Root and Results: internal/cli/errors.go, root.go and results.go; Results/Exports: what
--     the document of a job holds. Cli/Output: the results file of results.go; Output/Replacing: how it
--     is replaced.
--   Cli/Submit and Waiting: internal/cli/submit.go. Submit/Acceptance: what the client lets pass and the
--     coordinator takes; Waiting/Outcomes and Exits: how the wait for a job ends, and the exit code.
--   Cli/Roles: the options of internal/cli/worker.go and coordinator.go; Roles/Starting: what they start.
--   Presentation/Errors: internal/presentation/errors.go.
--   Presentation/Mode and Layout: internal/presentation/mode.go and layout.go, with the frames in
--     Layout/Coordinator, Worker and Submit; Layout/Fitting: what fits the terminal.
--   Presentation/Format, Labels and Frame: internal/presentation/format.go and frame.go; Presentation/Bounds:
--     that what is drawn is safe and fits; Presentation/Cuts: the progress bar and wrapped texts.
--   */Examples: tests, and the theorems of the list below at concrete data.
--
-- How the model stands to the code. A method that holds the queue's mutex is one function from the
-- state to the state and its results. Readings of the clock and new lease ids are arguments. Times
-- are numbers of nanoseconds and do not wrap; time.Duration and int are integers, of which only
-- attempts and counts grow, by one for each call. A Go map is an association list with one entry
-- for each key; a map key stands for the pointer that the map holds there. `none` is the panic of a
-- method that reads through a nil pointer, or on an index out of range. A handler calls the queue
-- several times; its model runs these calls without another handler between them, while
-- LeaseQueue/History allows any order. What the outside does in a round of a worker's loop, or of
-- the wait of the submit command, is an element of a list, so that these loops are structural; a
-- list that runs out is a loop that still waits. Copies that the code makes of tasks are values.
-- Two functions have fuel: the decimal print of a number has 20 digits, which are enough below 2 ^
-- 64, and Wrap has one round for each rune. Error values are constructors with the data that their
-- messages print. The flag package gives the options of a command and which flags were visited.
--
-- Not modelled: sockets, the TLS handshake, signals, logging and the drawing of the terminal. Files are
-- texts at paths; x509, SHA-256, encoding/json, url.Parse and the HTTP client are arguments.
pub mod Shared
pub mod Text
pub mod Types
pub mod Workload
pub mod LeaseQueue
pub mod Monitor
pub mod Auth
pub mod Coordinator
pub mod Worker
pub mod Presentation
pub mod Crypto
pub mod Cli
