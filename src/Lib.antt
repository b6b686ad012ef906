-- ===== src/Lib.antt =====
-- The control plane of the vCPE lab: from a desired-state manifest it plans networks and
-- services, leases address ranges, reserves health ports, renders the services' files and runs
-- them through a compose project, and it journals every step in a SQLite database. A collector
-- asks every instance for its health, and diagnostics say which prerequisite of a failing
-- service is to blame. The event sink is a service of the lab of its own: it registers a webhook
-- with Argus, refreshes it, takes the signed events that Caduceus delivers, and keeps a bounded
-- memory of what happened.
--
-- The parts, and the files that model them:
--
--   controlplane/internal/manifest/model.go   Manifest: the records of the document.
--   controlplane/internal/manifest/validate.go  Manifest.Networks, Manifest.Interfaces,
--       Manifest.Dependencies (detectCycle) and Manifest.Validate, with their theorems in
--       Networks.Accepted, Interfaces.Addressed, Dependencies.Order, Dependencies.Cycles,
--       Dependencies.Enough, Validate.Names and Validate.Accepted.
--   controlplane/internal/persist/store.go    Persist: Tables (rows and database), Health (ports),
--       Leases, Operations (journal, checkpoints, recovery), Snapshots, Checkpoints (replica
--       counts). Health.Constraints is what the schema guarantees; Health.Reservation,
--       Leases.Replacement and Operations.Recovery hold the theorems.
--   controlplane/internal/ipam/store.go       Ipam: CheckConflicts, Apply and Load; Ipam.Conflicts
--       holds the theorems. Ipam.Allocate has AllocateInterfaces, with theorems in Allocate.Loop (the
--       loop of allocate), Allocate.Handed, Fresh and Distinct (what is handed out), Allocate.Taken
--       and Allocate.Exhausted. Net has the prefixes of Go's net/netip.
--   controlplane/internal/app/orchestrator.go Apply: runApply with its phases, its closure `fail`
--       and its rollback. Apply.Standing compares states, Apply.Outcomes and Apply.Endings follow
--       every path and what its rollback leaves, Apply.Finished follows the operation's status;
--       Apply.Phases (over Apply.Converged and Apply.Ports) and Apply.Convergence follow the run without an error.
--       Apply.Disruptive has classifyDisruptive of app/disruptive.go and previousReplicaCounts, with
--       their theorem in Disruptive.Reasons.
--   controlplane/internal/plan                Plan: the records of a plan, MAC addresses and bridge
--       names.
--   controlplane/internal/planner/planner.go  Planner: Replicas (computeReplicaDelta), Networks
--       (resolveNetworks), Instances (resolveService), Order (orderServices) and Build. Order.Edges
--       and Order.Steps hold lemmas on the graph and the loops; the theorems are in Replicas.Delta,
--       Instances.Identities, Order.Ends, Order.Started (over Order.Sound and Order.Runs), Order.Acyclic (over
--       Order.Complete), Build.Planned and Build.Validated, which joins them to manifest/validate.go.
--   controlplane/internal/health              Health: Model (the protocol, with Model.Accepted) and
--       Collector, with its workers as steps of a pool in Collector.Workers, from the first index that is
--       handed out through the closing of the channel to the return of Wait, and its theorems there,
--       in Workers.Ends, in Collector.Trust and in Collector.Sorted.
--   services/event-sink/internal              EventSink: State and Receipts (diagnosticstate),
--       Registration (registration) and Handler (handler), with theorems in Receipts.Window (over Maps
--       and Queue), Registration.Backoff and Handler.Guarded.
--   controlplane/internal/diagnostic          Diagnostic: Model (edges and observations), Document
--       (the other records and limits of model.go), Formats (its patterns, and
--       NormalizeCallbackIdentity of webhook.go), Fields and Fields.Lists (the parts of a document),
--       Validate (Result, EndpointResponse, Capabilities and RoutingObservation), Invocation
--       (ValidateFor, the subscriber's intent, receipts), Evaluate (ApplyCausality), Classify and
--       Safety (Sanitize). Client has the requests of client.go as a trace of events. Reports and
--       Orchestrator have orchestrator.go: Orchestrator the passive webhook journey,
--       Orchestrator.Active the active one, Callback and Marked the one with a marked event,
--       Diagnose the dispatch. Theorems are in Evaluate.Causality, Validate.Causal, Classify,
--       Safety.Redacted and, over Orchestrator.Events and Requests, in Ordered, Once and Whole.
--
-- Common holds tests, lists, results, integers, codes of texts (Text) and sorting (Sort).
-- Modules named Tests run the code on examples.
--
-- How the model corresponds to the code. The database is a record of tables, and a table the
-- list of its rows in the order of insertion; a statement is a function on the table and fails
-- only by a key or a UNIQUE constraint of the schema, not by the disk. A call that may fail
-- returns its result beside the new database; a transaction that fails returns the old one.
-- Integers of Go are ℤ where they may be negative. Ports are natural numbers; nothing here comes
-- near 2^63. The loop over the 1000 health ports runs on the number of ports that are left, so
-- it ends, and its theorem says what it means when none is left. The search for cycles runs on
-- one more than the number of nodes: each nested visit turns one more node gray, and a node that
-- is no key of the graph has no successors. The loop of orderServices runs on the number of
-- services: each turn takes one name from those that are ready or wait, and Order.Ends shows
-- that this is enough. The retries of the registration run over the
-- list of what the world answers. The loop of allocate runs on one more than the number of used
-- addresses, since each turn meets a used address that it has not met before; Allocate.Loop shows
-- this, also for the counting on from the zero address. PollReceipt makes its five attempts. No other
-- loop needs fuel.
--
-- A map of Go that the code fills and reads is a function or a list of pairs. A time is a number
-- of nanoseconds behind Go's zero time; each reading of a clock is an argument. sort.Strings and
-- sort.SliceStable are the insertion sort of Common.Sort. An operation that holds a lock from
-- its first access to its last is a function on the state. The maps of orderServices are read at
-- names of services only, so a missing key never matters. The code sorts the reasons of
-- classifyDisruptive by their messages; the model keeps them in the order in which they are
-- found.
--
-- runApply is modelled from the deployment cap on, behind the validation and planning of the
-- manifest, whose results are fields of the record Run. Each step that does not touch the
-- database (secrets, host network, images, interfaces, rendering, startup contracts, compose) is
-- a field of Run with the error that the step returns, if any. A run has one time stamp, and so has a recovery at
-- startup, where the code reads its clock for each statement. A call
-- of the store whose error the code drops (`_ =`) is a plain function. The setting of a replica
-- count and the saving of a snapshot do not fail.
--
-- Parameters: netip.ParsePrefix and netip.ParseAddr are functions from texts, of which nothing
-- is assumed; strconv.Itoa and Atoi are the record Decimal, whose law is that Atoi reads what
-- Itoa writes. In the planner, SHA-1, the printing of numbers, the parsing and printing of
-- addresses and the roles in a gateway's config are functions of which nothing is assumed (the
-- record Formats). For classifyDisruptive the YAML decoder is one. In Health, what HTTP and JSON
-- answer for a target is a function of the target, and strings.TrimSpace one of texts. In
-- EventSink the record Urls stands for net/url, the record Wire for HMAC, JSON and WRP, a list
-- of attempts for Argus and the context, and strings.ToLower is a function.
--
-- In Ipam.Allocate, netip.ParseAddr and Addr.String are the record Texts, whose laws are that the
-- empty text is no address and that a printed address reads as itself, if it reads at all. In
-- Diagnostic, the record Formats stands for strings, strconv, time, mime, net/url and the regular
-- expressions of redaction, of which nothing is assumed but, for Sanitize, that ToLower lowers the
-- text that it puts in place of secrets; World says what an endpoint answers to a
-- request, which may depend on the whole trace before it, so no order of answers is excluded.
-- `regex` compiles the filters of a registration. What Resolve and a provider return is an argument of
-- Diagnose.
--
-- Not modelled: the reading of manifests, the probes of the diagnostics and the resolution of their
-- requests, rendering and compose files, the container backends, the daemon and the command
-- line, the health daemon, and the HTTP interface to the event sink's state. Some are calls of
-- other programs, files and sockets; others have logic that this library does not reach yet.
pub mod Common
pub mod Manifest
pub mod Plan
pub mod Net
pub mod Ipam
pub mod Planner
pub mod Persist
pub mod Apply
pub mod Diagnostic
pub mod Health
pub mod EventSink
