-- ===== src/Lib.antt =====
-- KernelSeal: an agent that hands secrets to the processes of a Kubernetes node and has the kernel
-- guard each process that got some. This library models its Go code and proves what makes it correct.
--
-- The parts and how they interact. The shim (cmd/kernelseal-exec) stands in front of an application:
-- it asks the agent over a unix socket for an environment and then execs. The agent (cmd/main.go)
-- loads a policy, registers its bindings, follows the pods of its node, and serves the socket: for a
-- peer that SO_PEERCRED names it reads the cgroup, finds the pod, looks up the bindings that admit
-- that caller, marks the PID in a BPF map and only then answers. Exit events and a periodic sweep
-- take marks away again.
--
--   Base            tests on numbers and byte strings, lists, and Go maps as association lists
--   Text            Go's strings, strconv, sort and filepath, as far as they are used
--   Types           internal/types/events.go: events, policies, C strings, the wire format
--   Secrets         internal/secrets/registry.go: selectors, admission, lookup, target names
--   Cgroup          internal/cgroup/cgroup.go: membership, pod paths, cgroup IDs
--   Kube            internal/kube/pods.go: the pod cache, lists, watches, retries, requests, and their
--                   query (Url) as a receiver reads it (Escape, Query, Selection)
--   Identity        internal/identity/identity.go: from a PID to a caller
--   Policy          internal/policy.go: configurations, modes, servability, secret sources
--   Bpf             internal/bpf/loader.go: the maps of the two BPF objects, the event loops, and how
--                   programs are loaded, attached and detached (Lifecycle); and what the programs of
--                   bpf/ decide on what they find in the maps (Programs)
--   Server          internal/server/server.go and peer.go, internal/protocol/protocol.go: one exchange
--                   (Handle), the same access by access (Machine), the goroutines of several
--                   connections interleaved (Interleaving), and the socket (Socket)
--   Reconcile       internal/reconcile/reconcile.go: the sweep and its loop
--   Metrics         internal/metrics/metrics.go: counters, gauges, routes, readiness, and the page as a
--                   scraper reads it (Lines, Scrape, Value)
--   Logging         internal/logging/logging.go: levels and the threshold
--   Shim            cmd/kernelseal-exec/main.go, and the shim over the server (Provenance)
--   Agent           cmd/main.go: main from the flags to the signal (Main), the event handlers, what it
--                   shows of itself (Observe, Page), and the steps of a running agent (Timeline)
--   Tests           runs at concrete inputs, over maps that are association lists
--
-- Names are those of the source in snake case: `Server.handle` is `Server.Handle.handle`, split
-- where the source has a comment into `serve`, `guard_and_issue`, `confirm` and `issue`;
-- `Registry.Lookup` is `Secrets.lookup`; `Manager.ProtectPID` is `Bpf.Manager.protect_pid`. A struct
-- is a record, an error is a constructor or an Option, and a method takes its receiver and gives it
-- back. Interfaces (Protector, Resolver, Identifier, PodLookup, Store) are records of functions that
-- the server and the sweep take, and that the BPF manager, the registry and the pod cache fill.
--
-- Strings are lists of bytes; case folding and white space are those of ASCII. A Go map is an
-- association list, and what is proved holds for each order of its entries. PIDs are native numbers;
-- the 64-bit counters wrap. Durations are in nanoseconds. An operation runs to its end between two
-- others, as its lock makes it; the steps of Agent.Timeline come in any order. One exchange holds no
-- lock: Server.Machine has a step for each read of procfs and each call of the protector, and
-- Server.Interleaving runs any number of exchanges over one kernel, beside processes that come and go.
--
-- Parameters stand for what is not in the repository: BPF maps (Bpf.Maps, with the documented
-- behaviour of a hash map as laws), decoders of YAML and JSON, the file system, the environment,
-- procfs, and the messages of the API server.
--
-- That the kernel refuses an access is stated of the LSM programs run on their maps. Whether they are on
-- their hooks, and which policy they find, is stated apart (Bpf.Hooks, Agent.Boot).
--
-- Fuel: the retry loop of the shim runs on `timeout + 1` rounds. Each round that goes on ends at
-- least `retry_interval` later, which is not 0, so the deadline comes first.
--
-- Not modelled: of the BPF programs in C, all but those decisions; flags and signals, log lines apart from the level that lets them
-- through and the description of a caller, and what the standard library and the ebpf library do inside a
-- call: accepting connections, HTTP, TLS, decoding, loading and attaching. Of each such call the model has
-- the outcome as a parameter.
pub mod Base
pub mod Text
pub mod Kube
pub mod Secrets
pub mod Types
pub mod Bpf
pub mod Server
pub mod Policy
pub mod Reconcile
pub mod Cgroup
pub mod Identity
pub mod Shim
pub mod Logging
pub mod Metrics
pub mod Agent
pub mod Tests
