-- ===== src/Lib.antt =====
-- Nexus-Infra keeps workloads on hosts. Its console (console/*.py) holds the workload
-- definitions, the registry, which records where each workload runs, and the policies on its backups.
--
-- console/registry.py is the core. Class Registry keeps its tables in SQLite: the placement of each
-- workload and its generation, the instances, the session and the last observation of each host and
-- instance, the journal of requests, the queue of operations, and the fences. Controllers call assign,
-- publish, withdraw, fence and post_operation; hosts call open_session, observe, poll_operations and
-- operation_receipt; readers and the ingress call state and routes.
--
-- Base holds what the other modules share: tests on numbers and texts, tables under a key (Base.Table),
-- results that may be an exception (Base.Result) and the patterns of identifiers (Base.Strings).
-- Json models JSON values and the value checks of console/worker.py (Json.Checks).
-- Catalog models console/catalog.py: the shape and the seal of a definition, and the admission of a
--   workload to a host. Sealing has lemmas on sealing.
-- Registry models console/registry.py.
--   State has the tables of _SCHEMA as lists of rows, and Config what the constructor is given,
--   checked; Requests and Payload the request checks; Clock the reading of the
--   clocks, the check of the caller and the transactions; Evidence _fresh, _ready, _retired_drained and
--   their like; Journal the requests that were answered and the INSERTs with the constraints of the
--   schema; Session, Assign, Publish, Fence and Queue the methods; Views what is shown; Compat the
--   check of a database that is opened. A method is a function from the registry to its result and the
--   registry that it leaves, so that a call that raises has a registry after it, too. Its body is split
--   where the source has its parts: the checks, the writes, and `once`, which answers a repeated
--   request from the journal.
--   Events has one step for each call that writes, with the clocks' readings as arguments, and runs of
--   steps. `step-Changes` carries a relation on databases from the bodies of the transactions to every
--   step. The modules Valid, Grows, Receipts, Replay and QueueBound use it
--   for the properties; Succession follows a call with the times that it reads (Returns.Timed).
-- Worker models class Worker of console/worker.py, which keeps the instances of one host: prepare, adopt,
--   start, stop, retire, freeze and thaw. State has the tables of its _SCHEMA and what the constructor is
--   given; Host what systemd, the cgroups and the file system answer, one arbitrary view for each call;
--   Request validate_request; Checks the checks that only read; Act methods as
--   functions from the database to their outcome and the database they leave, so that what is committed
--   before a method raises stays, and _receipt, _finish and _uncertain; Prepare, Start, Stop and Capture
--   the actions with their resumptions; Reconcile _reconcile; Execute _run, _resume, execute, _observe
--   and guard. The work on files, secrets, mounts and closures is an answer of the host to a Task.
--   Steps is the relation of the single writes, with what each method checked before it; its children
--   show that every method is a chain of such steps. Safe has the invariant that each step keeps,
--   History the histories of a host, across changes of its configuration and boots, and Reports what the
--   receipts say.
-- Policy models console/policy.py: the records it reads, evaluate and plan.
--
-- Times are natural numbers of ticks, a million to the second; a float is its whole number of ticks, and
-- one that is negative or not finite is kept apart, since the code refuses it. In Policy, times are whole
-- seconds as in the source. The canonical JSON text of a value is represented by the value with its keys
-- in order, so equal texts are equal values. SHA-256 is the parameter `hash`. The fresh session id is an
-- argument. A violated constraint of SQLite is an exception "sqlite3.IntegrityError"; a missing key or
-- row that Python would subscript is an exception with the name of Python's. No loop needs fuel: each one
-- follows a list or a JSON value. Integers have no upper bound: the registry's version and sequences would
-- pass the 2^63 - 1 of a column of SQLite only after as many calls.
--
-- A call is one step, on one database, in the order in which calls take the registry's mutex or the
-- worker's lock. A crash within a call is not a step, but a history may start from any database, so also
-- from one with operations that are pending. `guard` of the worker takes no lock in the source: systemd
-- runs it while `execute` waits for the start of the unit. Here it is a call of its own, between calls of
-- `execute` and on the database that they left, so that what happens between its checks and its UPDATE,
-- whose WHERE clause asks again, is not modelled.
--
-- Not modelled: class Catalog; in the registry validate_config, opening, locking and migrating the
-- database file, a COMMIT that fails and threads that wait for the mutex; in the worker validate_config,
-- opening the database, its lock, and the work on directories, mounts, closures, secrets and runtime
-- files, whose outcomes are answers of the host; the HTTP services, the controller, backups and restores,
-- secrets, the ingress and the distribution. In Policy, the check of a recovery point's manifest is a
-- parameter.
pub mod Base
pub mod Json
pub mod Catalog
pub mod Registry
pub mod Policy
pub mod Worker
