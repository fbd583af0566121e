-- ===== src/Lib.antt =====
-- ScanLedger: a model of the parts of the back end (backend/app) that decide what is probed, how fast,
-- and what is recorded of it.
--
-- A scan names a scope profile and a target. The guard checks the target against the profile before any
-- probe and checks each address again at the socket; every connection takes a slot of the governor,
-- which bounds concurrency, rate and budgets. The worker claims queued scans one at a time, runs the
-- selected modules in order, stores what they find, publishes events, and sweeps old data at the end.
--
-- Files and the code that they model:
--   Net, Net/Laws: what the code uses of Python's ipaddress, over numbers.
--   Text, Text/Join, Text/Decimal, Text/Split: strip, `in`, join, f-strings, split and str(n) of Python's str.
--   Guard/Ranges: guard/ranges.py. Guard/Ledger: guard/ledger.py. Guard/Resolver: guard/resolver.py.
--   Guard/Scope: ScopeProfile of guard/scanguard.py. Guard/ScanGuard: ValidatedTarget and
--   ScanGuard.validate_target. Guard/Connect: ScanGuard.connect with its slot of the governor. Guard/Stream:
--   ScanGuard.open_stream.
--   Scan/Governor: limits, catalogue and IntensityGovernor of scan/governor.py; Scan/Governor/Tasks is the
--   step relation of the tasks of a wave, interleaved at the awaits of _acquire. It leaves
--   out the waits for the backoff and the bucket, so it has every interleaving of the code and more, and is
--   used for bounds only.
--   Scan/Bucket: _TokenBucket of the same file. Scan/Events: scan/events.py.
--   Scan/Concurrency: scan/concurrency.py. Modules/Ports: modules/ports.py.
--   Scan/Runner: the lock, recovery and claim of scan/runner.py. Scan/Writes: what ScanRunner writes for
--   a scan. Scan/Execution: execute_scan.
--   Services/Retention: services/retention.py. Services/Cache: services/cache.py.
--   Services/Outbound: services/outbound.py. Services/Scans: services/scans.py.
--   Services/Kev, Services/Nvd: services/providers/kev.py and nvd.py over the JSON of Services/Json.
--   Services/Reports: services/reports.py.
--   Modules/Sweep: the loop that the probe modules share. Modules/PortScan: modules/port_scan.py.
--   Modules/HostDiscovery: modules/host_discovery.py. Modules/OpenPorts: what a later module is told of
--   the port scan (modules/base.py). Modules/ServiceDetect: modules/service_detect.py, over
--   Modules/Fingerprints: modules/fingerprints.py. Modules/ProtocolEnum: modules/protocol_enum.py.
--   Modules/Cpe: modules/cpe.py.
--   Api/Scans, Api/Paging: api/scans.py. Api/Scopes: api/scopes.py. Api/Findings: api/findings.py.
--   Api/Ledger: api/ledger.py. Api/Integrity: the requests that write,
--   as a step relation on the database.
--   Models/Domain: models/domain.py. Models/Findings: models/findings.py. Db: db/tables.py.
--   Modules: the parts of modules/base.py and modules/registry.py that the runner reads.
--   Prelude: shared names, tests and lemmas. Tests: concrete inputs.
-- (All paths are under backend/app.) A definition has the name of its Python function, without a leading
-- underscore; where two would clash, a word tells them apart (run and run_discovery). A class that carries
-- state is a record, and a method takes and returns it. An exception is a value of Outcome; where state
-- outlives an exception both are returned. The database is one record of lists of rows, and a conditional
-- update is a map over them.
--
-- Bounds: the token bucket counts its loop in rounds, two of which are enough at a rate of
-- one connection per second or more; the limiter of the gateway does so too, and two are always enough.
-- The gateway's loop makes the four attempts of the code. All other loops are recursion on lists, on texts and on the
-- addresses of a network. Times
-- are milliseconds, rates are thousandths, and tokens millionths, so no arithmetic is rounded but the
-- wait, which is rounded up.
--
-- Parameters: what ipaddress reads from a text (IpReader, with the law that a network that was read has
-- its host bits cleared), what the resolver of the operating system answers, what a host answers to a
-- connect, when a sleeper wakes, and what a module of a scan answers (an episode); what urlsplit, upper
-- and lower make of a text, what a provider replies, the random draws of the backoff, SHA-256, and the
-- text of an address. For a probe the result of each connect is an argument, because the event loop
-- settles the order of the calls within a wave. The same goes for open_stream and the reads of a stream.
-- Regular expressions are matched by an argument (Re), since Python's `re` is no part of the repository;
-- their texts and flags are the code's. The x509 reader, `repr`, `int` and `decode` are arguments too, and so
-- are the columns of a row that only an export prints. Which of two scans of one time the
-- database lists first is an argument of each query.
--
-- Not modelled: the asyncio tasks that start and stop the worker's loops, the closing of streams, the
-- module catalogue; migrations, process set-up and the import check, which decide nothing at run time; the
-- web client; the times in ledger entries, module options of a scan, IPv6 zone ids.
pub mod Prelude
pub mod Models
pub mod Db
pub mod Modules
pub mod Services
pub mod Api
pub mod Text
pub mod Net
pub mod Scan
pub mod Guard
pub mod Tests
