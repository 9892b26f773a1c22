-- ===== src/Lib.antt =====
-- 9helius, a load balancer for the Helius RPC service: one gateway key in front of a pool of upstream
-- keys, with round-robin selection, cooldowns after rate limits, credit accounting and history.
--
-- Parts, and the files that model them:
--
-- - src/config.rs: Config (Schema, Defaults, Validate, Load).
-- - src/credits.rs: Credits (Class, Cost, Parse).
-- - src/ratelimit.rs: Ratelimit (Backoff, Buckets).
-- - src/upstream.rs: Upstream (one key: Key, Stat; the calendar: Calendar) and Pool (Select, View).
-- - src/stats.rs: Stats (Record, Roll; Overlap, the month rollover in steps).
-- - src/metrics.rs: Metrics (the metric names, and the events that the program sends to the recorder) and Endpoints.
-- - src/persistence.rs: Persistence (Snapshot, Restore, Save); Restore also has `replay_to_prometheus` of
--   src/stats.rs.
-- - src/keepalive.rs: Keepalive (Ping).
-- - src/error.rs: Error.
-- - src/proxy.rs and the state of src/state.rs: Proxy (Wire, Arms, Handler), for one request that runs alone.
-- - src/proxy.rs, src/keepalive.rs and the ticker of src/main.rs: Serving (Task, System), for many requests, pings
--   and rollovers at once.
-- - src/lib.rs: Router.
-- - src/main.rs, and `AppState::new` of src/state.rs: Boot (Start, Background, Life).
--
-- The UnitTests module of a part has the unit tests of its source file as functions into Bool, and their runs.
--
-- A request that passes the guards of the handler (Proxy.Handler.proxy) is parsed
-- (Credits.Parse.parse_body), which gives its estimate and its method class; the pool selects a key for
-- the class and the estimate (Pool.Select.select); a served request charges the key
-- (Upstream.Key.add_credits), a rate-limited one puts it on cooldown (Upstream.Key.trip_cooldown); the
-- rollovers (Stats.Roll) close a month or a day into the history and reset the counters. A snapshot
-- (Persistence.Snapshot.capture, Persistence.Save.save) carries the counters over a restart (Persistence.Restore.restore_into).
--
-- State is passed explicitly. An atomic field is a plain field, and a method takes the old record to the
-- new one; a method that returns a value returns the pair. Names are those of the source; a getter that
-- only loads a field is the field. Words wrap where the release build wraps: `fetch_add` and `+` on u64
-- and usize are taken modulo 2^64, on u32 modulo 2^32; saturating operations are written out. The clock,
-- the calendar, the bucket crate (governor), the JSON decoder (serde_json), headers and URLs (http, url)
-- and the replies of the upstreams are arguments. The handle that `select` returns is the index of its
-- key.
--
-- No recursion needs fuel: the scan of `select` runs over the rounds that are left, the loop of the
-- handler over its passes that are left, everything else over a list. The source runs its handlers
-- concurrently, and so does Serving: a request (Serving.Task.accept, go, resume) and a ping (start_ping,
-- end_ping) are cut where they wait for an upstream, and a system takes the steps of its tasks, the arrivals
-- of new ones and the rollovers in any order (Serving.System.step). A client may hang up while its request waits;
-- the server then drops the request, so that nothing after its wait runs. What runs between two waits is one step,
-- so are one scan, and the two halves of the ticker's body; for the two rollovers the load and the
-- compare-and-swap are also apart (Stats.Roll), so that another caller may come between them. Stats.Overlap
-- cuts the month rollover at each access to a counter, so that a charge may fall between the read of a key for the
-- closing month and its reset; there the two additions of a charge are one step. Proxy.Handler is
-- the same request as one function; what its tries meet (the time, the bucket clock, the upstream's reply) is a
-- sequence of `Turn`s.
--
-- A process starts (Boot.Start.boot) with a configuration, a fresh pool and what the snapshot on the disk
-- restores; it makes its moves, and saves (Boot.Background.save_snapshot) that complete or do not; it may end at
-- any time, and start again from the disk as it is then (Boot.Life). Saves follow one another.
--
-- Not modelled: the text that the recorder renders for `/metrics`, and in src/main.rs the tracing, the listener
-- and the signals. How axum finds a route and extracts the body are parameters of Router. The requests of
-- Proxy and Serving are those whose body was extracted. Reading
-- the configuration from files and the environment is library code, and so are the HTTP server and client.
pub mod Common
pub mod Config
pub mod Credits
pub mod Ratelimit
pub mod Upstream
pub mod Metrics
pub mod Pool
pub mod Stats
pub mod Persistence
pub mod Error
pub mod Proxy
pub mod Keepalive
pub mod Endpoints
pub mod Router
pub mod Serving
pub mod Boot
