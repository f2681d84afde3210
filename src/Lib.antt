-- ===== src/Lib.antt =====
-- A model of the parts of bluetape that keep state, and what is proved of them.
--
-- Parts and files:
-- * Resilience (packages/bluetape-resilience/src/bluetape/resilience). Each policy runs a given
--   operation under its own rule; a policy's wrapped call can be the operation of another.
--   - Resilience/Core: _core.py, the enumerations, events, snapshots and errors (`Error` has one
--     constructor for each class that the code tells apart), and the checks of arguments. `PyValue`
--     is an argument of any class.
--   - Resilience/Operation: the checks of `_retry.py` on operations and on their results.
--   - Resilience/Backoff: _backoff.py.
--   - Resilience/Retry: _retry.py, `Retry.call` and `AsyncRetry.call`.
--   - Resilience/Circuit: _circuit.py, `_CircuitData` with `admit`, `ignore`, `succeed` and `fail`;
--     Circuit/Breaker is `CircuitBreaker.call`, Circuit/AsyncBreaker `AsyncCircuitBreaker.call`.
--   - Resilience/Bulkhead: _bulkhead.py, `Bulkhead`; Resilience/AsyncBulkhead is `AsyncBulkhead`.
--     Bulkhead/Run interleaves the blocks of calls that share one.
--   - Resilience/Timeout: _timeout.py, `AsyncTimeout`; the scope of `asyncio.timeout` is a parameter.
--   - Resilience/Releasing: rules for the release of the async policies, which tries again when it
--     is cancelled at the lock.
-- * Cache (packages/bluetape-cache/src/bluetape/cache): Cache/State is `_CacheState` of _core.py.
--   Python's dictionaries are association lists in the order of insertion (Cache/Dict).
--   - Cache/Flights: _sync.py, `TTLCache`, each block under its lock as a function of the cache with
--     what the clock gave; Cache/Flights/Load is `get_or_load`, the only caller of two blocks.
--     Cache/Flights/Steps runs blocks in any order.
--   - Cache/Arguments: the checks of _core.py on numbers and `TTLCache.__init__`; a finite float is its
--     exact ratio.
-- * Id (packages/bluetape-id/src/bluetape/id): Id/Ulid is the text of a ULID and Id/Monotonic the
--   generators, of _ulid.py; Id/Uuid is _uuid.py, a UUID being its number. A shift and an `|` are a
--   product and a sum, where the parts do not overlap.
-- * LeaderRedis (packages/bluetape-leader-redis/src/bluetape/leader/redis): LeaderRedis/Scripts are the
--   Lua scripts of _scripts.py, each one step on the server. Its commands are a parameter `Redis`
--   (LeaderRedis/Redis), and what Redis documents of them are named laws (`IsRedis`).
--   - LeaderRedis/Replies and LeaderRedis/Record: how the client reads the replies (_scripts.py), and the
--     records of leases with their texts (_support.py); LeaderRedis/Decimal prints a number.
--   - LeaderRedis/Keys: _keys.py, and the check of the options in _support.py; LeaderRedis/Options makes
--     them (packages/bluetape-leader, _options.py).
--   - LeaderRedis/Handle: the handle `_RedisLockLease` of _lock.py, with Handle/Worker, the thread that
--     renews it, and Handle/Scope, its `with`. Errors: the exceptions that it tells apart.
--   - LeaderRedis/Lock: `try_acquire`, and LeaderRedis/Elector: _elector.py. What a client sends is a
--     parameter `Commands`, which may reply or raise anything; threads, clocks, the jitter, Unicode and
--     SHA-256 are parameters too. Lock/Answers says what it is for a command to run its script on a
--     server, and Lock/Stands, Lock/Probed and Lock/Acquired join the client with the scripts.
-- * CacheRedis (packages/bluetape-cache-redis/src/bluetape/cache/redis): CacheRedis/Envelope are the
--   envelopes of results of _contracts.py, with the metadata of packages/bluetape-serde, and
--   CacheRedis/Binary is `BinaryEnvelopeFormat` of _formats.py. UTF-8 is a parameter. CacheRedis/Codec is
--   `ResultEnvelopeCodec` of _envelope.py over any format, payload codec and compressors, which are
--   taken to be functions of their arguments.
-- * Common holds what the parts share: Exec, the effect in which code runs (a function of the world
--   that gives a result or an exception, and the next world), Acts, Does and Post, rules to prove
--   what such code does, and tests and numbers.
--
-- Threads and callbacks: operations, observers, predicates and clocks are parameters of type `Exec`
-- over the whole world, and so are sleeps and waits. A lock's block is one step on the object that a
-- `Cell` finds in the world. What other threads do between two blocks is part of what the parameter
-- in between does, and the theorems let it be any change that a given reflexive and transitive
-- relation allows.
--
-- Numbers: counters are ℕ where the code never lowers them and ℤ where it does. Floats are a
-- parameter `Runtime`; nothing is assumed of their arithmetic, and tests take whole ticks.
--
-- Fuel: the retry loops take `max_attempts` as fuel, which is proved to be enough. The loop in which
-- a bulkhead waits and the loop in which an async policy releases through cancellations may run for
-- ever in the source; they take any fuel, and the result is `none` when it is used up. For the async
-- breaker, fuel beyond the number of cancellations is proved to be enough. The loop of an acquisition
-- takes any fuel and tells when it is used up; where sleeps take their time, a fuel of one more than
-- the pauses of 40 ms that fit into the time to wait is proved to be enough. The loop of a worker that
-- renews goes on for as long as its event lets it, and tells when its fuel is used up.
--
-- Not modelled: messages, tracebacks and exception chains; decorators, which only wrap `call`;
-- the other packages of the repository; the async cache (_async.py); the async lock and elector,
-- the checks of Redis clients and pools from which the timings are computed; the JSON format of
-- envelopes, and the providers and the coordination of the Redis cache; the texts that the `uuid`
-- module reads and prints, a parameter. A clock of a cache is called just before the block that
-- needs it, also where the block then makes no use of it, and is taken not to change the cache.
pub mod Common
pub mod Resilience
pub mod Cache
pub mod Id
pub mod LeaderRedis
pub mod CacheRedis
