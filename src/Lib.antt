-- ===== src/Lib.antt =====
-- mini-redis: a server for a part of the Redis protocol, with a memory limit and expiration times.
--
-- A request travels through these parts. A session (internal/server/session_handler.py) reads a
-- frame from its socket and hands it to the protocol handler (internal/protocol/resp), which decodes
-- the frame, parses it to a command and validates the command (internal/command). The command
-- service (internal/service) executes it on two dictionaries (internal/repository): the entries, and
-- the expiration times. The session encodes the reply. Sessions run one after another; a background
-- thread sweeps expired keys (internal/expiration). cmd/mini_redis_cli is a client.
--
-- The files and the code:
--   Prelude     shared names, lists and Boolean tests over the native numbers, Python's integers
--   Result      internal/command/errors.py and the other exceptions, as values
--   Text        Python's str as a list of code points: UTF-8, decimal numerals, case, sorting
--   Platform    what Python itself supplies and the model does not define
--   Dict        a dict in insertion order (internal/repository/in_memory_store.py, in_memory_ttl.py)
--   Resp        internal/protocol/resp: types.py and messages.py; Resp/Decoder, Resp/Encoder and
--               Resp/Hello are request_decoder.py, response_encoder.py and hello_handler.py
--   Command     internal/command: command.py; Command/Parser and Command/Validator
--   Protocol    internal/protocol/resp/protocol_handler.py
--   Repository  internal/repository: value_entry.py, and delete of in_memory_store.py
--   Service     internal/service. The state is a record: the two dictionaries, the clock and the
--               fields of CommandService. A method is a function from a state to a result and a
--               state, so what was written before an exception stays written. Service/Basic has the
--               five small services, Service/Expiration the calculator and the manager of
--               internal/expiration, Service/Memory the accounting and the eviction, Service/Entries
--               the typed access, Service/Hashes, Lists, Sets, ZSets and Admin the commands,
--               Service/Execute the dispatch of execute, Service/Sweeper one sweep.
--               The other children are proofs: Keeps, Stable, Invariant and Backed (invariants),
--               Raises (exceptions), Measure, Eviction, Lru, Bound and Room (the memory limit),
--               Strings (SET, GET, DEL), Ttl, Slices (LRANGE and ZRANGE's slice).
--   Server      internal/guard and internal/observability/metrics.py; Server/Session is a session,
--               Server/Steps the requests and the sweeps as a step relation,
--               Server/Accept is internal/server/server.py and shutdown.py
--   Config      internal/config
--   Cli         cmd/mini_redis_cli/main.py: the frames it sends; Cli/Responses is its reader,
--               Cli/Render what it prints. The children of these are proofs
--   Arena       internal/arena. Arena/Client is InMemoryMiniRedisClient of lane/redis_client.py,
--               Client/Methods what the lanes call, Client/Room its memory limit, Client/Losses,
--               Client/Shapes and Client/Lawful what it may lose, its UnicodeEncodeError caught,
--               Client/Reads what it reads back;
--               Arena/Models is common/models.py, Arena/Mongo the in-memory repository of
--               mongo/repository.py, Arena/Interfaces the protocols of the client and of the
--               repository, as records of methods, Arena/Lawful the laws of a cache; Arena/Lanes has
--               what the lanes share and lane/cache_policy.py, Lanes/DbOnly and Lanes/RedisDb the
--               two adapters, Lanes/Agree and Lanes/Misses the two compared (in Agree/Seeds after a
--               seeding), by the rules of Lanes/Counts; Arena/Events is events, Arena/Summary
--               gateway/result_normalizer.py, Arena/Profiles control_profiles.py, Arena/Gateway
--               gateway/service.py (Gateway/Locked and Gateway/Sound are about sequences of its
--               calls), Arena/Scenario scenario/workloads.py, with Scenario/Plans and Scenario/Hot
--               about it, Arena/Runner scenario/runner.py, with Runner/Active and Runner/Calls about it,
--               Arena/Routes lane_a/api/routes.py and lane_b/api/routes.py
--   Samples     a concrete platform and states; Tests the theorems at concrete inputs
--
-- Python's floats, the tables of Unicode and the depth of the stack are fields of the record
-- Platform, which every definition that needs them takes as an instance. The clock is a sequence of
-- readings, which need not increase. An integer is unbounded, as in Python.
--
-- Fuel: evict_while and the client's enforce_while run on one round more than the store has keys.
-- Each round deletes a key, so the loop ends within them, which the bound on the size afterwards
-- shows. decode_value and read_response take the depth of the stack as fuel and raise a
-- RecursionError there, as Python does.
--
-- Surrogates: no text that the server decodes has any, so the sizes of its entries are those of
-- encodable texts. On others the client of the arena raises where it adds up sizes; the sizes in the
-- statistics of the in-memory repository are without that case.
--
-- Not modelled: the socket beneath the reads and writes, the thread of the sweeper (a sweep is one
-- step between two requests here, while the thread may run within a request), logging, the REPL of
-- the command-line client, the HTTP services of the arena around its routes (internal/arena/api), its
-- clients of pymongo, of redis-py and of HTTP, and the demo application (app). The tasks of the
-- scenario runner run one at a time here, without their pauses. What a lane measures of time is an argument of its run, and json.dumps
-- and the texts of Python's own exceptions are fields of the record Outside. Where the gateway gathers two
-- lanes, the one runs after the other here; their states are apart.
pub mod Prelude
pub mod Result
pub mod Text
pub mod Platform
pub mod Config
pub mod Dict
pub mod Resp
pub mod Command
pub mod Protocol
pub mod Repository
pub mod Service
pub mod Server
pub mod Cli
pub mod Arena
pub mod Samples
mod Tests
