-- ===== src/Lib.antt =====
-- Eventful is a library of in-process events: listeners are registered with a bus under topic
-- patterns, and an emitted event is routed to a snapshot of the matching listeners, which are
-- called in order of priority through a chain of middleware, synchronously or asynchronously.
-- Around the bus stand a rate limiter, a debouncer, event stores in memory and in PostgreSQL, an event
-- log in files, a transport over Redis, a JSON codec, the configuration, a registry of schemas and a
-- manager of plugins. Paths are from the repository's root.
--
-- The parts and their files. The names of functions are those of the Python code.
-- src/eventful/exceptions.py, stop_propagation.py: Exceptions. An exception is its class.
-- src/eventful/event.py: Event. `Event` objects live on a heap and are named by a `Ref`, since
--   listeners share and change them. Keyword dictionaries have the types of the annotations.
-- src/eventful/listener.py: Listener. Listeners are objects: two are equal when their `ident` is.
--   A callable is its identity. A filter is a pure test of an event, which may raise.
-- src/eventful/router.py: Router with Router/Pattern (the pattern match), Router/Spec (what a
--   pattern covers) and Router/Removal (the selection after additions and removals).
-- src/eventful/__init__.py and the decorator of listener.py: Facade, with the global variables as a
--   record.
-- src/eventful/dispatch.py: Dispatch with Dispatch/Order and Dispatch/Stable. `sorted` is an
--   insertion sort that keeps the order of equal priorities, as `sorted` does.
-- src/eventful/middleware/__init__.py: Middleware with Middleware/Chain.
-- src/eventful/bus.py: Bus/Registry has the state of the bus and the operations under its lock,
--   Bus/Emit the dispatch. Bus/Consistent is the invariant, Bus/Steps the sequences of public
--   operations, Bus/Once and Bus/Snapshot what a dispatch does, Bus/Modes the mode detection.
-- src/eventful/utilities/rate_limit.py: RateLimit with RateLimit/Window and RateLimit/Quota.
--   Times are natural numbers of ticks, fine enough for every float; the rounded sum is a parameter.
-- src/eventful/utilities/debounce.py: Debouncer (the class of that name) with Debouncer/Delivery, and
--   Debouncer/Decorator (the decorator `debounce`).
--   Timers are those that can still run, and each run of one is a step of its own.
-- src/eventful/stores/memory.py: MemoryStore with MemoryStore/History.
-- src/eventful/persistence/file_persistence.py: FilePersistence, with FilePersistence/Record (the
--   document of an event and its validation), FilePersistence/Rotation, FilePersistence/Log (replay),
--   FilePersistence/Write and FilePersistence/Append. Files are lists of lines; a line is what
--   comes of it in a read (a value, nothing, or an exception of the stream), its size, and whether it
--   ends in a line end. The backup paths differ from the path of the log and from each other.
-- src/eventful/contracts/__init__.py: Codec has the contract of codecs.
-- src/eventful/codecs/json.py: JsonCodec with JsonCodec/RoundTrip. Json has the values of the `json`
--   module; what it writes and reads is a parameter.
-- src/eventful/persistence/postgres_persistence.py: PostgresPersistence has the state of the store, of
--   the database and of the driver, PostgresPersistence/Table the queries, and
--   PostgresPersistence/Operations and Schema the operations. PostgresPersistence/Rows and Pool have
--   rules for computations in a transaction, Appends, Reads and Migrations what the operations do, Log
--   the order of the rows, History, Retry and RoundTrip several operations together, and Quiet
--   appends with a driver that does not fail. Each step of the driver may raise, also
--   the commit and the release of the connection. A transaction that has raised gives the tables back,
--   unless the database had committed before. Position is the text of a position.
-- src/eventful/transports/redis.py: Redis has the state and the publisher, Redis/Consume the consumers
--   and the end of the transport, Redis/Objects, Lifecycle, Shutdown, Kept, Steps and Reach who owns a
--   consumer in every sequence of operations, and Redis/Topics the rounds of the iterator. A run of
--   the iterator has a number of rounds as fuel. It may wait for messages for ever, so that no number
--   is enough: after the rounds it still waits, and it may be resumed with any further number.
-- src/eventful/config.py: Config with Config/Typed. The global instance is passed along.
-- src/eventful/configuration/__init__.py: Configuration with Configuration/Precedence.
-- src/eventful/observability/__init__.py: Observability.
-- src/eventful/schemas/__init__.py: SchemaRegistry with SchemaRegistry/Verdict.
-- src/eventful/plugins/__init__.py: PluginManager with PluginManager/Discovery.
-- src/eventful/adapters/starlette.py: StarletteAdapter with StarletteAdapter/Lifespan.
-- Base has what they share: Boolean tests, lists by native numbers, and `dict` as an association
-- list in insertion order. Samples and the Tests modules run the definitions.
--
-- Application code is a parameter. `Runtime` says what a call of a listener, a middleware, an error
-- handler, a provider or a schema registry does to the whole state, so that callbacks may emit,
-- register and unregister recursively; a call returns a plain value or an awaitable, with what
-- awaiting and closing it do. A computation (`Comp`) takes a state to a result or an exception and
-- a state, and what was written before a raise stays written. All loops but that of a
-- Redis consumer run over lists that are fixed when the loop begins, so they are structural recursions
-- without fuel.
--
-- Not modelled: the interleaving of threads and of tasks inside an operation (each operation of the
-- stores and of the transport is one step, as under its lock, and each locked section of the bus),
-- other clients of a database, messages of exceptions, the checks of the constructors of the
-- PostgreSQL store and of the Redis transport, failures of the file system but in a replay, the
-- FastAPI adapter, the decorator `async_debounce` with its tasks, and the logging utilities.
pub mod Base
pub mod Exceptions
pub mod Event
pub mod Facade
pub mod Listener
pub mod Router
pub mod Dispatch
pub mod Runtime
pub mod Middleware
pub mod Bus
pub mod Codec
pub mod Config
pub mod Configuration
pub mod Json
pub mod JsonCodec
pub mod RateLimit
pub mod Redis
pub mod Position
pub mod MemoryStore
pub mod SchemaRegistry
pub mod Observability
pub mod PluginManager
pub mod FilePersistence
pub mod Debouncer
pub mod StarletteAdapter
pub mod PostgresPersistence
pub mod Samples
