-- ===== src/Lib.antt =====
-- A model of the SkyWalking Python agent, the library under skywalking/ of this repository, with the
-- properties that make it correct.
--
-- The agent gathers traces, logs, meters and profiles in the process of an application, and reports
-- them to a backend. A span is opened by a context, started on the stack of its thread, and stopped;
-- when the last live span of a context stops, the segment of the context is handed to the agent, which
-- queues it for the reporter threads. Traces go from process to process by the headers of a carrier,
-- and from thread to thread by snapshots. Commands from the backend start profiling tasks. The agent
-- itself is started, follows forks, and is shut down without blocking the application.
--
-- Files, and the code they model:
--   Prelude            lists, texts, dicts, queues, integers, exceptions: what Python provides
--   Utils              utils/counter.py, atomic_ref.py, integer.py, array.py
--   Sampling           sampling/sampling_service.py
--   Agent/DropLog      utils/reporter_log.py
--   Agent/Queues       the state of SkyWalkingAgent in agent/__init__.py, and archive_*
--   Agent/Backoff      report_with_backoff
--   Agent/Lifecycle    start, start_prefork_master, fork hooks; finalize_* of config.py
--   Agent/Shutdown     __fini, stop and _shutdown_sync_queue
--   Agent/Aio          SkyWalkingAgentAsync: its queues, callbacks and their clean-up
--   Agent/Tasks        the background tasks of the asyncio agent: outcomes, supervisor, clean-up
--   Trace/Component    the enum of __init__.py
--   Trace/Model        the objects of trace/, in a store of addresses
--   Trace/Carrier      trace/carrier.py
--   Trace/Env          options and services that the tracer reads
--   Trace/Spans        trace/span.py and trace/segment.py: what a span does to itself
--   Trace/Contexts     trace/context.py: contexts and the spans they make
--   Trace/Live         exit spans, start, stop and get_context
--   Trace/Snapshots    correlation, capture and continued; trace/snapshot.py
--   Trace/Message      the message of a segment: agent/protocol/grpc.py and kafka.py, client/http.py
--   Meter              meter/counter.py, meter/histogram.py
--   Profile/Task       profile_task.py, the check of a task
--   Profile/Service    profile/profile_service.py
--   Profile/Context    profile/profile_context.py: the shared state and attempt_profiling
--   Profile/Profiler   ProfileThread, ThreadProfiler and stop_tracing_profile
--   Profile/Schedule   all of these threads, interleaved, by what Profile/Sharing keeps
--   Command            command/: deserialization, the serial number cache, dispatch
--   Grpc/Address       utils/grpc_channel.py: the collector's addresses, parsed and printed
--   Grpc/Target        lookup, expansion and encoding into the target of the channel
--   Grpc/Connectivity  the log of connectivity and the kinds of errors
--   Grpc/Connection    agent/protocol/grpc.py: readiness and heartbeat, with client/grpc.py
--   Grpc/Streams       the reports of each kind, of grpc.py and of grpc_aio.py
--   Grpc/Aio           agent/protocol/grpc_aio.py: connectivity and the heartbeat, between its awaits
--   Http               agent/protocol/http.py and client/http.py: the reports of the threads
--   Http/Aio           report_log of agent/protocol/http_aio.py with client/http_aio.py
--   Tls/Env            utils/tls.py: the options, the host, the variables, calls that may raise
--   Tls/Pem            private keys wrapped as PKCS#8, and the blocks of trusted certificates
--   Tls/Temp           temporary files: written, cached, cleaned up at exit and left alone after a fork
--   Tls/Material       the decision between plaintext, TLS and mutual TLS
--   Tls/Clients        what grpc and requests are given
--   Tls/Context        the context of aiohttp
--   Plugins            plugins/__init__.py: version rules and installation
-- Paths are from skywalking/. A child of one of these modules holds the theorems about it, and the
-- modules named Tests and Fixtures hold concrete inputs.
--
-- How the code is translated. A method that mutates objects is a function from the store to a result
-- and the new store (Exec in Prelude/Exec): what was written before an exception stays written. Objects
-- that are shared are addresses in the store (World in Trace/Model), as are dicts that two objects
-- hold. What reads the stack of live spans takes the thread, or task, that runs it. A method that holds
-- a lock is one step, and threads interleave as lists of events; a method that takes several such steps
-- keeps a program counter between them (Stage, Pc). Where payloads must not be mixed up, they are
-- weighed by any weight (Prelude/Weights). One simplification is not the source's: log_dropped_throttled
-- is one step, though it holds no lock. Times are milliseconds, given as arguments.
-- Integers are unbounded, as Python's are.
--
-- Fuel. The loop that abandons a queue gets one round more than the queue has payloads: each round takes
-- one, and the last finds the queue empty. The search of a histogram gets as many rounds as there are
-- buckets: each makes the range shorter. Decimal printing gets one round more than the number it prints,
-- and each divides by ten. The writing of a file gets as many rounds as there are bytes: each writes one
-- at least, or raises. A text is searched for blocks, and cut into lines, in as many rounds as it has
-- characters, since each takes some.
--
-- Parameters. Base64 over UTF-8 and the tables of Unicode are the standard library's: an interface
-- with the documented laws, as are ipaddress, isspace and getaddrinfo, by which collector addresses
-- are read. How the calls of the grpc stubs end is an argument of the step. The profiling
-- service, as the tracer sees it, is an interface with its own state. What the flush of a protocol
-- takes out of a queue before its time is up, and whether its call fails, are arguments, and so is what has become of each task
-- when the wait for cancelled tasks is over. The versions of packages are those of packaging, an
-- interface without laws. For TLS the host is a parameter: what the file system, the ssl module, grpc
-- and Base64 answer, to each call by its number, since files may change while the agent decides. The
-- theorems about temporary files suppose that mkstemp makes a new file, that files of one's own can be
-- unlinked, and that nobody else writes to them.
--
-- Not modelled: the asyncio agent but for its queues, background tasks, grpc connection and the report
-- of logs over HTTP, gevent, the Kafka client but for the message of a segment, the sessions and
-- heartbeats over HTTP, the plugins themselves, the logging integration, the compilation of path
-- patterns, the lines of a dumped stack, and the command line. Numbers of meters are whole numbers
-- here, where the code allows floats. Numbers in commands are digits with a sign or none; spaces and
-- underscores, which int() also reads, are not.
pub mod Prelude
pub mod Utils
pub mod Sampling
pub mod Agent
pub mod Trace
pub mod Meter
pub mod Profile
pub mod Command
pub mod Grpc
pub mod Plugins
pub mod Http
pub mod Tls
