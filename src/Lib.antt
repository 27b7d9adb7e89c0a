-- ===== src/Lib.antt =====
-- LMRS, the Local Model Runtime Service: admission, queueing, execution and model residency.
--
-- A request arrives with a token breakdown. `lmrs/estimation.py` sizes it in tokens and bytes,
-- `lmrs/admission.py` compares the size with a capacity snapshot and decides to execute, queue or
-- reject, `lmrs/queue.py` keeps what waits and picks what is launched, `lmrs/commands.py` composes
-- these for the estimate and chat commands and calls the runtime, `lmrs/vram.py` measures and stores
-- the memory that the capacity is derived from, `lmrs/calibration.py` learns the cost of a token, and
-- `lmrs/model_lifecycle.py` decides which model is resident and switches between models,
-- `lmrs/model_cache.py` keeps the models on disk, and `lmrs/manager.py` starts and stops the server.
--
-- Files, each with the code that it models:
--   Prelude and below   shared: texts, lists, signed integers, exceptions as values, Python dicts with
--                       text keys in insertion order, JSON values, `str` and `int`
--   Estimation          lmrs/estimation.py, every function; Estimation/Laws proves
--   Admission           lmrs/admission.py, every function; Admission/Decision and /Record prove
--   Queue               lmrs/queue.py, every function; Queue/Edits, /Order, /Schedule, /Dispatch prove
--   Vram                lmrs/vram.py, the two pools and the static figure; Vram/Pools proves
--   Vram/Store          lmrs/vram.py, VramFactsStore; Vram/Store/Honest and /History prove
--   Calibration         lmrs/calibration.py, build_calibration_profile; Calibration/Loop
--                       and /Profile prove
--   Commands            lmrs/commands.py, the outcomes and PublicCommandExecutor
--   Commands/Contract   lmrs/commands.py, the tables of PublicCommandContract
--   Commands/Handler    lmrs/commands.py, CanonicalChatHandler; Commands/Paths, /Queued,
--                       /Agreement and /Launchable prove
--   Lifecycle           lmrs/model_lifecycle.py, its records
--   Lifecycle/Memory, Lifecycle/Unload
--                       lmrs/model_lifecycle.py, ModelMemoryLifecycle; Lifecycle/Residency and
--                       /Reports prove
--   Lifecycle/Switch    lmrs/model_lifecycle.py, switch_model; Lifecycle/Switching, /Blocked, /Kept,
--                       /KeptSwitch and /Flags prove
--   Manager             lmrs/manager.py, the operating system as a parameter
--   Manager/State, /Probe, /Process, /Control
--                       lmrs/manager.py, every function; Manager/Polling, /Endings, /After, /Outcomes
--                       and /Started prove
--   ModelCache          lmrs/model_cache.py, its records and what a disk holds
--   ModelCache/Layout, /Paths, /Snapshots, /Scan
--                       lmrs/model_cache.py, the names, the paths, the functions on a repository
--                       and `_record`; ModelCache/Names proves the round trip of the names
--   ModelCache/Commands, /Deletion, /Inspection
--                       lmrs/model_cache.py, the commands of DiskModelCache; ModelCache/Complete,
--                       /Reported, /Effects and /Deleted prove
--   ModelCache/Loading  the disk cache as the collaborator of the model lifecycle
--   Configuration       lmrs/configuration.py, with /KvCache and /Validation
--   Capacity            lmrs/adapter/registration.py, the queue holder and the settings, with
--                       /Payload (vram_payload, capacity_snapshot); /Holder and /Bounded prove
--   LmCache             lmrs/lmcache.py, status and telemetry
--   LmCache/Disk, /Removal
--                       lmrs/lmcache.py, paths and purge; LmCache/Walk, /Purge, /Names, /Bindings and
--                       /Exact prove
--   Runtime             lmrs/runtime_client.py, VLLMOpenAIClient; Runtime/Payload, /Execution and
--                       /Executor, RuntimeClient; Runtime/Failures proves
--   Examples and below  concrete inputs, on which the theorems are applied
--
-- Records stand for the dataclasses, with the same field names (`ok` of a result is `is_ok`). An
-- exception is a value of `Result`, with the name of its class and its message. Python integers are
-- unbounded and so is ℤ here, a sign and a native number; there is no machine word to overflow. A
-- method that calls out (the runtime client, the runtime probe, the disk cache, the recorder, a
-- progress callback, the owner of the queue, the reader of the capacity, the executor) takes the
-- callee as a parameter that reads and changes a world `S`, may raise, and is otherwise free; the
-- sequence of calls is the sequence in which the world is passed on. `log` and `calls` are readings of
-- that world, with the hypotheses that say which callee changes them.
--
-- `_SWITCHES_IN_PROGRESS` is part of the world of a switch, so that the collaborators of a switch can
-- read it while it runs.
--
-- The manager's commands read and change the operating system, which is a parameter, and the
-- process-id file, which is state; an operator calls them, and they share no state with the service.
-- The adapter's `vram_payload` gathers the capacity from the facts store, the GPU reading, the
-- lifecycle's residency and the held queue. The disk cache fills the interface that `load_model` asks.
--
-- The loops are recursions over their lists, but for two with fuel. `decimal` has `n + 1` rounds for
-- `n`, and each round but the last divides by ten. A polling loop of the manager has one round for
-- each millisecond of its timeout and one more: each round sleeps, so the deadline passes first.
--
-- Simplified: a stored JSON document holds no floats, and the order of its keys on disk is not kept;
-- `int` of a text reads ASCII digits; an `object` payload is the reply type `R` of the runtime; the
-- text that `repr` would quote in two error messages is left out or unquoted; a request gives all
-- keyword arguments, so that the TypeError of a missing one does not arise.
--
-- Times of the manager are whole milliseconds; its process-id file is kept by its lines, so a
-- configuration path has no line break. The disk of the model cache is data: directories by name, the
-- entries of a snapshot with what they lead to, documents that parse; a write that fails writes
-- nothing. The disk that a purge sees has no symbolic links and can be read; which removal raises, and
-- what it leaves, is an argument. The HTTP request of the runtime
-- client and the duration of its call are arguments; a request is read by its fields, whether it is a
-- mapping or an object, and what JSON holds has no floats.
--
-- Not modelled: reading the GPU and the fraction for vLLM (floats), the commands and schemas of the
-- adapter, gateway, telemetry and the sums over the metrics text (floats), the generator of the
-- configuration, proxy, command line, client and maintenance tools.
pub mod Prelude
pub mod Estimation
pub mod Admission
pub mod Queue
pub mod Vram
pub mod Calibration
pub mod Commands
pub mod Lifecycle
pub mod Manager
pub mod ModelCache
pub mod Configuration
pub mod Capacity
pub mod LmCache
pub mod Runtime
pub mod Examples
