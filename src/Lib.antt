-- ===== src/Lib.antt =====
-- The runtime of AgentForge: what its Go code does with frames, runs, subagents, hooks, caches and the
-- output of commands.
--
-- How the parts interact. A client speaks frames (pkg/acp) to the server, whose session (internal/acp)
-- hands a request to a dispatcher and sends the events of the run back. A worker runs the task with
-- the runner (internal/agent), which streams the model's answer, calls tools and subagents (through
-- the supervisor of internal/orchestrator), asks the hooks (internal/hook) and the skill selector
-- (internal/skill), and publishes state, token, tool, error and done events (internal/queue). The
-- commands of tools write their output into the limited buffer of internal/sandbox.
--
-- Files.
--   Prelude and its children: shared names; texts as lists of bytes with what the code uses of
--     package strings (Text, TextOrder, Substrings, Cuts), lists up to order (Counts), maps with text
--     keys (Maps), `int` (Int), bits (Bits), and actions (Act): an action runs in a world, returns a
--     result or an error, and emits events.
--   Acp/Frame, Acp/Codec: pkg/acp/frame.go and codec.go. `write_frame` is `WriteFrame` over any
--     writer, `read_frame` is `ReadFrame` over the bytes that are to come.
--   Acp/EventCache: internal/acp/eventcache.go over two commands of Redis.
--   Acp/Message: the messages of pkg/acp/control.go and the types of internal/acp/server.go.
--   Acp/Session: `serve`, `handleRun`, `handleResume`, `makeEmit` and `send` of
--     internal/acp/session.go, as actions of the goroutine that serves; the frames emitted are those
--     put into the queue. Acp/Session/Writer: the same queue between that goroutine and
--     `writerLoop`, as a step relation.
--   Queue/Event: the task and event types of internal/queue (pubsub.go, stream.go, tool_stream.go).
--   Queue/Consumer: `Consume` of internal/queue/stream.go and tool_stream.go, with `deadLetter` and
--     `isBusyGroup`, over the commands of Redis on streams; the effects say what became of each entry.
--   Orchestrator/Supervisor: `Supervisor.Dispatch` of internal/orchestrator/types.go.
--   Orchestrator/Pipeline: internal/orchestrator/pipeline.go: `TopologicalOrder` (Pipeline), with what
--     holds in its loop (Release, Invariant), `ParsePipeline` and `ValidatePipeline` (Parse), and
--     `RunPipeline` (Run) over `dispatch`.
--   History: internal/history/redis_store.go over the commands of Redis (Redis), one action per method
--     (Store); Messages has the list of messages that the interface of store.go speaks of, Changes,
--     Keeps, Writes and Refines lead from one to the other, and Spec states the contract.
--   ControlPlane: internal/controlplane: types.go (Types), the containers of docker.go (Docker), and
--     service.go: the life of agents (Service), the events of runs (Runs), and Health; Workspace has the
--     paths of previews. Finish and Deletes have what is proved of runs and of batch deletes.
--   Tool/Registry: internal/tool/tool.go. Tool/Runner: internal/tool/runner.go, with the driver, the
--     hook client and the tools as parameters; the effects are what it asks them. Tool/Paths: the paths
--     and the listing of internal/tool/fs.go, and the allow list of http.go.
--   Agent/State: internal/agent/state.go. Agent/Types: the messages of internal/llm/provider.go,
--     internal/history/store.go and internal/hook/types.go, and what a runner is connected to.
--   Agent/Runner: internal/agent/runner.go: Publish (`publishState`, `fail`), Stream (`streamOnce`),
--     Subagent (`RunChild`, `dispatchSubagent`), Tools (the calls of one answer), Context (history,
--     compaction, skills, chunks, hooks), Loop (`Run`). Agent/Trace: the published state events as
--     walks through the states. Agent/Limits: the counts of subagents.
--   Llm/OpenAi: internal/llm/openai.go: the request, the answer, and the goroutine that reads a stream of
--     server-sent events, with the tool calls that it joins (Calls); Described says what is to be sent.
--   Hook/Manifest, Hook/Engine: internal/hook/engine.go. Skill/CachedSelector: the cache of
--     internal/skill/selector.go. Sandbox/CapWriter: `capWriter` of internal/sandbox/driver.go.
--   Sandbox/MemoryPool: the pool of `MemoryDriver` of internal/sandbox/memory.go as a step relation.
--   The modules named Tests hold runs on concrete data.
--
-- Bounds and fuel. A byte is a number below 256; the sequence numbers of frames wrap at 2 ^ 64 as
-- they do in Go; the loop of `readUvarint` is given its ten rounds. The loop of `Run` recurses on
-- the rounds of tools left, at first `maxToolSteps`. The eviction of the skill cache has one round
-- per entry, and the theorem on it says that these are enough. The loop of `TopologicalOrder` has one
-- round per step, and a theorem says that it never needs more. The loop of `serve` takes the number of
-- frames after which it is looked at, and says whether it still goes on. All other loops are
-- structural, `replace_all` with a count of characters to skip.
--
-- What is not modelled. Contexts, time-outs and cancellation: a call may fail with any error instead.
-- Traces, metrics and logs. JSON, protobuf, Redis, SQL, Docker, WASM and the model's HTTP interface are
-- parameters, and so are, in the runner, the summary of a compaction and the rendering of skills and
-- chunks. The choice of a provider by the name of the model, the tools that run commands or fetch pages,
-- the Docker drivers of the sandboxes, RAG, the scheduler and the ACP client are not modelled;
-- publishing to Redis, the HTTP handlers, process start and configuration are outside the scope.
pub mod Prelude
pub mod Acp
pub mod Queue
pub mod Orchestrator
pub mod Llm
pub mod History
pub mod Agent
pub mod Hook
pub mod Tool
pub mod Sandbox
pub mod Skill
pub mod ControlPlane
