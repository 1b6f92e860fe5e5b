-- ===== src/Lib.antt =====
-- incident_diag answers the question what broke: an API takes an incident, an agent worker lets a
-- language model investigate it within a budget, an ingestion worker prepares the documents that the
-- agent searches, and MySQL keeps what happened. This library models the part of the Go program that
-- decides what is written and when, and states what makes it correct.
--
-- The parts and their files:
-- - Summary: internal/summary/summary.go. `cap_at` is CapAt and `cap` is Cap.
-- - Store: internal/store. Rows has the row types, Errors the error kinds (internal/httpx/error.go) and
--   the classification of driver errors, Table what an UPDATE, a key lookup and an INSERT do to a list
--   of rows. Runs is runs.go: create_run, get_run, claim_run and finish_run are CreateRun, GetRun,
--   ClaimRun and FinishRun, with the constraints of agent_runs in
--   migrations/000001_initial_schema.up.sql. Documents is documents.go in the same way, Candidates is
--   reconcile.go. Page is the pagination of store.go (normalize, paginate), Incidents is incidents.go,
--   Listings has the list methods, Audit is steps.go, tool_calls.go and evidence.go with the foreign
--   keys. Each History replays a sequence of calls.
-- - Reconcile: internal/reconcile. due_document, due_run, backoff and min_backoff are the policy of
--   policy.go, and sweep is Sweep of runner.go.
-- - Ingest: internal/ingest. Sections is the walk of parse.go over the blocks of the Markdown parser
--   (parse_markdown), Chunk is chunk.go (build_chunks, merge_run, pack_units), Handler is handler.go
--   (handle, process, ingest).
-- - Agent: internal/agent. Types has the values of agent.go and of the packages it calls, Env what the
--   loop calls and does not implement. Context is context.go (build, estimate_tokens), Evidence is
--   evidence.go (decode_final, resolve_evidence), Tools is tools.go (call_tool), Knowledge is
--   knowledge.go (retrieve, render_hits). loop.go is State (runState, its bounds, decide), Endings (how
--   a step leaves the run), Steps (one step on each of its paths) and Loop (Run, forceFinish).
-- - Worker: internal/agentrun. handle is Handle of agentrun.go, investigate and finish are its two
--   parts. Report is report.go: report_step is ReportStep.
-- - Events: internal/events/read.go. deliver, replay and follow are its readers. Api: internal/api. Sse
--   is sse.go: stream is Server.stream, loop its loop and turn one pass of it. Validation is validate.go
--   (add, err) and page.go (parse_page_params), Fields its checks of fields, Upload is documents.go
--   (upload_document, read_upload), Runs is createRun and createIncident. Files: internal/files.
-- - Retry: the loop of attempts and the delays of internal/llm/llm.go and internal/embed/embed.go. Llm is
--   the former: chat is chat. Embed is the latter: embed is Embed, embed_batch is embedBatch, pair is pair.
-- - Opsmcp: internal/opsmcp. Logs is logs.go: scan_log is scanLog, read_line is readLine; its Call is
--   readServiceLogs with buildFilter.
-- - Mq: internal/mq. decode is Decode of message.go, run and handle are Run and handle of consumer.go.
-- - Lab: internal/lab. Checkout is checkout.go (validate_basket, put, get), Fault is fault.go (handle is
--   Handler), Pool is pool.go, as the steps of its callers.
-- - Text: what the source uses of Go's strings, strconv and fmt. Base: the names all modules share.
-- - Tests: small runs of the code, and each theorem at an input where its hypotheses hold.
--
-- How they meet: the sweep lists rows with Candidates and sends a message for each that is due; a worker
-- that gets the message claims the row with Store; the agent's loop runs under the claim, hands each
-- step to a callback, and its outcome is written by finish_run, which is fenced by the attempt number.
--
-- Representation. A Go string is the list of its bytes. An id is a ULID, a number in Store, where ids
-- are compared and ordered, and bytes in Agent. A time or duration is a number of microseconds in the
-- store, in which `x.Before(at.Add(-d))` is `x + d < at`. Every statement of the store takes the driver
-- error that keeps it from running, if any, so that each fault is an input; a transaction that does not
-- reach its commit leaves the database as it was, and the answer to the commit of claim_run may be lost. Rows are a list in the order of insertion, and ORDER
-- BY sorts it. Counters are natural numbers; the program keeps them in an int of 64 bits, which no run
-- within its budget exceeds. A negative step number in a citation is read as 0, which is no step either.
--
-- Parameters. The model, the tool server, the embedder, the search, the clock, the context, the
-- callback and the JSON decoder are fields of Env: arbitrary functions that read and change a world, so
-- that nothing is assumed of when a context ends, how long a call takes or what is answered. The texts
-- of prompt.go, %q and %.2f are functions to bytes. Parameters too are the Kafka producer of a sweep, the files, the
-- embedder and the search index of the ingestion, the collation that compares the texts of a column, the investigation that a message starts, what Redis
-- returns for XRANGE and XREAD, the handler and the commits of a consumer, the JSON of a message, the
-- reading of an id, the connection of a client, what a provider answers to each attempt, the JSON, the times
-- and the case folding of log lines, the tests of a fault's ratio, and the token
-- estimate of internal/ingest/tokens.go, a sum of floating-point numbers.
--
-- Bounds and fuel. The loop of the agent takes max_steps + 1 rounds of fuel, which is enough: a
-- round ends the run or takes a step, and the bound on steps ends it at the latest. The scan of a log
-- file takes a round for each byte, and Embed one for each text; both are enough, since a line and a batch
-- hold one at least. The other loops are structural, or run on the length of their input (TrimSpace, %d,
-- buildChunks).
--
-- Not modelled: the readers among the HTTP handlers, the Kafka, Elasticsearch and MCP clients, logging, metrics, tracing,
-- configuration, the rest of the demonstration services and the evaluation harness; the message texts of errors in
-- the store.
pub mod Base
pub mod Summary
pub mod Text
pub mod Store
pub mod Reconcile
pub mod Agent
pub mod Embed
pub mod Tests
pub mod Llm
pub mod Retry
pub mod Opsmcp
pub mod Ingest
pub mod Lab
pub mod Files
pub mod Events
pub mod Mq
pub mod Api
pub mod Worker
