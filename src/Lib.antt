-- ===== src/Lib.antt =====
-- godeepwiki: the task engine and the ingest core of deepwiki, a server that turns repositories into
-- a searchable wiki.
--
-- A client submits a task (ingest, refresh or wiki). `Manager.Submit` takes the refresh lock of the
-- repository if need be, looks at the depth of the queue, stores the task and publishes a thin
-- message. RabbitMQ hands the message to a worker of the pool, which claims the task in the table,
-- runs its executor and settles the message; a failed run goes back to `pending` and through a retry
-- queue, until the attempts are used up. The reconciler publishes again what was lost. An executor
-- runs the stages of a pipeline, which reports each stage to the table: an ingest clones the
-- repository, cuts its files into parent and child blocks, has the child blocks embedded and stores
-- and indexes them; a refresh does so for the files whose hash has changed; a wiki is written page
-- by page from the retrievers' hits, which fuse a text index and vectors. The services behind the
-- API submit tasks, list and delete repositories, and answer questions from the hits by a language
-- model. Requests pass two levels of rate limits. The configuration is changed by JSON patches that
-- etcd keeps as overrides.
--
-- Files, with the code they are about (under deepwiki/internal):
--   Common            shared names, lists over the native numbers, results, a map as association list
--   Model/Task        model/task.go: TaskType, TaskState, Task, TaskPatch, CanTransition
--   Model/Errors      model/errors.go: the codes, HTTPStatusOf, MessageOf, the sentinel errors
--   Model/Chunk       model/chunk.go: Chunk and ContextID
--   Model/Repo        model/repo.go: Repo and its states
--   Store             task/store.go: Table is the tasks table as a list of rows, Ops one function for
--                     each method of postgresTaskStore; Moves, Keys, Claim, Invariant and Listing are
--                     about them
--   Store/Chunks      store/chunk_store.go, and validateID of store/postgres.go
--   Store/Repos       store/repo_store.go
--   Store/Wikis       store/wiki_store.go: Save, Get and DeleteByRepo with pages in their order
--   Search/Index      search/opensearch.go: BulkIndex and DeleteByPaths on the documents of an index
--   Ingest            ingest/chunker.go: Windows is splitWindows, Lines strings.Split and strings.Join
--                     at the newline, Chunker ChunkFiles
--   Ingest/Pipeline   ingest/pipeline.go: StageWeights, StageError, Pipeline.Run, publishState
--   Ingest/Stages     ingest/pipeline.go: NewIngestStages and snapshotStats
--   Queue/Rabbit      queue/rabbitmq.go: DeclareTopology and the connection
--   Queue/Publisher   queue/publisher.go: Publish, PublishRetry, PublishToDLQ, QueueStats;
--                     Confirms is about many publishes
--   Queue/Consumer    queue/consumer.go: the supervising loop and the pump with its watchdog
--   Queue/Reconciler  queue/reconciler.go: Recover, RecoverStale
--   Lock              lock/redis_lock.go: Lock, Unlock, AcquireRefresh, ReleaseRefresh; Holding is about
--                     many calls
--   Manager/State     the fields of task.Manager with the table, the locks and the publisher it works on
--   Manager/Submit    task/manager.go: Submit and Cancel
--   Manager/Dispatch  task/manager.go: dispatch and resetAndRetry; task/dlq.go: handleDLQ
--   Manager/Pool      task/pool.go: handleOne, Run, Resize and the workers' loop
--   Service/Site      service/executors.go: buildIngestOptions, failTaskWith, and the tables of a run
--   Service/Ingesting   service/executors.go: IngestExecutor
--   Service/Refreshing  service/executors.go: RefreshExecutor with its comparison of hashes
--   Service/Wiki      service/executors.go: WikiExecutor with the checkpoints it goes on from
--   Service/Desk      the tables that the services work on, with the cascade of migrations/000001_init.up.sql
--   Service/Submitting  service/ingest_service.go, and Generate of service/wiki_service.go
--   Service/Catalog   service/repo_service.go: ListRepos, GetRepo, DeleteRepo
--   Service/Asking    service/ask_service.go: the prompt and the references; Answering is Ask and AskStream
--   RateLimit/Window  ratelimit/redis_lua.go: the script, on the sorted set of one key
--   RateLimit/Limiter   ratelimit/redis_lua.go: Allow, retryAfter; ratelimit/fallback.go
--   RateLimit/Middleware  api/middleware/ratelimit.go: the two levels, over any limiter
--   Retriever         retriever/hybrid.go and retriever/keyword.go: the two searches, the rank fusion and the
--                     backfill of parent blocks
--   Retriever/Rerank  retriever/rerank.go: the search with its fallback, the scores and the exchange sort
--   Config/Patch      config/manager.go: mergePatch, setDotted, flattenPatch, findSecretKeys
--   Config/Manager    config/manager.go: MergeOverrides, Apply, reload; config/etcd_source.go: ApplyTxn
--   Tests             the theorems at concrete inputs
--
-- Outer systems. An operation takes what they answer: a Boolean for each SQL statement or Redis call
-- that may fail (one that fails changes nothing), a `Wire` for what RabbitMQ and the network do in
-- one publish, a `DepthReply` for the queue's depth, the time as a number of the same unit
-- everywhere, and fresh identifiers and tokens. An executor is a function from the task and the
-- table to how it ended and the table it left. Where a message goes in the broker is the parameter
-- `DirectRouting`, which states AMQP's rule for direct exchanges. A score of the retrievers, a
-- float64, is the interface `Scores`; what encoding/json and the validator make of the configuration
-- is the interface `Decoder`. `StageEnv`, `ExecEnv` and `WikiEnv` hold the answers of one execution,
-- `RequestEnv`, `CatalogEnv` and `AskEnv` those of one request: git, the file tree that ParseFiles
-- finds, the embedder, the language model, each statement and each request. The token bucket of
-- golang.org/x/time/rate is the interface `Buckets`; `Reach` is what Redis does with the script. A
-- handler of the manager is one function; the claim, which decides between workers, is a single
-- statement in the code and here. The loop of the pool's workers is a step relation, in which a
-- worker's comparison of the two counters and each later change of one are steps of their own, a
-- Resize is one step, and so are the end of the context and the closing of the channel. A select of
-- Go takes any case that is ready; for a confirmation and a return, which one is part of the `Wire`.
--
-- Bounds. `exchange` recurses on fuel, the length of its list. `windows` recurses on fuel, the
-- number of lines, which is enough since each window begins after the one before it; the inner loops
-- recurse on the lines that are left. `insert_batches` and `bulk_batches` recurse on fuel, the
-- number of rows, and a batch is never empty. Numbers are unbounded naturals: sizes, depths and
-- times of this program are far from the limits of Go's int. A negative overlap, which the code
-- raises to 0, is 0 here.
--
-- Not modelled: logs, traces, metrics and JSON encoding; Manager.Start and Stop; Stop and the depth
-- probe of the consumer; the vector retriever, multi-query and the prompt of the reranker; the watch
-- loop and the loader of the configuration; the parser and its ignore rules; the prompts of the wiki
-- and its heartbeat; the details of API errors; the HTTP handlers, the clients of external services,
-- and the vector store. A quota of 0 with Redis out of reach divides by 0 in fallbackLimiter.allow,
-- which panics; a quotient by 0 is a number here.
pub mod Common
pub mod Model
pub mod Store
pub mod Ingest
pub mod Queue
pub mod RateLimit
pub mod Lock
pub mod Manager
pub mod Config
pub mod Search
pub mod Service
pub mod Retriever
pub mod Tests
