-- ===== src/Lib.antt =====
-- CodeHive: the API server of api/src and the dashboard of dashboard/src.
--
-- A client submits code to the API server; the server puts a job into a queue and runs the code itself.
-- Workers may ask for queued jobs and report their results, and clients poll for results, list jobs and
-- follow events over a WebSocket. The queue is kept in Redis where the environment names one, and in
-- memory where it does not.
--
-- Files and what they model:
--   Types, Errors            api/src/types/index.ts, api/src/lib/errors.ts
--   Queue/Platform           what is relied on of ioredis and of `JSON`
--   Queue/World              the module variables of the queue and the heap of `Job` objects
--   Queue/Memory             the class `MemoryQueue` of api/src/services/queue.ts
--   Queue/Service            the functions that api/src/services/queue.ts exports
--   Queue/Spec               an abstract queue: a map of jobs and the order of waiting identifiers;
--                            Memory and Redis relate each backend to it, Agree compares the two, Fifo
--                            follows submitted jobs, Serves is the view of the clients of the queue,
--                            Results is about `updateResult`
--   Commands                 those functions over Redis, one command at a time: the commands of all calls
--                            interleave, and any of them, or its reply, may be lost, or be executed again.
--                            Holds, Effects and Executed follow what a command does to the abstract queue,
--                            Coherent has the invariant, Safety what never happens; Overlap is about two
--                            updates of one job, and about an `enqueue` that is executed twice
--   Executor/Languages       the language table of api/src/services/executor.ts, and the list of
--                            supported languages of api/src/routes/execute.ts
--   Executor/Process         `runProcess`: its callbacks over the events of a child process, whose streams
--                            are chunks of bytes; the decoding of one chunk is an argument
--   Executor/Run             `executeJob`; Phases, Memory and Redis follow a run over each backend, and
--                            Failed is about one that fails over either; Ends is about `runProcess`
--   Http                     the replies of the Fastify handlers
--   Routes/Execute           api/src/routes/execute.ts, with the part of `executeJob` that comes before the
--                            reply to a submission, which Begun is about
--   Routes/WorkerApi         api/src/routes/worker-api.ts
--   Routes/Health            api/src/routes/health.ts and `healthCheck` of api/src/services/db.ts
--   Database                 api/src/services/db.ts; Closed is about a pool that was ended
--   Routes/Executions        `GET /api/executions` of api/src/routes/executions.ts; Counts is about
--                            `getJobCount`, Filtered about `getJobs`, Listing about the reply
--   Routes/Stats             `GET /api/stats` of the same file; Average describes its numbers job by job
--   Routes/Workers           api/src/routes/workers.ts
--   Routes/Requests          every request behind the hook of Auth and the rate limiter, with the handler of
--                            its route; which requests the limiter's plugin refuses is an argument
--   Routes/Polling, Routes/WorkerRun   chains of requests
--   Events                   the event bus of api/src/services/events.ts with its callbacks; Hears is about
--                            a subscriber, Watched about the observer among other callbacks
--   Observer                 api/src/services/ws-observer.ts, the observer of that bus
--   Auth                     api/src/plugins/auth.ts
--   Server                   api/src/index.ts, `closePool` of api/src/services/db.ts and `closeRedis`;
--                            Config has the options of the server, its plugins, the pool and Redis
--   System                   the calls of the routes and of `executeJob` on the queue, interleaved;
--                            Changes, Kept and Formed have the invariant of the abstract queue,
--                            Simulates relates the steps to it, Lasting has what stays; Safety and
--                            Turns are about the order of the jobs, Polls is about what clients see, and
--                            Shown about what the dashboard's page shows. Requests and Served relate the
--                            handlers to these steps, and HandedOut is about what workers are answered
--   Dashboard/Client         `request`, the client methods, `connectWS` and `formatDuration` of
--                            dashboard/src/lib/api.ts; Format has `formatUptime` and `timeAgo`
--   Dashboard/Stores         dashboard/src/lib/stores.ts; Socket has its `initWS`
--   Dashboard/Page           the script of dashboard/src/routes/Executions.svelte, with its polling loop
--   Dashboard/History        the markup of that page, and dashboard/src/routes/Workers.svelte
--   Dashboard/App            dashboard/src/App.svelte and dashboard/src/routes/Dashboard.svelte
--   Dashboard/Card, Badge    dashboard/src/components
--   Dashboard/Settings       dashboard/src/routes/Settings.svelte
--   Dashboard/Layout         the frame of dashboard/src/App.svelte with the view that is mounted
--   Routes/Root              api/src/routes/root.ts
--
-- How the code corresponds. A JavaScript function is a definition of the same name in snake case. An
-- asynchronous function is an action: a function of the state of the server process into a result, which is
-- a value or a thrown error, and the state behind it. `getJob` and `dequeue` return references into a heap
-- of `Job` objects, since over memory the callers share the stored object and over Redis they get a copy
-- that `JSON.parse` makes. The theorems on one handler or run take its calls one after the other; System
-- lets the calls of all handlers and runs interleave. A call of the queue is one step there, but for an
-- `updateJob` over Redis that other calls divide, which is a step that reads and one that writes a copy
-- back. Commands takes all commands of all calls over Redis apart, each one a step. Processes, sockets,
-- timers and the WebSocket's clients are met as sequences of events. Identifiers, times and what the file
-- system and the process answer are arguments. Redis and `JSON` are a record of operations with their
-- documented laws, of which Queue/Sample is an instance; zod schemas are records with what they guarantee;
-- doubles are a record of operations and laws, and the printing of numbers and dates is a parameter.
-- Numbers that may be negative are integers. Markup is the list of the classes and texts that it shows. The
-- polling loop runs on its 60 rounds, which are the bound of the code; all other loops run over lists, so
-- that no fuel is needed.
--
-- Not modelled: what the routes answer when a command of Redis is lost; interleavings in which the MULTI of
-- `enqueue` is executed twice because its reply was lost, of which Overlap has the effect on an empty
-- queue; how `@fastify/rate-limit` counts; what Fastify, its plugins and node-postgres do inside, styles
-- and nesting of the Svelte components, and the orchestrator and the worker, which are in other languages.
pub mod Prelude
pub mod Types
pub mod Errors
pub mod Queue
pub mod Executor
pub mod Http
pub mod Routes
pub mod System
pub mod Commands
pub mod Observer
pub mod Events
pub mod Database
pub mod Auth
pub mod Server
pub mod Dashboard
