-- ===== src/Lib.antt =====
-- asynq, a distributed task queue on Redis, modelled from its Go code and its Lua scripts.
--
-- A client adds tasks to queues in Redis; the workers of a server take them, run the handler that
-- the multiplexer finds for their type, and end them; a forwarder moves scheduled and retried tasks
-- that are due, a janitor deletes completed tasks that have expired, and a recoverer retries or
-- archives tasks whose lease ran out. All state that the parts share is in Redis and is changed by
-- scripts, each of which runs alone: a script is a function from the keys of a queue to the keys as
-- it leaves them and its reply, and a history of a queue is a sequence of scripts in any order.
--
-- Common: names of the libraries, Boolean tests, lists over the native numbers.
-- Redis: the list and sorted set commands that the scripts call, as a record with their documented
--   behaviour as laws; Redis is not code of this repository. Redis.Model fills the record, so the
--   laws can hold together.
-- Task: task states and their names (internal/base/base.go), and the hash at a task's key.
-- Queue: the keys of a queue (internal/base/base.go) and the scripts of internal/rdb/rdb.go.
--   Queue.Enqueue has enqueueCmd, scheduleCmd, addToGroupCmd and their unique forms; Queue.Work has
--   dequeueCmd, requeueCmd, listLeaseExpiredCmd and the ZADD XX of ExtendLease; Queue.Finish has
--   doneCmd, markAsCompleteCmd, their unique forms and retryCmd; Queue.Archive has archiveCmd;
--   Queue.Forward has forwardCmd and forwardAll; Queue.Cleanup has deleteExpiredCompletedTasksCmd,
--   its loop and writeResultCmd. Queue.Invariant and its children are about the invariant of the
--   keys, Queue.Steps about histories of scripts, Queue.Fate about the ends of a task,
--   Queue.Fifo about the order of the pending list, Queue.Several about Dequeue over several queues,
--   Queue.Unique about uniqueness locks. Queue.Aggregate has the scripts on groups and aggregation
--   sets, and Queue.Gather is about what they move. Queue.Inspect has the scripts of
--   internal/rdb/inspect.go that change a queue: Queue.Inspect.Run RunTask and its kin, Bury
--   ArchiveTask, Erase DeleteTask and UpdateTaskPayload, Remove RemoveQueue, and Acts all of them as
--   steps; Queue.ByHand is about what RunTask and DeleteTask come to.
-- DefaultQueue: the queue `default`, whose pending and active tasks are sorted sets, and its scripts in
--   internal/rdb/receiver_target_queue.go: DefaultQueue.Enqueue, Work, Forward and Run have them.
--   DefaultQueue.Refine says what they are to the scripts for lists, DefaultQueue.History has histories
--   of them and of those other scripts that leave pending and active tasks as they are, DefaultQueue.Scores and Ends are about the order of sorted sets.
-- Rdb: the broker's methods around the scripts (internal/rdb/rdb.go): Enqueue, EnqueueUnique, Schedule,
--   ScheduleUnique, AddToGroup, AddToGroupUnique, Done, MarkAsComplete, Retry, Archive, Requeue,
--   ExtendLease and WriteResult. Rdb.Life follows one unique task, Rdb.Calls has the methods, with
--   Dequeue and one run of forwarding or of the deletion of expired tasks, as steps of a history, and
--   Rdb.Idle and Rdb.Named are about the set of queues.
-- Heartbeat: the map of workers and the beat that extends their leases (heartbeat.go), over Lease and
--   Rdb. Heartbeat.Beat is about what a beat does to the leases.
-- Server: Start, Stop and Shutdown of server.go, and processor.stop. Server.Trace is about what any
--   calls of them do to the parts of a server, and Server.Trace.Counts counts it. Server.Config has NewServerFromRedisClient with its
--   defaults and DefaultRetryDelayFunc; Server.Settings and Server.Delay are about them.
-- Scheduler: Register, Unregister and newScheduler of scheduler.go; Scheduler.Beat has the heartbeat,
--   Scheduler.Jobs the run of a job with the client, and Scheduler.Life Start and Shutdown,
--   with Scheduler.Life.Counts.
--   Scheduler.Registry is about the scheduler's ids and the entries of cron, a library that is a
--   record with its laws; Scheduler.Positions fills the record.
-- Aggregator: a check of aggregator.go over the broker and the client. Aggregator.Slots has the checks
--   that run at once and the end of the goroutine; Aggregator.Trace and Pass are about one check.
-- Errors: internal/errors/errors.go; Errors.Chain is about E and the chain of an error.
-- Periodic: the sync of periodic_task_manager.go, with Register and Unregister of scheduler.go as it
--   uses them. Periodic.Sync is about what a sync comes to.
-- Semaphore: x/rate/semaphore.go.
-- Mux: servemux.go.
-- Processor: processor.go. Processor.Priority has normalizeQueues, gcd, uniq and queues;
--   Processor.Deadline computeDeadline; Processor.Worker the select at the end of a task's goroutine
--   and the handlers that it calls; Processor.Decisions two of their cases. Processor.Strict has
--   sortByPriority, and Processor.Strict.Served is about Dequeue with strict priorities; sorting is a
--   parameter with its laws, which Processor.Strict.Sorting fills.
-- Lease: the lease of a worker on its task (internal/base/base.go).
-- Syncer: the requests to the broker that failed and are made again (syncer.go).
-- Client: composeOptions, EnqueueContext and the calls below it (client.go). Client.Options is about
--   the options, Client.Message about the message and the call.
-- Recoverer: recoverLeaseExpiredTasks of recoverer.go, over the scripts of Queue.
--
-- Listing: what the inspector reads of one queue (internal/rdb/inspect.go): listMessages,
--   listZSetEntries and the seven listings over them; Listing.Stats has CurrentStats, HistoricalStats
--   and GetTaskInfo. Listing.Pages and Listing.Order are about pages and their order, Listing.One about
--   one task and the head of the line.
-- Inspector: the listings as users call them (inspector.go), with their options. Inspector.Orphans is
--   about the active tasks that are marked as orphaned; Inspector.Changes has the methods that change
--   a queue, and Inspector.Refusals is about their errors.
--
-- Conventions. Texts that are only compared (ids, keys, messages) are numbers, and 0 is the empty
-- text; times are Unix seconds, or nanoseconds where the code has them. A queue of Queue, Rdb and
-- the modules over them is any but `default`: its pending and active tasks are lists, so the scripts'
-- TYPE tests take their second branch. In DefaultQueue a score, a whole number of at least -2^53, is
-- the natural number greater by 2^53; a score that is no whole number is not in the model. The score
-- that a script writes by tostring has 14 significant digits, and is an integer. A lock's expiry and the pause of a queue are steps of their own in a history. Redis does
-- not roll a script back, so a script that replies with an error midway has changed what stood
-- before it.
--
-- Fuel. The loop of forwardAll moves at least one task in each round but the last, and the loop of
-- DeleteExpiredCompletedTasks deletes at least one, so that more fuel than tasks in the sets is
-- enough.
--
-- Not modelled: the transaction of receiver-target tasks, whose Lua program is generated; what the
-- scripts of other queues do, by ZREM, to a pending or active task of the queue `default`; the inspector's
-- memory usage, groups, servers and scheduler entries, errors of the connection, the inside of the cron
-- library, the connection options, and the loops of the other background goroutines. The encoding of
-- messages, the user's functions, the floating-point conversion in computeDeadline, the shuffle of queue names, the test
-- for a blank pattern and what errors are like are arguments. Lua's limit on the results of unpack is
-- left out.
pub mod Common
pub mod Redis
pub mod Task
pub mod Queue
pub mod Semaphore
pub mod Mux
pub mod Processor
pub mod Aggregator
pub mod Client
pub mod DefaultQueue
pub mod Errors
pub mod Heartbeat
pub mod Inspector
pub mod Lease
pub mod Listing
pub mod Periodic
pub mod Rdb
pub mod Recoverer
pub mod Scheduler
pub mod Server
pub mod Syncer
