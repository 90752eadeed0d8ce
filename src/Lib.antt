-- ===== src/Lib.antt =====
-- A model of billiard, the process pool of Celery (a fork of multiprocessing), and theorems about it.
--
-- The program: a `Pool` (billiard/pool.py) keeps worker processes, a cache of jobs by number, and
-- threads. The task thread writes tasks to a pipe, the workers answer with ACK, READY and DEATH
-- messages, the result thread hands these to the jobs of the cache, the timeout thread looks for jobs
-- past their limits, and the supervisor reaps exited workers and starts new ones, under a limit on
-- restarts. A semaphore holds back the caller while every slot is in use.
--
-- Files, each with the code that it models:
--   Prelude: shared names; Prelude/Lists and Prelude/Int have lists and signed integers over the native
--     numbers, Prelude/Dict has dicts with number keys in the order of insertion.
--   Common/RestartState: billiard/common.py, restart_state, the limit on restarts.
--   Pool/Chunks: billiard/pool.py, the batches of map (_get_tasks, the chunk size of _map_async).
--   Pool/MapResult: class MapResult. Layout and Assembly follow the slices, Order and Failure have
--     the results.
--   Pool/IMap: IMapIterator and IMapUnorderedIterator.
--   Pool/ApplyResult: class ApplyResult.
--   Pool/Semaphore: LaxBoundedSemaphore.
--   Pool/ResultHandler: the handlers of ResultHandler._make_methods and on_state_change; Tracking has
--     the dicts that tell which worker runs which task.
--     Loop is the body of the thread and Shutdown its end, finish_at_shutdown.
--   Pool/Front: the calls of class Pool by which jobs are submitted; Lifecycle is close, terminate,
--     join and _terminate_pool, Calls runs any sequence of calls, with the callers that wait for a
--     slot, Submits and History follow the task queue.
--   Pool/Timeouts: one round of TimeoutHandler.handle_timeouts.
--   Pool/TaskHandler: class TaskHandler, which writes the tasks. Delivery has what it sends.
--   Pool/WorkerLoop: class Worker, what runs in a worker process: receive, workloop, _do_exit and
--     __call__. Protocol has the messages, Exits the exit codes, and Consumed is
--     _ensure_messages_consumed, whose 300 retries are those of the code.
--   Pool/Workers: the workers of the pool. Reap is _join_exited_workers, Refill is _repopulate_pool,
--     Index is _avail_index, Maintain is _maintain_pool, Resize is shrink,
--     Grow is grow. Fill has the pool after a refilling; Lost and Forgets follow the jobs of dead
--     workers.
--   Connection/Header, Connection/Stream: billiard/connection.py, the length prefix and the loops of
--     class Connection. Writes and Reads follow the loops, RoundTrip joins them.
--   Connection/Endpoint: class _ConnectionBase, its checks and limits.
--   Connection/Challenge: the authentication of Listener.accept and Client; Handshake runs both sides.
--   Queues: billiard/queues.py, Queue with its feeder thread. History runs any sequence of calls, Balance
--     and Kept tell what each keeps, Fifo is the abstract queue and Stuck a feeder that ended.
--     Queues/Joinable is JoinableQueue.
--   Synchronize/Condition: billiard/synchronize.py, class Condition; Steps is the relation between its
--     states, Kept what each step keeps, Wakes what they lead to. Synchronize/Event: class Event.
--   Managers/Server: billiard/managers.py, the objects of class Server; Dispatch is one round of
--     serve_client, Books, Counts and References the references that clients
--     hold.
--   Heap: billiard/heap.py, class Heap: the tables of free blocks and _free with its merging;
--     Heap/Alloc is _malloc, malloc and free. Bools, Sets, Tiles, Maps, Joins, Counts and Seqs are about
--     the tables, Sound is their invariant; Takes, Merges, Frees, Fits, Arenas and Cuts tell what each
--     operation keeps, Calls runs any sequence of calls, and Blocks has the results.
--   Process: billiard/process.py, the methods of BaseProcess and the set of children; Process/Fork is
--     class Popen of billiard/popen_fork.py. Process/Bootstrap is the exit code of _bootstrap, with
--     _shutdown_cleanup of billiard/common.py. Handle, Reach, Methods and Cleanup tell what each operation keeps,
--     Calls runs any sequence of calls, Children and Codes have the results.
-- A file Tests beside a component runs it on concrete inputs.
--
-- Objects are records, and a method is a function from the record, and what the call finds outside, to
-- the next record. Exceptions are constructors of a result type that keep the state as the raise leaves
-- it. User callbacks, the process table, signals and the clock are not in the repository: they are
-- arguments, and a callback is described by how its call ends. Effects on the outside (messages, signals,
-- callbacks) are a list of actions. Clock readings are whole ticks. Each handler runs as one step; the
-- theorems on sequences of messages quantify over their order.
--
-- Bounds: the loop of clear runs on as many rounds as there are slots, and each round frees one. The
-- search for an index and the refilling of the pool run over the range that the code gives. All other
-- loops recurse on the list that the code walks.
--
-- Not modelled: the setup of a worker process (after_fork, signals), the supervisor thread around
-- _maintain_pool, the constructor of Pool, the sockets and pipes under a connection, the proxies and
-- threads of the managers, the memory maps under an arena, the configuration of a process and what its
-- child does before `run`, and the other modules (contexts, and the ways to start a process other than
-- fork). The pickling of messages and the C extension are outside of the model.
pub mod Common
pub mod Connection
pub mod Heap
pub mod Managers
pub mod Pool
pub mod Prelude
pub mod Process
pub mod Queues
pub mod Synchronize
