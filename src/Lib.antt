-- ===== src/Lib.antt =====
-- A thread pool on a bounded multi-producer multi-consumer queue.
--
-- The parts of the program, from the bottom up:
--
--   include/mpmc/bounded_circular_queue.hpp is the ring: a vector of cells, each with a sequence
--   number, and two positions that are handed out as tickets. Ring.antt models the class: `Ring` is
--   its fields, `Cell` a cell with the object that lives in it, and each member function is one
--   definition in its name's spelling (`TryPush` is `try_push`, `DoPush` is `do_push`). Ring/Repr
--   says when a ring stands for a list of elements, Ring/Window is about the cyclic order of the
--   cells, Ring/Push and Ring/Pop are about one claim, Ring/Fifo has the specification, Ring/Batch the
--   batch calls, Ring/Capacity the constructor, Ring/Throwing a constructor of an element that throws.
--
--   Ring/Concurrent.antt has `DoPush` and `TryPop` once more, for threads that interleave: `Pc` is where
--   a thread stands between two accesses to shared memory, `access` is its next access, and a
--   schedule is a list of threads with what is chosen for each. Ring/Concurrent/Invariant
--   says what each place means for the ring, Frame, Moves, Heads and Returns are about one kind of
--   access each, Producer and Consumer about the accesses of the two calls, Safety, Quiet and Alone
--   about schedules.
--
--   include/mpmc/blocking_queue_adapter.hpp puts a count, a close flag and condition variables
--   around the ring. Adapter.antt models the class and the calls that do not block. `signals` lists the
--   notifications. Adapter/Spec has the specification, a closable bounded queue; Adapter/Refine and
--   Adapter/Steps relate the two. Adapter/Wait has the blocking calls: the calls of the other threads
--   are given as rounds, the first one before the call has its mutex and one for each wait.
--   Adapter/WaitSpec and Adapter/Waiting are their specification and proof, Adapter/Deadline that of the
--   calls with a deadline. Adapter/WaitBatch has
--   `WaitPushBatch` and `WaitPopBatch`, with a turn of the other threads for each element;
--   Adapter/WaitBatchSpec is the specification, and Adapter/WaitBatching, Adapter/WaitBatchPop and
--   Adapter/WaitBatchSize are about it.
--   Adapter/Sleep is about one wait of a consumer and the notifications that come too early for it.
--
--   include/thread_pool/fwd.hpp has the tasks that travel in the queue. Task.antt models them with
--   what their future holds, and Task/Settle is about calls of `Execute` and `Cancel` that follow one
--   another or overlap.
--
--   src/thread_pool.cpp and include/thread_pool/thread_pool.hpp are the pool. Pool.antt models its
--   counters and states, and the places where a thread can be inside `Post`, `Stop` or `WorkerLoop` as
--   a list or a number each; the queue carries the posted tasks and the exit tasks that
--   `EnqueueExitSignals` sends and workers pass on. Pool/Calls has the pieces of the calls between two
--   places, and in Pool/Schedule `step` takes one thread to its next place, so that any order of steps
--   is a schedule. Pool/Count says where a task can be, Pool/Posting, Pool/Working,
--   Pool/Lifecycle and Pool/Steps are about one step and many. Pool/Statistics has `GetStatistics` and
--   `ResetStatistics`, Pool/Names the names that are printed and what `ShutDown` calls, Pool/Access
--   the functions that read or set one value.
--
--   `Submit` of include/thread_pool/thread_pool.hpp is Submit.antt, one call with the states that its loop
--   loads and the calls of other threads during its waits as arguments; Submit/Placed and Submit/Account
--   are about what it leaves behind.
--
--   `WorkerLoop` of src/thread_pool.cpp and its `WorkerCounterHelper` are Worker.antt: the places where a
--   worker can be, what it finds in the queue as an argument of its step, and the counters of threads.
--   Worker/Sums, Worker/Changed and Worker/Tally are about the counters, Worker/Leaving about the end of
--   a worker.
--
--   `LoadBalancerLoop` of src/thread_pool.cpp grows and shrinks the set of workers. Balancer.antt models a
--   round of it; Balancer/Bounds is about the number of workers and Balancer/Pace about when it may change.
--
--   src/config.cpp and include/thread_pool/config.hpp load the configuration of a pool. Config.antt
--   models them over a record of JSON operations, `Json`, and a type for `double`; Config/RoundTrip has
--   the laws that are asked of the library, `JsonLaws`. Config/Loader is the class
--   `ThreadPoolConfigLoader`, and Config/Loads is about what its factories return.
--
--   The wait of a graceful `Stop` for the tasks, against the workers that notify it, is Drain.antt: one
--   access to shared memory at a time, with tasks that are only counted and a push whose count may come
--   late. Drain/Tidy and Drain/Woken are about runs without such a push, Drain/Missed is about one.
--
--   src/logger.cpp sets up a logging library. Logger.antt and Logger/Text are its input layer, Logger/Build
--   the construction layer and Logger/Global the functions that set the global logger, over a JSON
--   library (`Json`), spdlog (`Levels`, `Spdlog`) and files (`Files`) that are parameters. Logger/Once has
--   `EnsureInitialized` once more, for threads that interleave, and Logger/Once/Single how many loggers
--   it builds; Logger/Parsed, Logger/Built and
--   Logger/Ready are about the layers.
--
--   bench/ measures the pool. Benchmark.antt has the configuration of a benchmark, with the keys of its
--   file as tables that `LoadFromFile` and the scenarios of bench/main.cpp both read; Benchmark/Main the
--   command line and what `main` runs, Benchmark/Split how the tasks are shared among threads, and
--   Benchmark/Stops is about a file with a value of the wrong type.
--
-- Bounds. Positions and sequence numbers are 64 bits wide and wrap around as in the source
-- (Base/Words). The theorems ask that positions stay below 2^63 less the capacity: from there on the
-- source's difference of two `std::ptrdiff_t` overflows. A ring gets there after about 2^63 pushes.
--
-- Fuel. The retry loop of a ring operation runs on `attempts`. A call with no other thread between its
-- steps takes one round. `drain`, the loop of `Clear`, runs on
-- one more than the capacity.
--
-- Faults. `none` as the whole result of a ring operation stands for a read out of bounds, a move
-- from a cell with no object in it, or a loop without fuel.
--
-- What is not modelled. Memory orders weaker than sequential consistency. Only `TryPush` and
-- `TryPop` (with elements whose constructors do not throw), the drain of a graceful `Stop` and
-- `EnsureInitialized` interleave access by access; the other operations of the ring run one at a
-- time, and so do all of them in the adapter and in the pool. The alignment of the cells and
-- `std::launder` have no counterpart. A call of the adapter, the whole of `Clear` included, is one step
-- of the pool, with its pending count; what `Pending` and `ActiveTasks` give to a graceful `Stop` is an
-- argument of its step. A test of the state and what it makes a call of `Post` or `PostBatch` do at
-- once are one step, and so are the changes of `RecordTaskComplete`. A worker's test
-- of the state comes before its wait for a task, so a task may be taken in any state; the steps of
-- the pool do not track how many workers there are, so that the end of `Stop` does not wait for them,
-- and whether an exit task is a worker's own is an argument; the steps of the workers do not track
-- which tasks are in the queue. A new worker is counted before its first step. `Submit`, its count of
-- calls in progress, which a graceful `Stop` waits for, and `ResetStatistics` are not steps of the pool.
-- A call of `Execute` behind its test of `done_`, and a call of `Cancel`, is one step of its task.
-- `settle` in Task.antt stands for `std::promise`, which keeps its first result and throws at a second
-- one. The measurements and reports of the benchmark, and the scope timer and macros of
-- include/logger.hpp are left out.
pub mod Base
pub mod Ring
pub mod Adapter
pub mod Task
pub mod Pool
pub mod Config
pub mod Balancer
pub mod Worker
pub mod Submit
pub mod Drain
pub mod Logger
pub mod Benchmark
