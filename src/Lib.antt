-- ===== src/Lib.antt =====
-- Threaded request server and HTTP proxy (C): the request queue, the worker threads, the thread pool
-- and the programs built on them.
--
-- Memory.antt: the heap of the C program, the log of calls to the threads library, and commands over
--   both. A command returns, exits, meets undefined behaviour, blocks, or runs out of fuel. What the
--   C and threads libraries return is the parameter `Os`; messages on stderr and stdout are left
--   out.
-- Queue.antt and below: queue.c function by function, over the linked nodes in memory; Queue/Spec is
--   what queue.h promises. `queue_dequeue` takes the list of its wake-ups, each the change that
--   other threads made meanwhile; `queue_destroy` takes fuel, and one more than the number of nodes
--   is enough.
-- Worker.antt and below: the allocation and release of a worker (worker_thread.c).
-- Pool.antt and below: worker_func, thread_pool.c and the main thread of main.c as a step relation
--   over `n` workers; each critical section of queue.c is one step, and `rand()` is any number.
--   Pool/Objects and below: the pool object, its array and its workers in memory (thread_pool.c).
-- Text.antt, Proxy.antt, Proxy/Parse, Proxy/Forward: the request text of proxy_server/http_proxy.c.
--   The C string functions are written out over lists of character codes; a word that overruns its
--   array, or the use of one that `sscanf` did not fill, is `fault`.
-- Proxy/Relay and below: the sockets of http_proxy.c. What the network does is the parameter `Net`;
--   the result is the list of what the program does to sockets.
-- Proxy/Server.antt, Proxy/Main.antt: main of proxy_server/main.c; the accept loop over the
--   specification of its queue, and the listening socket from the set-up to the end.
-- Tasks.antt and below: the work functions and the request generator of tasks.c, M9/tasks.c and
--   M9/main.c, whose main up to the shutdown is in Tasks/Main over M9/ThreadPool; each `rand()` is a
--   number that the caller supplies.
-- M9.antt and below: do_work of M9/worker_thread.c and queue_dequeue of M9/queue.c, with the queue
--   as a list, in any interleaving of the workers; M9/Queue is M9/queue.c over the linked nodes,
--   M9/ThreadPool thread_pool_init of M9/thread_pool.c, and M9/Shutdown its thread_pool_destroy
--   beside the workers.
-- FutureValue.antt and below: M2/future_value.c, with the arithmetic on `double`, `strtod` and
--   `strtol` as parameters; the table has its 50 rows.
-- SystemInfo.antt and below: M5/system_info.c over the text of the files below /proc, with the
--   arithmetic on `float` and its `fscanf` as a parameter; a loop over lines has the length of the
--   text and one more as fuel, since every line has a character.
-- Primes.antt and below: the trial division of booksrc/ch3/rlimit_primes.c and of
--   booksrc/solutions_to_assgn/ch16/mt_primes1.c and mt_primes2.c, with their threads and buffers.
-- Copy.antt and below: booksrc/A_fileio/simpcp1.c and simpcp2.c, with a plan of how much each `read`
--   and `write` moves; the number of blocks and of rounds is fuel, and one more than the length of
--   the source, or of the block, is enough.
-- Copy/Threads and below: booksrc/solutions_to_assgn/ch18/mt_copy.c, in any order of its threads.
-- Turns.antt and below: two threads with one variable and one mutex, in any order of their accesses.
-- Bank.antt, Factorial.antt and below: booksrc/solutions_to_assgn/ch15/bankacc.c and
--   booksrc/ch15/facto.c as instances of Turns.antt; the list of the steps takes the place of fuel.
-- RunWalk.antt and below: booksrc/ch13/runwalk_timer.c over a list of signals.
-- React.antt and below: booksrc/ch13/react.c over a list of signals.
-- MemBugs.antt and below: booksrc/ch5/membugs.c over blocks of memory in which every access is
--   tested.
-- SharedMutex.antt and below: booksrc/ch15/pshared_mutex_demo.c, with the writes to the shared
--   buffer in any order.
-- ScatterGather.antt and below: booksrc/ch18/sgio_simple.c over a file and the results of its calls.
-- CondVar.antt and below: booksrc/ch15/cv_simple.c as a step relation.
-- Shell.antt and below: booksrc/ch10/simpsh_v1.c, simpsh_v2.c and simpsh_v3.c over the text of the
--   input; a round reads a character at least, so one more than their number is enough fuel.
-- Base.antt: the shared names, lists measured by native numbers, and Boolean tests.
--
-- Not modelled: the layout of printed output, the other sample programs of booksrc, and time stamps.
pub mod Base
pub mod Text
pub mod Memory
pub mod Queue
pub mod Worker
pub mod Pool
pub mod Proxy
pub mod Tasks
pub mod M9
pub mod FutureValue
pub mod Primes
pub mod Copy
pub mod SystemInfo
pub mod Turns
pub mod Shell
pub mod Factorial
pub mod Bank
pub mod MemBugs
pub mod SharedMutex
pub mod ScatterGather
pub mod CondVar
pub mod React
pub mod RunWalk
