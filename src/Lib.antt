-- ===== src/Lib.antt =====
-- DemoCode: the algorithms and the self-contained components of the repository, and what they keep.
--
-- The repository is a collection of programs in C++. Those that carry logic of their own, and not
-- only calls of a library, are modelled here, one module each:
--   Avl         algorithm_about/binary_tree/AVL_tree.cpp. Avl.Tree has the recursive `AddNode_re` and
--               `DelNode_re` with `Height`, `LL`, `RR`, `LR` and `RL`; Avl.Iter has the loops
--               `AddNode` and `DelNode` over the stack of ancestors.
--   RbTree      algorithm_about/binary_tree/RB_tree.cpp. `AddNode`, `AddFixUp` and `RebuildCon`, on a
--               node with the path of its ancestors, which stands for the parent pointers.
--               RbTree.Delete has `DelNode` and `DelFixUp`.
--   MaxHeap     algorithm_about/binary_tree/max_heap.cpp, the class on its vector.
--   Subarray    algorithm_about/classic_problem/maximum_subarray.cpp, its three searches.
--   Palindrome  algorithm_about/classic_problem/longest_palindrome.cpp: `longestPalindrome1`, which
--               tries each middle, and `longestPalindrome2`, which is Manacher's algorithm.
--   Sort        algorithm_about/sort_about: Sort.Merge, Sort.Quick, Sort.Heap, and in Sort.Counting
--               the counting sort and the radix sort.
--   Circular    project_about/feedproxy/public/eddid_cricular_buffer.h, the bounded buffer over a list
--               of data and a list of free nodes.
--   WebSocket   third_party_about/websocket/ws_proto.hpp with the constants of ws_common.h:
--               WebSocket.Parse has `ParseMsg`, WebSocket.Pack has `PackMsg`.
--   FileCrop    project_about/fileCrop: `SeparateFile` of main.cpp, which cuts a file in parts for the
--               column tasks, and `Run` of code_task.cpp and date_task.cpp, which keep some lines.
--               FileCrop.Columns has `Run` of col_task.cpp, which keeps some columns of each line.
--   EvLoop      project_about/feedproxy/levservice/ev_loop.h and ev_loop.cpp: the event loops, how many
--               connections each has, and which is taken next.
--   Service     project_about/feedproxy/levservice/service.h and public/cli_context.h. Service has the
--               state, closing, recycling and accepting on a context; Service.Server has `Initialize`,
--               `Start`, `Stop` and `AcceptHelper`; Service.Monitor has the idle entries and their buckets.
--   Convert     project_about/feedproxy/convertservice/convert_utils.h: Convert.Codes has the tables of
--               codes, Convert.Clock and Convert.HumanTime the times, Convert.Quote the update of a quote.
--   LockFree    lock_free_queue/lock_free_queue.hpp: the accesses of `EnQueue` and `DeQueue`, with the
--               deletion of nodes and the use of their addresses for new ones, as a step relation, and any interleaving of the steps of threads.
--   NanoLog     project_about/nano_log/eddid_nano_logger.h, of which feedproxy/logtest has a copy. NanoLog has
--               `LogLine` and how its arguments are written, NanoLog.Printing how they are printed, and
--               NanoLog.Worker the logger with its thread, whose events come in any order.
-- Prelude has what they share: Boolean tests, lists over the native numbers, integers, the monad of
-- `Option`, sorted lists as sets, lists as bags, arrays of integers, words that wrap around, and how often
-- a list has an item.
-- The service holds the event loops, asks them for the loop of a new connection, and gives a closed one
-- back; its idle entries stand in a circular buffer. The other programs do not call one another. MaxHeap
-- uses the order of a heap and the exchange with a child that Sort.Heap has, Convert.Clock reads numbers by
-- the `atoi` of FileCrop, and the two trees are compared with the same sorted sets.
--
-- How the code is read. A structure is a record or a data type, a vector or an array is the list of
-- its items, and a function that changes its argument returns the new value. `none` is a fault: a read
-- or a write outside an array, or through a null pointer. An `int` that is only compared is an
-- integer. Words that wrap around, such as the counts of the circular buffer and the lengths in a
-- frame header, keep their modulus; the sums of maximum_subarray.cpp, and the sizes in `PackMsg` of a message
-- of 2 ^ 31 bytes or more, are taken not to overflow.
-- A loop is a recursion on the list or on the rounds that are left. Where the number of rounds does
-- not show, it is a recursion on fuel, and `none` is also that the fuel ran out: the length of the
-- array and one more for the heaps (a round doubles the index), the merge sort (a range is halved), the
-- parser (a round takes two bytes), the lines of a file and the arguments of a log line. That it
-- suffices is part of the theorems, which state the result and not only what a result would be like.
-- The loop of `DelFixUp` can run for ever, and what is shown of that holds for every fuel.
-- The zone of the process, in which `mktime` and `localtime` work, is a parameter of the conversion of times.
-- What libevent returns to the service, such as a socket or a failure, is an argument of its operations, and
-- the queue of the logger (concurrentqueue.h) is a parameter of which only the order of its items is
-- asked.
--
-- Not modelled: printing and `main`; the release of memory; the copies of other projects
-- (concurrentqueue.h, uWS) and generated code (the .pb files); the wrappers of kafka, redis, rocksdb,
-- zeromq, zookeeper and of databases, whose work is done by those libraries; scripts. Of the parts above:
-- the free list of lock_free_queue; the conditions
-- that main of fileCrop makes of dates, and its zip command; `Send` and `ReadDone` of a context, which
-- hand bytes to libevent and to a callback; `ProtoReq2JsonReq` and `JsonRes2ProtoRes`, which copy fields
-- between generated messages and jsoncpp, and the sockets and queues of the conversion service. Of the
-- rest: design_patterns, which prints; `ng_logger`, which keeps one logger for the program, and the writers
-- of the logger, which write files; and the other headers of feedproxy/public.
pub mod Prelude
pub mod Avl
pub mod Circular
pub mod Convert
pub mod EvLoop
pub mod FileCrop
pub mod LockFree
pub mod MaxHeap
pub mod NanoLog
pub mod Palindrome
pub mod RbTree
pub mod Service
pub mod Sort
pub mod Subarray
pub mod WebSocket
