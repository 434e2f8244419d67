-- ===== src/Lib.antt =====
-- A model of casting, a library for concurrent tasks and channels in Lua, with its correctness.
--
-- The program. Channels (src/lc_channel.c) pass messages between tasks. A channel keeps three
-- queues (src/queue.c), for messages, waiting readers and waiting writers, and calls back who
-- waits. The channels, sessions and tasks of a process stand in maps (src/map.c), by their ids.
--
-- The modules.
--   Base: numbers, tests, lists; Base/Codes has the return codes of src/lc_error.h.
--   Errors: the texts of the codes, `errmsg` of src/lc_error.c.
--   Map: src/map.c. Map/Node has the tree, `skew`, `split` and the rebalancing of a removal;
--     Map/Ops the descents of `map_insert`, `map_remove` and `map_find` with the walk back; Map
--     itself the calls. Map/Sorted is the reference, an ascending list; Map/Refines relates the
--     two; Map/Balance has the levels; Map/Laws the calls' theorems; Map/Clear is `map_clear`;
--     Map/Cursor the cursors, with Map/Cursor/Walks and Map/Cursor/Room about what a walk reads
--     and the length of its path.
--   Queue: src/queue.c. Queue/Chain has the links, by the addresses of the nodes; Queue/Laws,
--     Queue/Reads and Queue/Clear the theorems; Queue/Linked the queue as an instance of the
--     interface Fifo.
--   Fifo: what the channels rely on of a queue.
--   Channel: src/lc_channel.c. Channel/Defs has the state and the calls, over any three queues
--     that meet Fifo; Channel/Laws, Reading and Closing one call each; Channel/Runs, Passing,
--     Traces and Buffering sequences of calls.
--   Message: src/message.h and src/message.c. Message/Bytes has the integers, Message/Values one
--     value with its encoding and decoding, Message/Builder the builder, `msg_new` and
--     `msg_next`; Message/Counting, Pushes, Changes and Setters relate the builder's byte count
--     to what is written; Message/Roundtrip, Sending and Delivery go from the sender to the
--     receiver.
--   LuaMessage: the writing of Lua values into a message, src/lc_message.c. LuaMessage/Flat
--     describes the values of the message, LuaMessage/Filling has one value with its parts,
--     LuaMessage/Trees the whole, LuaMessage/Repeats a table that came before. LuaMessage/Decode
--     has the reading, on a Lua stack; LuaMessage/Copies describes what it makes,
--     LuaMessage/Roundtrip and Delivery relate the two. Message/Steps has `msg_next` call by
--     call.
--   Registry: the counted entries that src/lc_channel.c, src/lc_session.c and src/lc_task.c keep
--     in maps, over ascending lists; Registry/Laws and Keys have the lists and their orders,
--     Registry/Counting the counts, Registry/Live the invariant.
--   Channel/Registry: the map of all channels, with the Lua methods that go through it; its
--     children have the reading calls (Laws), a change of one channel (Changing), the opening and
--     the closing (Opening, Closing) and sequences (Runs).
--   Task: src/lc_task.c, the registry of tasks and the current task of a thread.
--   Session: src/lc_session.c. Session has a session and its steps under its lock; Session/Turns
--     the threads that share a session, with Session/Order and Session/Turns/Drain about them;
--     Session/Calls and Session/Running the calls of both files over the two registries,
--     `task_resume`, `session_queue_task`, `task_run`, `session_run`; Session/Laws, Resuming,
--     Tasks and Runs their theorems, with Session/Held and Session/Resting for an entry in use.
--   Methods: the methods `write` and `read` of src/lc_channel.c with their callbacks, over the
--     registries of channels, tasks and sessions; Methods/Passing has what a task's write does,
--     Methods/Waiting the waits of `read`, Methods/Keeping what a resumed task leaves as it was.
--   Pool: the thread pool of src/lc_thread.c; Pool/Steps has the orders of its threads' steps,
--     Pool/Bounds and Pool/Serving what holds of them.
--   Buffer: src/buffer.h and src/buffer.c. Buffer/Laws has the growth and the writes at a
--     position, Buffer/Streams the writes and reads at the buffer's own position.
--   Spin: the atomic operations and the spin lock of src/lc_thread.c, with the steps of the
--     threads that share a lock. Spin/Exclusion has what holds of every reachable state.
--   Examples: small inputs on which the theorems are applied.
--
-- Conventions. A pointer that may be NULL is an Option. A callback that is called is an entry of
-- the list of calls that an operation returns. A write through NULL or outside of an array is the
-- outcome `fault`. An `int` or `long` that may be negative is ℤ; its overflow is not modelled. An
-- allocation that may fail is an argument of the operation. A C comparison is an Ordering, its
-- sign.
--
-- The fuel of `decode_value` and of its loop is the number of the message's values and one: each
-- call reads a value, or is the last.
--
-- Bounds. The array `path` of src/map.c has HEIGHT_LIMIT entries; the model counts them (those of
-- a cursor are the length of its path, whose entries say by which link the walk went down, where
-- the code compares pointers, and which `far` only makes longer, so that the bound of
-- Map/Cursor/Room at its end holds for each write), and the laws of a map are for fewer than 2^32
-- - 1 items, whose paths are shorter. The loop of `queue_clear` has as fuel the number of nodes
-- and one: each round takes a node. That of `map_clear` has two rounds for each item, and that of
-- `grow` one for each byte of the end. A `size_t` wraps at 2^64, and the laws of a buffer are for
-- sizes below 2^62.
--
-- A message's integers have the sizes of a 64-bit platform, lowest byte first; an `int` in a
-- message is its pattern, below 2^32. The `int`s `bytes` and `size` of the builder wrap; its
-- `count` is that of its values at most, and below 2^31 with the bytes. A builder is counted if
-- each of its values can be read back, its array has room for them as long as there are at most
-- 2^30, and its bytes with four for each reference are, as a word, the length of the encodings;
-- the theorems about whole messages are for messages of less than 2^31 bytes.
--
-- A channel's operation is one step, since the code holds the channel's lock for it; its
-- callbacks come after the lock is released, and the model lists them in the order of that one
-- call. The status is read before the lock is taken, which the model does not tell apart.
--
-- A registry's operation is one step, under the registry's spin lock. A pointer to an entry is
-- its id: a change through the pointer is a change of the entry, and a use after the entry is
-- removed is `fault`. An id is a double that counts up; the model does not round. The conversion
-- of an id to `int` in the comparisons gives the least `int` where it does not fit. What
-- `lua_resume` does is a function of the whole system, so that it may make any calls; a theorem
-- that runs Lua says what it relies on. The submissions of a system are the sessions that are in
-- the pool's queue. A message that is destroyed is an entry of a list, and its later use is no
-- fault. The value under `task_key` is that of the thread that makes the calls.
--
-- In Session/Turns and Pool/Steps a step is what one thread does under a lock, or one operation
-- of a semaphore or of an atomic word; any thread may be the next. The semaphore's wait and its
-- timeout are steps that the scheduler chooses.
--
-- Not modelled: the mutexes, condition variables, semaphores and thread-local cells of
-- src/lc_thread.c, which are calls of pthreads; the userdata of a message in src/lc_message.c
-- with its methods, and a userdata with `__save` inside of a table; an allocation that fails in a
-- push of src/lc_channel.c or in the writing of a Lua value; `buf_compact`, `buf_free` and
-- `msg_value`; the Lua methods but for those of Channel/Registry and Methods; src/casting.c and
-- src/lc_utils.c, which register and print.
pub mod Base
pub mod Map
pub mod Fifo
pub mod Queue
pub mod Registry
pub mod Channel
pub mod Task
pub mod Session
pub mod LuaMessage
pub mod Message
pub mod Buffer
pub mod Spin
pub mod Pool
pub mod Methods
pub mod Errors
pub mod Examples
