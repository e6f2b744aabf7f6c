-- ===== src/Lib.antt =====
-- A verification library for basearch, a C library of an operating system abstraction: named
-- tasks, semaphores, message queues and events over pthreads, an allocator of its own, and timers
-- on a wheel.
--
-- The parts and how they meet. Three tables of named slots (tasks, semaphores, queues) are the
-- registry; each of src/linux/base_task.c, base_sem.c, base_event.c and base_queue.c has its own
-- text of the registry's four functions (`*_init`, `*_info_find`, `*_info_add`, `*_info_del`) and
-- its calls on top of them. Events are bits in a task's slot. A message queue is a ring of bytes in
-- a block of the allocator, src/linux/base_mem.c, whose free blocks form a list inside the pool.
-- Named timers are a table of their own over one timer wheel, which an alarm turns.
--
-- The files:
--   Prelude    names of the libraries, Boolean tests, lists, bytes and bits of words
--   Registry   the tables: `Registry`, `base_task_init` and `base_task_info_*` of base_task.c, with
--              the structs of base_task.h; its children hold the invariant and what the search by
--              name finds after each function
--   Name       the loops that copy a caller's string into a name buffer
--   Task       `base_task_create`, `_delete`, `_get`, `_cur_get` and `_delay` of base_task.c
--   Event      `base_event_send` and `base_event_receive` of base_event.c
--   Sem        `base_sem_*` of base_sem.c
--   Queue      `PTHREAD_*_MsgQ` of base_queue.c, against a bounded list (Fifo, Holds, Refine), over
--              sequences of calls (History); Queue.Osix has the calls `base_queue_*`
--   Mem        the allocator of base_mem.c: the links in memory (Chain), the sorted list of free
--              blocks that they stand for (Blocks), the insertion and the search (Walk, Fit), the
--              contracts of init, malloc and free (Valid, Free, Served, Api), and sequences of calls
--              by clients (History)
--   Timer      the timer wheel of src/timer/base_timer.c, all its calls but the two files below; its
--              children follow a call from the links to the wheel: Store and Links (what the writes
--              leave, stretches of a list), Splice (a cell taken out and put in), Rings and Lists
--              (the spokes), Invariant (what holds between calls, and when a timer is due), Enqueue,
--              Unlink, Stop, Start, then Visit (one timer met by a tick), Walk, Phase, Follow, Due
--              and Tick (a whole tick), Unique and History (any sequence of calls)
--              Timer.Create and Timer.Destroy: `stw_timer_create` and `stw_timer_destroy`
--   TimerTable the named timers of src/timer/base_mgmt.c over that wheel: `tmr_*`; its children prove
--              what the searches find (Text) and what a start (Start), a deletion (Delete) and the
--              initialisation (Init) do to the wheel
--   Locks      the tables of mutexes and conditions of src/linux/base_mutex.c, that of semaphores
--              (Semas) and the timeouts (Times); Tables and Waits prove what they do
--   Trace      the masks of src/trace/base_trace.c, with Masks, and the line that is composed (Line),
--              whose length is proved for one argument (Args) and the whole (Fits)
--   Tests      concrete states on which the theorems are applied
--
-- How the code is read. A pointer is an address, a natural number, and NULL is 0, or `none` where
-- only its presence matters. A function that changes the static variables takes their state and
-- returns the new one. UINT32 arithmetic is written with its wrap-around. A call is one
-- step, and interleavings are sequences of calls, as the mutexes of the registry and of the queues
-- make them: a call that waits on a condition is made again when it is woken. Where a call lets its
-- mutex go and takes it again, it is modelled as if no other call ran between: `stw_timer_start`
-- between unlinking and enqueueing, `stw_timer_tick`, `base_mem_free`, which tests the header before
-- it waits for the semaphore, `base_task_create`, and the count of overflows of a queue. What `pthread_mutex_lock` and the other
-- calls of the system return are arguments, as are blocks of memory that a queue gets.
--
-- The sizes are those of a 64-bit machine. The code stores pointers in UINT32s there: the id of a
-- semaphore has the low half of its address, a search writes that half into a pointer which was not
-- initialised, and the id of a queue loses the upper half of its address. The model does the same,
-- and the theorems say where they ask for addresses below 2^32. A block of the pool that is passed
-- to `free`, and a pointer that was cut, have no defined result: the model says so (`Queue.Fate`).
--
-- The two loops of the allocator run on fuel, one unit for a link that is visited. The theorems ask
-- for more fuel than there are free blocks, with which both loops end. All other loops are
-- structural. The tables are of any size. The loop of a tick over one spoke runs on fuel too, one
-- unit for a timer that is met; since a timer that is put back on the spoke can be met once more,
-- the theorems ask for more than twice the timers on the wheel. The loops that destroy a wheel get
-- more fuel than there are timers.
--
-- `vsprintf` is written out for the conversions that `base_trace_getLength` counts, and for no flags
-- and widths; a number has at most 10 digits in base 10 and 8 in base 16, which are its fuel.
--
-- The wheel's call-backs run while the interrupts are locked, by a mutex that is not recursive: one
-- that called the wheel would wait for ever. So a call-back is recorded, and leaves the wheel alone.
--
-- Some lines of the sources do not compile: base_task.c, base_sem.c, base_event.c and base_queue.c
-- name fields that base_task.h spells otherwise, and use a few variables that they do not declare.
-- The model takes the field or variable that is meant, and says so where it does. base_sem.c stores
-- an integer in a `sem_t` (`base_sem_info_add`), which is left out; base_trace.c reads `pi1Fmt` for
-- its parameter `format`.
--
-- Not modelled: the threads' own code, the loop of the alarm that drives the timers
-- (`tmr_main_task`), the waits and the differences of times of src/linux/base_mutex.c, the output of
-- traces, the command line (src/cli), of which base_cli_lib.c is a copy of libcli, the functions that
-- only print or pass a call on to the system, and the examples (test).
pub mod Prelude
pub mod Registry
pub mod Name
pub mod Queue
pub mod Mem
pub mod Task
pub mod Event
pub mod Sem
pub mod Timer
pub mod TimerTable
pub mod Locks
pub mod Trace
pub mod Tests
