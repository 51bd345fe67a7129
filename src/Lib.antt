-- ===== src/Lib.antt =====
-- Verification of parts of the Pintos kernel of this repository (pintos/src): the scheduler with priority
-- donation, semaphores, locks and condition variables, path names, index nodes, open files, directories, file handles, waiting for processes, linked lists, hash tables, the free map, bitmaps, blocks of memory, sorting and searching, swap slots and interrupt queues, and of
-- the job list of the shell in project0.
--
-- A kernel thread is the address of its page and the table of threads a function from addresses. The
-- scheduler keeps a ready list in order of priority; semaphores block and unblock threads through it;
-- locks donate the priority of a thread that waits to the thread that holds the lock, and through
-- it to the thread that one waits for. The timer puts threads to sleep and wakes them, and recomputes priorities
-- for the multi-level feedback queue scheduler, in fixed-point numbers. Interrupt queues wake threads through the scheduler too. Path names,
-- bitmaps with the free map, index nodes with open files, blocks of memory, sorting and swap slots stand apart, and so does the job list of the shell.
--
--   Base, Base/*       tests on numbers, lists with native indices, names passed on
--   CString            pintos/src/lib/string.c: strtok_r (skip_delimiters, scan_token), strchr
--                      (is_delimiter), a malloc with strlcpy (copy); the outcomes of malloc are a list, and
--                      Run tells a failed ASSERT and an access out of bounds apart
--   Blocks             pintos/src/lib/string.c: memcpy, memmove, memset, memchr (copy_up, copy_down, set_up and
--                      find_byte are their loops)
--   LinkedList         pintos/src/lib/kernel/list.c, with the links of the elements (size_loop, place_loop and max_loop
--                      are loops)
--   HashTable          pintos/src/lib/kernel/hash.c; round_loop, move_loop and move_bucket are the loops of rehash
--   Children           exit statuses in pintos/src/threads/thread.c and process_wait of
--                      pintos/src/userprog/process.c (has_tid and status_loop are the loops)
--   Handles            file handles in pintos/src/threads/thread.c and the system calls on descriptors in
--                      pintos/src/userprog/syscall.c (sysread and syswrite are the handlers after their pops)
--   Directory          pintos/src/filesys/directory.c: lookup, dir_add and dir_create (add_entry), dir_remove,
--                      dir_readdir, dir_is_empty, on the entries of a directory
--   Path               pintos/src/filesys/path.c: each function under its name, its loop beside it
--                      (normpath_loop, dirname_loop, last_token, join_loop)
--   Thread             pintos/src/threads/thread.h and thread.c: struct thread (Thread), the state of
--                      the scheduler (Kernel), thread_block, thread_unblock, thread_yield, the end of
--                      thread_exit, schedule, thread_schedule_tail, next_thread_to_run
--   Donation           updateActivePriority (update_active_priority), and the parts of lock_acquire (donate,
--                      recall) and lock_release (drop_donors) in pintos/src/threads/synch.c
--   FixedPoint         pintos/src/threads/fixedpoint.h, each function under its name in words (MulF is mul_f)
--   Mlfqs              thread_set_priority and thread_set_nice of pintos/src/threads/thread.c, and the part of
--                      thread_tick for the multi-level feedback queue scheduler (tick_mlfqs)
--   Synch              pintos/src/threads/synch.c: semaphores, lock_init, lock_try_acquire
--   Monitor            lock_acquire (up to its sleep; lock_retry is a round after it), lock_release,
--                      lock_held_by_current_thread and the functions cond_ of pintos/src/threads/synch.c
--   Timer              pintos/src/devices/timer.c: timer_sleep, timer_wake, timer_interrupt, and thread_tick of
--                      pintos/src/threads/thread.c
--   Bitmap             pintos/src/lib/kernel/bitmap.c, on elements of 32 bits; set_loop, count_loop, contains_loop
--                      and scan_loop are the loops of the functions on ranges
--   FreeMap            pintos/src/filesys/free-map.c
--   Stdlib             pintos/src/lib/stdlib.c: sort (build_loop, drain_loop, heapify, largest, do_swap) and
--                      binary_search (search_loop)
--   Frames             pintos/src/vm/frame.c: the search of evict_frame (find_victim), and the bits of a page
--                      directory in pintos/src/userprog/pagedir.c
--   Swap               pintos/src/vm/swap.c
--   Intq               pintos/src/devices/intq.c, as an interrupt handler calls it
--   Inode              pintos/src/filesys/inode.c: sector pointers, inode_fill, byte_to_inode, byte_to_sector
--   File               pintos/src/filesys/file.c and the counters of an open inode in inode.c
--   Jobs               project0/jobs.c, each function under its name but listjobs
--
-- A component's definitions stand in its own file, the proofs in the files below it, and runs on concrete
-- states in its Tests.
--
-- Bounds and fuel. Numbers are unbounded but for the int of fixed-point numbers and the size_t of bitmaps, which
-- wrap at 32 bits: the priorities, counters and sector numbers of these parts stay
-- far below 2 ^ 31, and the sum of ticks in timer_sleep below 2 ^ 63. tokens_loop has a round for each character of the string, and each round but the
-- last takes one. drop_loop has a round for each donor, and each round moves its index on. The fuel of
-- update_active_priority is a parameter: the C function recurses without bound, and the theorem about
-- it asks for a round for each thread on the way. lock_acquire and lock_release pass such a parameter
-- on to it. broadcast_loop has a round for each waiter, and each round takes one off. The fuel of byte_to_inode is a parameter too, and the
-- theorem that finds a sector needs one round. The fuel of find_victim is more than three rounds for each
-- frame, as the clock stops after three revolutions; list_size and list_insert_ordered want a round for each
-- element and one more, and round_loop lowers its number in each round. fill_loop has a round for each block of a node. heapify has a round
-- for each element, since each moves its index on, and search_loop one for each element and one more.
--
-- Not modelled: turning interrupts off and on, since each function runs to its end or to a switch; the
-- switch of stacks itself; interrupts within timer_sleep before it blocks; the fields of struct thread that
-- scheduling does not use; the walk along a path from directory to directory; reads and writes of files;
-- the page table of a process and the life of its frames; the loading of programs; system calls on names; start-up, device drivers and memory
-- allocators.
pub mod Base
pub mod Bitmap
pub mod Blocks
pub mod CString
pub mod Children
pub mod Directory
pub mod Donation
pub mod File
pub mod FixedPoint
pub mod Frames
pub mod FreeMap
pub mod Handles
pub mod HashTable
pub mod Inode
pub mod Intq
pub mod Jobs
pub mod LinkedList
pub mod Mlfqs
pub mod Monitor
pub mod Path
pub mod Stdlib
pub mod Swap
pub mod Synch
pub mod Thread
pub mod Timer
