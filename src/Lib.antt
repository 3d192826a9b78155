-- ===== src/Lib.antt =====
-- The Rhombus operating system: its microkernel (kernel/) and its C library (libc/).
--
-- The kernel gives processes numbered slots, threads that a scheduler takes in turn, and a table
-- of the resources that a process holds open; the C library keeps, in each process, the tables
-- of open files and of named values that programs use.
--
-- Prelude: the names that the modules share, lists as C arrays, and tests on numbers.
-- Kernel/Rtab: kernel/process/rtab.c. `close`, `place`, `grow`, `open_fuel` and `free` are
--   rtab_close, the loop and the reallocation of rtab_open, rtab_open and rtab_free; a call of
--   thread_sendv is a notice in the result. rtab_open calls itself on the grown table: two calls
--   are enough.
-- Kernel/Process: kernel/process/process.c. The state is process_table and the ring pidlist
--   with its two indices; `alloc`, `free` and `get` are process_alloc, process_free and
--   process_get. A pointer to a process is the number of its slot.
-- Kernel/Schedule: kernel/thread/schedule.c, with thread_freeze and thread_thaw of
--   kernel/thread/thread.c. The queue is modelled by its pointers `out` and `in` and the field
--   `next` of every thread; debug_panic is the result none. The loops of schedule_remove and
--   schedule_next take fuel: the length of the queue, and one round.
-- Kernel/Frame: kernel/mem/frame.c. The free list and the 256 chains of the hash are lists of
--   frame structures; `frame_new`, `frame_free`, `frame_ref`, `frame_refc` and `frame_add` are
--   the functions of those names, and what they do is stated by the count of each page.
-- Kernel/Heap: kernel/mem/heap.c. The buckets hold the addresses of free blocks; the blocks in
--   use are a list beside the state, in the theorems only. The loop that cuts a slab into blocks
--   runs on fuel for 1024 blocks, the most that a slab has.
-- Kernel/Page: kernel/mem/page.c. The page tables are one array of words, `ctbl`, and the directory
--   `cmap` is a part of it; `page_get`, `page_set` and `page_touch` are the functions of those
--   names, and Page/External has those on another mapped space. That a store to `cmap` by page_set, from
--   PGE_MAP on, changes which table is seen for a segment is not modelled; page_touch, which adds a
--   table, clears what is seen of it.
-- Kernel/Thread: kernel/thread/thread.c: thread_bind and thread_send, on the process table and the
--   scheduling queue. A pointer to a thread is a number, and the registers stand in a record.
-- Kernel/Syscall/Send: kernel/syscall/syscall_send.c, on the models of threads and of pages.
-- Kernel/Syscall/Rtab: kernel/syscall/syscall_rtab.c, on the process table and its resource tables.
-- Kernel/Syscall/Page: kernel/syscall/syscall_page.c, with its registers in a record. A loop
--   runs on fuel, one more than its number of pages, which the theorems show to be enough.
-- Libc/Struct/Table: libc/struct/table.c. A slot of the array with its linked entries is a
--   list; keys are lists of bytes, and the hash is computed on 32 bits as in the source.
-- Libc/Mqueue: libc/ipc/mqueue.c. The queue of a port is the list of its messages; a call that
--   spins on a held mutex gives none.
-- Libc/Fdtab: libc/rhombus/fdtab.c. The memory that realloc adds holds arbitrary entries, a
--   parameter of the model.
-- Libc/Contab: libc/rhombus/contab.c. The counts of an entry are a list of words; whether the other side
--   of a connection refuses a status is a parameter. _contab_del calls itself when it does, with fuel.
-- Libc/Ctype: libc/ctype/, with the macros of libc/inc/ctype.h as functions on bytes.
-- Libc/Env: getenv and setenv of libc/stdlib/env.c, on the list of the entries of environ.
-- Libc/Malloc: libc/stdlib/malloc.c. A node of the tree is its index in a list to which
--   new_heap_node adds, and a free list is the list of its nodes; the answer of page_anon is a
--   parameter. _find_node recurses on the sizes left below 32, and _get_by_addr has as fuel the
--   number of nodes, as a child stands behind its parent. The memory of the first node is taken to be
--   clear, since _find_node does not set its children.
-- Libc/Memory: libc/string/mem*.c, on one memory from addresses to bytes.
-- Libc/Text: libc/string/str*.c. A text that is read is the list of the bytes before its
--   terminator, a pointer into it is the rest; Text/Span has the sets of strspn and strcspn,
--   Text/Token strtok_r and strparse, and Text/Buffer the functions that write into an array, which
--   give no result where they leave it. strparse has the length of the text as fuel.
-- Libc/Time: libc/time/gmtime_r.c and mktime.c, for times from 1970 on. The loop over the years has
--   the number of days as fuel.
-- Libc/Paths: libc/path/. A position in a path is the rest of its text; path_simplify has as fuel the
--   number of its calls of itself, and its loop the length of the path.
-- Libc/Sort: libc/stdlib/qsort.c, on elements of any type. The depth of the calls has as fuel the number
--   of the elements, and the loop that divides them twice that; both are shown to be enough.
-- Libc/Search: libc/stdlib/bsearch.c. The loop has a round more than there are elements as fuel, which
--   is enough where the key is found.
--
-- Allocation is taken to succeed wherever the code does not check it. The mutex of a library
-- table is held through each function, so that a call is one step. Numbers wrap where the code can
-- overflow a word: the hash, number keys, frame counts, page addresses and their bounds.
-- Not modelled: paging and interrupt code that is port input and output or assembly, drivers,
-- the toolkit and the ported programs.
pub mod Prelude
pub mod Kernel
pub mod Libc
