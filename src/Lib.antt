-- ===== src/Lib.antt =====
-- A model of the rucux kernel and of its C library.
--
-- The kernel is divided into process management, memory management, synchronization, IPC, the network
-- stack, terminals and support routines; the programs use the C library. What is modelled of each, and where:
--
-- Process: a process has credentials and belongs to a session and a process group.
--   Process/Credentials.antt  src/kernel/process/credentials.cpp, uapi/kernel/credentials.h and the
--     thread lookups of src/kernel/scheduler/scheduler.cpp. The state is the list of threads and the
--     thread that runs.
--   Process/Credentials/Calls.antt  sys_setuid, sys_seteuid, sys_setgid, sys_setegid, sys_setsid,
--     sys_setpgid and the calls that read; a result of -1 is `none`. `step` and `run` make sequences
--     of them. Change, Drop and Session have the theorems.
--   Process/Signal.antt  src/kernel/process/signal.cpp. A mask is a set of signals; Fatal and Kill
--     have the theorems.
--   Process/Elf.antt  src/kernel/process/elf_validate.cpp on decoded headers; Sound has the theorem.
-- Scheduler: which thread runs where.
--   Scheduler/RunQueue.antt  run_queue of src/kernel/scheduler/dispatch.cpp, the linked queue; Refines
--     has the theorems.
--   Scheduler/Dispatch.antt  src/kernel/scheduler/dispatch.cpp. A run queue is the list of its
--     threads; each operation is one step, since all run under one lock. Valid states the invariant,
--     Queued and Claimed treat a thread's way into a queue and out of it, and Steps the operations.
-- Memory: the allocator of page frames, and the areas of an address space.
--   Memory/Buddy.antt  src/kernel/memory/buddy.cpp. A free list is the list of its block addresses.
--     Cover states the invariant, Halve and Join treat splitting and merging, Guard the refusals of
--     free; Alloc, Free, Order and Init have the theorems.
--   Memory/Pmm.antt  src/kernel/memory/pmm.cpp, the caches of the CPUs over that allocator. Cache treats
--     filling and draining, Take and Return the operations, Steps runs from init on.
--   Memory/Vma.antt  src/kernel/memory/vma.cpp. The red-black tree (src/kernel/ds/rbtree.cpp) is
--     its list in order; whether memory for a node is there is an argument. View has the map from
--     addresses to pages that the operations refine; the other modules are named for the operations.
-- Net: packets travel in buffers, from IPv4 down to an interface and back.
--   Net/Checksum.antt  src/kernel/net/checksum.cpp, with Sums and Rfc1071 for the theorems.
--   Net/Netbuf.antt    src/kernel/net/netbuf.cpp, with Window and Laws.
--   Net/Netif.antt     src/kernel/net/netif.cpp.
--   Net/Ipv4.antt      src/kernel/net/ipv4.cpp, with Header and Arrival. It uses the three others.
--   Net/Ethernet.antt  src/kernel/net/ethernet.cpp, with Frames.
--   Net/Udp.antt       src/kernel/net/udp.cpp. Ports treats the ports, Valid, Queues, Receive, Binding and
--     Steps the list of control blocks, Transfer the datagram and Delivery its way through IPv4.
-- Sync: what threads and processors wait for.
--   Sync/Rcu.antt    src/kernel/sync/rcu.cpp, as steps of any number of processors that interleave;
--     Grace and Progress have the theorems.
--   Sync/Futex.antt  src/kernel/sync/futex.cpp. Wake treats waking; Absent and Leave the waiters on
--     the stacks of their threads.
-- Ipc: requests, calls and messages between threads.
--   Ipc.antt        src/kernel/ipc/ipc.cpp, its state and complete. Owned states the invariant, and
--     Complete, Mild, Submit, Accept, Messages and Detach treat the ways in which a step changes it;
--     Finished says what a thread gets whose request ends, and Drain treats the loop of detaching.
--   Ipc/Calls.antt  the operations on requests; Steps puts them together.
--   Ipc/Async.antt  messages that are not waited for; Fifo has the theorems.
-- Vfs: files and terminals.
--   Vfs/Tty.antt  src/kernel/vfs/tty.cpp. Queue says what a line discipline promises, Ring what the
--     ring holds; Feed, Read and Wakeup have the theorems.
-- Support routines and the C library:
--   Bytes.antt         lib/string.cpp, memcpy, memmove and memset on a store of bytes;
--     Bytes/Strings.antt: memcmp and the str routines.
--   Libc/Strtol.antt   libc/src/strtol.cpp.   Libc/Inet.antt  libc/src/inet.cpp.
--   Libc/Ctype.antt    libc/src/ctype.cpp.
-- Base.antt and the modules below it have what the others share.
--
-- Numbers are natural numbers, and a machine word writes its wrap-around out. Loops are recursion on
-- the list they walk, on the count they count down, or on fuel: the search for an order has one round
-- for each order, the folding of a checksum three rounds, the loop that removes areas one round more
-- than there are areas, a copy by words one round for each byte that is left, the search of a string's
-- end more rounds than the string has bytes, and the first filling of the free lists one round more
-- than there are pages.
--
-- An operation that sleeps is split there: what it does up to its sleep is one step, and what it does
-- when it runs again is another. Erasing in a terminal has a round for each slot of its ring, the
-- search for a port one for each ephemeral port, and detaching a thread one for each of its requests.
--
-- Not modelled: hardware (src/arch), context switches, wait queues, loading of programs, the file
-- systems, TCP and ARP, floating point text, and locks: what runs under one lock is one step.
pub mod Base
pub mod Bytes
pub mod Ipc
pub mod Libc
pub mod Memory
pub mod Net
pub mod Process
pub mod Scheduler
pub mod Sync
pub mod Vfs
