-- ===== src/Lib.antt =====
-- Verification of os4411: the block stores and file systems, the queues and the processes of
-- egos.
--
-- The program. egos is an operating system in user space: earth simulates the hardware, grass is
-- the kernel, apps and lib are user code. Under grass/block (paths are from egos/) block stores
-- are stacked: each is a table of methods (nblocks, read, write, setsize) over a store below.
--
-- The files. Base has the shared names, Boolean tests, C integers and lists. Run has commands
-- over an explicit state: a run ends in a result and a state, halts (exit, panic, a trap), or
-- spins (a loop out of fuel); Run.Returns is total correctness. Store is
-- grass/block/block_store.h: BlockStore is the method table over a type of states, IsStore the
-- contract that a block store promises, IsSized that its size call and setsize answer the
-- number of blocks, Store.Array the array of blocks that a client sees.
-- `read` is handed what *block holds and gives back what it holds then; a code is a C int
-- (success is 0, failure is -1).
--
-- Disk has one module for each layer of grass/block: Ram (ramdisk.c), Part (partdisk.c), Stat
-- (statdisk.c), Check (checkdisk.c), Clock (clockdisk.c), Cache (cachedisk.c), Raid0
-- (raid0disk.c), Raid1 (raid1disk.c), and Stack (the layers that test/cache_test/trace.c builds).
-- A layer is a function of the interface below; its state holds the state below. Every function
-- keeps its C name; what follows a call of the layer below is a function of its own
-- (after_read_miss, compare_read, record_write) where a proof needs its name. Arrays are
-- functions of the index. checkdisk_init does not set its list, so what the memory holds there is
-- an argument. Stat.Counts compares the counting layer with the store below.
--
-- Disk.Tree is grass/block/treedisk.c: files over one block store, each a tree of blocks under an
-- inode. Blocks allocates and frees a block, Read and Write are the two calls, Size gives up the
-- blocks of a file, Create makes a file system and opens a file. A block is its words, so refs[i]
-- is word i; the pointer into a parent block is the block and the index. The proofs label each
-- block with its one place (Labels, Nodes): a label tells what is free, so no two places share a
-- block. Shows has the rules for calls of the store below, Lists, Takes, Frees and Gives are
-- about the free list, Walks, Puts, Joins, Stores and Descents about the walk down a tree,
-- Levels, Capacity and Grows about its height, Files is a file system as an invariant, Places,
-- Inodes, Writes and Updates a write to it, Counts, Clears and Empties the removal of blocks,
-- Fresh and Formats a new one, Missing a file that there is not.
--
-- Queue is shared/queue.c on a heap of elements; `last` is the link that the C pointer points to,
-- and the address from calloc is an argument.
--
-- Deque is p0/queue.c (beside egos/), a doubly linked queue on a heap of nodes: Cells says when
-- it is a list, Ends, Append and Refines are about its operations; what malloc returns and what
-- its memory holds are arguments.
--
-- Process is grass/process.c and grass/process.h with HW_MLFQ, HW_MEASURE and HW_PAGING: Kernel
-- is the module's global variables, a process is named by its slot in proc_set, and a queue is
-- the list of what it holds. Send has proc_send, proc_wakeup and the two halves of proc_recv,
-- Life allocation and termination, Create the rest of creation, Schedule the scheduler; a time is
-- an argument. proc_yield is a round of its loop and the switch after it, since interrupts come
-- in between. Count, Sane and Slots have the invariants; Find, Wake, Deliver, Receive, Death,
-- Start, Birth, Search and Quantum are on the functions that they are named for.
--
-- Fuel. The while(1) loop of cache_update runs on one more than the number of slots, the loop of
-- setup_freelist on the number of blocks left; modules on them show that this is enough. The
-- search for a level in treedisk_free_file runs on any fuel, two rounds where it ends at all;
-- counting levels ends at four. queue_iterate and the search of queue_delete run on any fuel.
-- Other loops are recursion on the rounds left.
--
-- Bounds. An unsigned int is a number, and sums are taken modulo 2^32 where they may wrap. The
-- length of a Deque is an int: where it overflows, which C leaves undefined, the model halts.
--
-- Not modelled: destroy (it frees memory), messages on the terminal, and what allocation returns
-- when memory is exhausted, but for the queues. Of process.c: page faults and the choice of
-- frames, the moving average, the dumps, and the memory of stacks and messages. The other parts
-- of egos and the tools.
pub mod Base
pub mod Run
pub mod Store
pub mod Deque
pub mod Disk
pub mod Queue
pub mod Process
