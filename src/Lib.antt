-- ===== src/Lib.antt =====
-- The file system simplefs, the program that formats its volumes, the character device globalfifo, and
-- the smaller kernel modules and the program that stand beside them.
--
-- simplefs (simplefs/simple.c, simplefs/simple.h): a file system of at most 64 inodes on a device with
-- the superblock in block 0, the inode store in block 1, and one data block for each file or
-- directory.
--
-- The parts. The superblock counts the inodes and has the bitmap of free blocks. The inode store is an
-- array of 128 inodes, inode n in slot n - 1. The inode bitmap in memory is made at mount from the
-- store. A directory's data block has 15 records of a name and an inode number; its cache, hung on the
-- dentry by the first listing, has the records in use in one list and the free slots in another.
-- Create takes a number from the inode bitmap, a block from the superblock and a slot from the cache,
-- then writes store, superblock, record and parent; unlink goes the other way; lookup reads the cache
-- and the store; read and write work on a file's block and write saves the inode.
--
-- Base (with Base/Booleans, Base/Lists, Base/Binary, Base/Words): shared names, Boolean tests, list
-- lemmas, the binary digits and the bytes of a word, and signed distances.
-- Simple/Types: the structures and constants of simplefs/simple.h, and a data block as records or bytes.
-- Simple/Bytes: the records of a directory as the bytes of its block.
-- Simple/State: the state: the volume as buffered (`cache`) and as on the device (`disk`), the inode
-- bitmap, the three mutexes, the number of buffers held, and the inodes allocated. A mutex that is taken twice by its owner
-- or released unheld sets `misused`.
-- Simple/Super: simplefs_sb_sync, simplefs_sb_get_a_freeblock, simplefs_sb_get_objects_count.
-- Simple/Store: simplefs_inode_search, _add, _del, _save and simplefs_get_inode.
-- Simple/Directory: simplefs_cache_alloc, dir_cache_build, used_cache_entry_get, free_cache_entry_get and
-- cache_entry_insert; a `list_head` list is the list of its entries, which have different numbers.
-- Simple/Objects: simplefs_create_fs_object, _mkdir, _create, _unlink and _lookup.
-- Simple/Readdir: simplefs_iterate and simplefs_dentry_release.
-- Simple/Files: simplefs_read and simplefs_write.
-- Simple/Mount: fill_imap and simplefs_fill_super.
-- Simple/Module: simplefs_init, simplefs_exit, simplefs_mount and simplefs_kill_superblock.
-- Simple/Session: from a mount on, creates, unlinks and writes in one directory, in any sequence.
-- Simple/Locking: creates, unlinks, writes and lookups of several processes, as the mutexes that they
-- take and release, in any order of steps, with signals that end a wait and stay until the call is
-- over; Simple/Locking/Ordered, Held, Progress, Ended, Kept and Interrupted: the order of the mutexes,
-- what a step changes of them, how calls end, who releases the inode store's mutex, and what a signal
-- does.
-- The child modules of each have what is proved of it; Simple/Tests has the sample volume and the
-- theorems at concrete inputs.
--
-- mkfs (simplefs/mkfs-simplefs.c): writes superblock, root inode, welcome file and root directory.
-- Mkfs/Layout: the structures of simplefs/simple.h as bytes, and the volume that a device's bytes are.
-- Mkfs/Format: write_superblock, write_inode_store, write_inode, write_dirent, write_block and main; each
-- `write` may stop early and each `lseek` may fail.
-- Mkfs/Bytes, Mkfs/Formatted, Mkfs/Outcome, Mkfs/Listed, Mkfs/Opened: what is proved of them and of the
-- mount of what they write; Mkfs/Tests: concrete inputs.
--
-- globalfifo (globalfifo/globalfifo.c): a FIFO of 10 bytes that processes read and write, and where they
-- sleep while it is empty or full.
-- Fifo/Device: globalfifo_init, _read, _write, _ioctl and _poll. The semaphore makes each stretch of code
-- that holds it one section; a read or write that sleeps has two, around `schedule`.
-- Fifo/Queue, Fifo/Queue/Writes, Fifo/Queue/Control: the bounded queue of bytes that the sections
-- implement.
-- Fifo/Answers: what all answers of the queue to writes have in common.
-- Fifo/Reads: what all reads have in common, whatever `memcpy` does with areas that overlap.
-- Fifo/System: the processes, asleep or woken, and their steps in any order.
-- Fifo/Sleepers: who is still asleep after a wake-up.
-- Fifo/Waiting: what holds in every state that the steps reach.
-- Fifo/Writers: what holds of the writers as long as nobody clears the device.
-- Fifo/Module: globalfifo_init and globalfifo_exit as the module's loading and unloading,
-- globalfifo_setup_cdev, globalfifo_open and globalfifo_release.
-- Fifo/Tests: the theorems at concrete inputs.
--
-- The lock program (app/lock.cpp): two threads that take two mutexes in opposite orders, two that only
-- sleep and copy, and a main function that creates and joins them.
-- Lock/Program: func1, func2, the threads and main as lists of statements, and their steps in any order.
-- Lock/Discipline: which mutexes the rest of a thread releases before it takes them.
-- Lock/Moves, Lock/Exclusion: what holds in every state that the steps reach.
-- Lock/Crossed, Lock/Deadlock, Lock/Circular: where the first two threads wait for each other.
--
-- The hook (hook/hook.c): a module that writes a jump over a kernel function and one back over its stub.
-- Hook/Patch: hook_conn_init, hook_conn_exit and hook_ipv4_conntrack_in on the bytes of memory.
-- Hook/Jumps, Hook/Redirect: where the jumps lead.
--
-- mm_spinlock (mm_spinlock/mm_spinlock.c): MmSpinlock/Store has workqueue_proc_store, workqueue_init and
-- workqueue_exit, MmSpinlock/Leak what the loop of the first leaves.
--
-- mm_debug (mm/mm_debug.c): MmDebug/Entry has proc_mm_show, proc_mm_write, mm_create_proc_entry,
-- mmproc_init and mmproc_exit, MmDebug/Shown what is proved of them.
--
-- What is not under the repository is a parameter. `Kernel` (Simple/State) has the bit operations on a
-- word, whose documented behaviour is `IsKernel` (Simple/Store/Soundness) and which Simple/Machine
-- gives by the digits of a word; the value of an undefined shift, the word behind the inode store,
-- and the contents of fresh memory are parameters without any law. Each lock that may be interrupted
-- and each allocation that may fail is a Boolean argument, with those of `new_inode` and of a mount
-- (`CreateEnv`, `MountEnv`). `oops` is a BUG_ON that fires, an access through a wrong pointer, NULL
-- included, or a write past the end of an array, such as the `strcpy` of a name of 256 bytes or more
-- in a create: nothing is said of what follows. Names have no NUL.
--
-- Numbers: 64-bit counts wrap with `% 2 ^ 64`. The loop of the block allocator has 61 rounds,
-- those of the source. The loop of workqueue_proc_store has fuel, of which its 128 rounds are
-- enough. No other loop needs fuel: each goes along a list, and the endless loops of
-- app/lock.cpp are steps. An `int` that is incremented past its range wraps at 2 ^ 32.
-- Addresses in hook/hook.c are 64-bit words, and a distance keeps 32 bits.
--
-- In globalfifo `memcpy` is a parameter, `IsMemcpy` its law, which says nothing of areas that
-- overlap. `sent`, `received` and `overlapped` of the system are not in the code: they record
-- what the calls moved, and whether a `memcpy` had such areas; nor are `stores` of the lock
-- program and `misused` of mm_debug. `text_poke_smp` is a parameter with the law `IsPoke`;
-- kallsyms_lookup_name, kstrtoint and the answers of the allocators are parameters without any.
--
-- Not modelled: a read of a block that fails where the code answers with a BUG_ON or not at
-- all, apart from block 0 in a mount; what the kernel takes back of an inode; the VFS
-- bookkeeping (d_add, dput, inode_init_owner, times) and log messages, which the kernel does;
-- two processes on the data of simplefs at a time: an operation there runs to its end, and what
-- several processes do is followed for the mutexes alone; the lock of its own that the kernel
-- takes for a directory before a create, an unlink or a lookup there, so that the processes of
-- Simple/Locking are those in different directories; the parts of mm_spinlock/mm_spinlock.c
-- that its switches leave out, and its work items, which are never queued; the stub of
-- hook/hook.c before it is overwritten; the generated hook/hook.mod.c.
pub mod Base
pub mod Simple
pub mod Fifo
pub mod Mkfs
pub mod Lock
pub mod Hook
pub mod MmSpinlock
pub mod MmDebug
