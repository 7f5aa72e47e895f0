-- ===== src/Lib.antt =====
-- RecoverOS: a small x86-64 kernel with threads, locks, processes, pipes, a keyboard and a file
-- system.
--
-- Which file models which part (paths from the repository's root):
--   Bitmap       lib/kernel/bitmap.c: the bitmaps behind page pools, pids, inodes and disk blocks
--   LinkedList   lib/kernel/list.c: intrusive doubly linked lists, on a store of links
--   Thread       thread/thread.c, intr_time_hdl of device/timer.c: the scheduler, pids, start and exit
--   Sync         thread/sync.c: semaphores and recursive locks, and threads that run them interleaved
--   WaitExit     userprog/wait_exit.c: sys_wait and sys_exit
--   Ioqueue      device/ioqueue.c: the byte queue behind the keyboard and the pipes
--   Pipe         pipe/pipe.c: pipe_read and pipe_write
--   Descriptors  fs/file.c, fd_local2global of fs/fs.c, pipe/pipe.c: descriptors of files and pipes
--   Memory       kernel/memory.c: physical pages, page tables, virtual pools, sys_malloc and sys_free
--   FileSystem   fs/inode.c, fs/fs.c: inodes, the bitmaps of a partition, reads, writes and removal of a
--                file on a disk
--   Stdio        lib/stdio.c: itoa and vsprintf
--   Game2048     command/2048.c: the moves of the board and its new cells
--   Snake        command/snake.c: the field, the food and the moves of the snake
--   Keyboard     device/keyboard.c: scan codes to characters
--   Strings      lib/string.c: copies, comparisons and searches in a memory of bytes
--   Prelude      what the files share: the results of a run, tests, lists
--
-- How the parts interact. A result of a run is `ok`, `panic` (an ASSERT that fails), `fault` (an
-- access through NULL or outside of the memory at hand) or `out_of_fuel`. The functions keep the
-- names that they have in the source, with the state that they read and write as arguments. The
-- scheduler takes its queues as the sequences of threads that LinkedList relates to links; its
-- pids come out of a Bitmap, as do the physical pages and the pages of a pool of Memory. The end of
-- a thread gives its pages back through `free_pages` of Memory. WaitExit calls Thread, Pipe and
-- Keyboard call Ioqueue, and a thread that is asleep in the middle of a call is a value of the
-- call's result.
--
-- Numbers are natural; a field of w bits wraps at 2 ^ w where the source lets it. Addresses are
-- numbers, 0 is NULL, and a thread is named by the address of its page. An address does not wrap.
--
-- Bounds and fuel. `bitmap_alloc` has one round more than the bitmap has bits, and each round
-- moves on; the walks of a list and the loops over a string have a fuel argument, and more fuel
-- than elements or characters is enough. `itoa` has 64 rounds, as many as a number has bits, and
-- `num2idx` 32. The loops over a file's
-- blocks have as many rounds as the source computes from the position and the count. The lock's count of holds has 64 bits, so schedules are below 2 ^ 64 steps. A
-- thread's pid has 16 bits and the pool 1024 pids.
--
-- Not modelled: the assembly of the boot and of the context switch, ports and screen output (no
-- value of the model comes out of them), release_prog_mem, directories and the walk of a path, the format of a
-- partition, fork and exec, the shell, and the input and output of the games. A disk is what its
-- sectors hold, without the ports of device/ide.c; the layout of an inode's bytes is a parameter.
-- What a name that is too long for its array overwrites is not modelled: `init_thread` faults there.
-- `sys_exit` takes the release of the process's memory and files as a parameter.
pub mod Prelude
pub mod Bitmap
pub mod Descriptors
pub mod FileSystem
pub mod Game2048
pub mod Ioqueue
pub mod Keyboard
pub mod LinkedList
pub mod Memory
pub mod Pipe
pub mod Snake
pub mod Stdio
pub mod Strings
pub mod Sync
pub mod Thread
pub mod WaitExit
