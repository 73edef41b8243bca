-- ===== src/Lib.antt =====
-- Models and proofs for the core of Nexo OS.
--
-- Nexo OS is a microkernel system in Rust. The kernel hands out physical frames
-- (kernel/lib/mm/src/bitmap.rs) of the memory map that it was given (kernel/lib/mm/src/map.rs) and
-- its own memory (kernel/lib/heap/src/lib.rs), schedules threads over its CPUs
-- (kernel/src/sched.rs) within the quotas of their jobs (kernel/src/process.rs), runs timers
-- (kernel/src/timer.rs), passes interrupts on to drivers (kernel/src/irq.rs) and lets processes
-- talk over channels, whose ends travel as handles and are closed by a collector when no process
-- can reach them (kernel/src/ipc.rs). Services are processes that combine libraries which know
-- nothing of the kernel: the order in which they start (libraries/svcdep/src/lib.rs), TCP and the
-- firewall of the network service (libraries/net/src/tcp.rs and firewall.rs), the file system
-- (libraries/nexofs/src/lib.rs), the archive of initial files (kernel/lib/initrd/src/lib.rs), and
-- the text grid of the terminal (libraries/textgrid/src/lib.rs).
--
-- Prelude      the shared names: tests and lists over native numbers, results
-- MemoryMap    MemoryKind and MemoryRegion, `normalize`, `summarize`
-- Nexofs       crc32 and the numbers on disk; Nexofs.Codec is Superblock, Inode and Dirent,
--              Nexofs.Blocks is `alloc_block`, `free_block`, `inode_pos`, `split_parent`
-- Initrd       the archive of initial files: `parse`, `member`, `find`; `utf8` is a parameter
-- Scheduler    Thread and Sched, `pick_next`; Scheduler.Switch is `schedule_locked` with
--              `finish_switch`, Scheduler.Calls is what threads call, Scheduler.Tick is `on_tick` and
--              `on_resched_ipi`, Scheduler.Quota is Job; Scheduler.Reach has the states that all
--              calls on all CPUs lead to (`Reached`)
-- Frames       BitmapFrameAllocator: `new`, `mark_usable`, `mark_used`, `allocate`, `free`
-- Heap         Heap: `extend`, `allocate`, `deallocate`, with `insert_nodes` for `insert_free`
-- Ipc.Types, Ipc.Handles, Ipc.Event, Ipc.Payload
--              Object and Handle, HandleTable, Event (`sinalizar`, `tomar`), Payload
-- Ipc.Channel  the two ends of a channel: `send`, `try_recv`, `recv_turn` (one turn of the loop of
--              `recv`), `close`, `register_waiter`
-- Ipc.Ends     the registry of channel ends; Ipc.Collector is `collect_marked` on it
-- Timers       `after_ns`, `periodic_ns`, `cancel`, `on_tick`, `next_deadline_after`
-- Vectors      the interrupt vectors of drivers: `alloc`, `free`, `on_interrupt`, `wait_turn` (one turn
--              of the loop of `wait`)
-- Net.Tcp      TcpSocket; Net.Tcp.Receive is `on_segment`, Net.Tcp.Transmit is `send`, `close`,
--              `poll`, `take_rx` and `window_update`
-- Net.Firewall Rule and Profile
-- Services     `ordem`
-- Grid         Grid: `newline`, `feed`, `feed_all`
--
-- State is passed and returned; a locked section is one step, and the threads that an operation
-- wakes are part of its result. An interleaving is a list of calls (`Op`) that `run` performs. An
-- `Arc` is the number of its object. The clock is an argument. Where an operation takes several
-- locks one after the other, other threads run between: the collector sees the world of each of its
-- sections in a `History`, and the three steps of an interrupt are steps of their own (`Act`).
-- Sequence numbers of TCP, the deadlines of timers and the addresses of the heap wrap as in the
-- code; counters that the code never wraps are numbers without a bound.
--
-- Two loops run on fuel. The marking of the collector gets one round more than there are ends,
-- which is enough because an end enters the stack once; the start order gets one round more than
-- there are services, because a round that places no service ends the loop.
--
-- Not modelled: rights, the guarded receives and the retries of the collector; the stacks,
-- registers and page tables of threads, the table of processes and system calls; frames on the
-- wire; the operations of NexoFS on files and directories; FAT, packages and the graphical
-- libraries; everything that talks to hardware.
pub mod Prelude
pub mod Frames
pub mod Ipc
pub mod Net
pub mod Timers
pub mod Services
pub mod Heap
pub mod Grid
pub mod Vectors
pub mod Scheduler
pub mod MemoryMap
pub mod Nexofs
pub mod Initrd
