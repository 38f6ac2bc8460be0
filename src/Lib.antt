-- ===== src/Lib.antt =====
-- MeneOS: the parts of the kernel and of its user-space services that decide what happens, as
-- functions on explicit state.
--
-- The program. The kernel (kernel/) keeps processes, their message queues and a registry of
-- services, and serves system calls. Everything else runs as programs (apps/) that talk by messages:
-- `init` launches the services in the order of their dependencies, restarts them and answers control
-- requests, `virtio_blk` serves blocks of a disk, `fs` keeps files on it, and `ulib` holds the calls
-- that all of them use. A message passes from `sys_ipc_send` of ulib through `handle_syscall` of the
-- kernel to the queue of the receiver, and back through `sys_ipc_recv_timeout`.
--
-- The files.
--   Base: shared tests, lists, little-endian bytes, association lists for `BTreeMap`, arrays with
--     slots, ranges of lists, text, UTF-8 and machine words as bits.
--   NameTable: the interface of an array of named slots, with the lemmas that both registries use.
--   Abi: kernel/mene-abi/src/lib.rs: constants, `MeneSysno`, `Handle`.
--   Ipc: kernel/mene-ipc/src: `Endpoint`, `IpcManager`. Mailboxes has the specification of the
--     manager, Delivery what a sender and a receiver see.
--   Kernel: kernel/mene-kernel/src and kernel/mene-syscall/src/lib.rs: Registry
--     (service/registry.rs), Scheduler (service/scheduler.rs), Lifecycle (process/lifecycle.rs),
--     Process (process/mod.rs), Protocol (ipc/protocol.rs), Device (device/mod.rs), Syscall (arms of
--     `handle_syscall` on messages) with System (the other arms, `spawn_app`); Memory is
--     kernel/mene-memory/src/mmap.rs, Task is kernel/mene-task/src/task.rs.
--     Syscall/Dispatch is `handle_syscall` itself: Memory what a process reads after a write, Messages
--     a message from one memory to another, Isolation and Runs which address spaces a call, and a
--     run of many tasks, can change, Writes and Frame where a call writes in its caller's memory.
--   Ulib: apps/ulib/src/lib.rs: World is what a program sees of the kernel, Ipc and Control are the
--     calls, Calls the registers that they set.
--   Init: apps/init/src/main.rs: Registry (`ServiceRegistry`), ControlPlane (the control requests and
--     `wait_for_reply_or_control`), Services (`spawn_service`, `probe_service`), BootGraph
--     (`parse_boot_graph`), Launch (`launch_graph`), Supervisor (`supervisor_tick`, a round of
--     `control_plane_loop`), Start (`_start` up to that loop).
--   VirtioBlk: apps/virtio_blk/src/main.rs: Backend (`Backend`), Service (a request of `_start`), Hal
--     (`UserVirtHal`), Start (`init_backend` and `_start`).
--   Fs: apps/fs/src/main.rs: BlkCall (`blk_call`), Disk (`VirtioBlkDisk`), FatFs (the crate axfatfs
--     as a parameter), Requests (the fields of a request), Service (a round of `_start`), with
--     NoCapability, what the kernel hands to the loops of fs and virtio_blk.
--   Serial: apps/serial/src/main.rs: `print_usize`, `print_prefix`, `print_record`; Start is `_start`.
--   Helloworld: apps/helloworld/src/main.rs: `fs_call`, `fs_write`, `fs_read`, `_start`; Retries is about
--     the loops, Served and Run about the program with fs at the other end, if its requests came with a
--     capability to reply to, which the kernel never hands over.
--   Xtask: xtask/src: Make (make.rs, context.rs, commands/build.rs, commands/run.rs), MeneRootfs
--     (commands/mene_rootfs.rs).
-- The modules Tests hold runs at concrete inputs.
--
-- State and names. A static or a `&mut` argument is a field of a record that a function takes and
-- returns. A lock is held throughout each function that takes it, so a call is one step. A function
-- keeps the name of the Rust function; the arms and loop bodies of a longer one have names of their
-- own. A `usize` is a natural number, with the wrap-around or the saturation written where the code
-- can reach it; sums without a check wrap, as in a release build. Arrays and slices are lists.
-- A Rust enumeration that carries nothing is a data type of constants; `Result<(), E>` and `Option`
-- are sums.
--
-- What a program cannot see is a parameter or an input: the results of system calls are lists in
-- `World`, so that a statement over every world covers every interleaving with other programs; the
-- driver of the crate virtio-drivers is the record `Driver`; the numbers of the errors of axerrno are
-- a function. The disk of fs is stated over the interface `SectorIo`, which the block calls fill.
--
-- Bounds and fuel. `launch_graph` has 65 rounds: each but the last starts one more of at most 16
-- services. The loops of `read` and `write` of the disk have one unit of fuel for each byte asked
-- for: a round moves at least one. `print_usize` has 21 rounds for the at most 20 digits of a 64-bit
-- number. `blk_call` tries 250 times and `wait_for_reply_or_control` as often as it is told, as in the
-- code. `share` of the block service has a round
-- for each byte of the buffer and one more, and each round covers at least one. `fs_write` and `fs_read`
-- of helloworld try 50 times, as in the code. `read_file_all` has a round for each byte of the file and one more: a read that returns
-- nothing ends it. The lines of a boot configuration and the services in it are walked by structural
-- recursion.
--
-- Other crates. `FatFs` is axfatfs and `IsVolume` what it promises on a volume that has room and
-- whose transfers do not fail: a read or write from the cursor stops at the end of a cluster, and what
-- changes a file is told by paths that name no directory and no file by a short name made up for it.
-- `Machine` is axmm, axalloc and memory_addr. `IsMachine` says that an allocation is in use until it is
-- given back under its address and that a mapping can be undone, `IsPageTable` that a mapped page lies
-- in a frame. `Loader` is xmas_elf and the file system of the kernel. The modules Tests have a volume in
-- memory, a machine and a page table that fulfil these. `Devices` are the transports of virtio-drivers, `Kernel` of
-- VirtioBlk/Hal the system calls that its memory comes from; PAGE_SIZE of the crate is 4096. `Env` has the
-- numbers of the crate `syscalls`, and `Host` and `Shell` of Xtask the files, the environment and how
-- commands end; `duct` reports a command without success as an error.
--
-- Memory. The memory of a caller is a function from addresses to bytes, of which the kernel reads and
-- writes the ranges that the registers name; that an address is mapped is not part of it.
--
-- Not modelled: what runs in user space between two entries into the kernel; the crate virtio_drivers
-- and the registers of the devices, which are parameters; reading a device tree; wait queues, since
-- nothing waits on one; logging, except in helloworld, whose lines are kept but not sent; the allocator,
-- unsafe memory and start-up code; the parsing of the command line of xtask; the loop of vmm, which
-- answers a request with the result of one system call, and syscall_compat, which logs.
pub mod Base
pub mod NameTable
pub mod Kernel
pub mod Ipc
pub mod Abi
pub mod VirtioBlk
pub mod Ulib
pub mod Fs
pub mod Init
pub mod Serial
pub mod Helloworld
pub mod Xtask
