-- ===== src/Lib.antt =====
-- A multi-server operating system on the seL4 microkernel, in Rust. A root task starts a kernel
-- thread, which serves the Linux system calls of user tasks, a net thread with TCP sockets over
-- smoltcp, and a block thread. They exchange messages through endpoints; each of them hands out
-- capability slots and memory through an object allocator of its own.
--
-- The development follows the crates of the repository:
--
--   Prelude      names of the libraries, lists and tests on native numbers, and `Exec`: code that
--                changes a state, may return an error and may panic. The state that was reached
--                stays in each of these cases.
--   Ipc          `MessageInfo` and the message registers of seL4's IPC buffer.
--   Protocol     crates/common/src/lib.rs: the message labels between the threads, a module each
--                for CustomMessageLabel, RootMessageLabel, BlkMessageLabel and NetRequsetabel, with
--                `try_from`, `to_label` and `build` under the names of the code.
--   Sel4         the kernel as the code calls it: an abstract state, the calls, and records of laws
--                that state their documented behaviour. Capabilities are their slots. A call succeeds
--                only where seL4 says so: retyping wants an empty slot of a CNode that is there, and
--                mapping a capability of the right object that was made and is mapped nowhere.
--   Alloc        crates/common/src/obj_allocator.rs: `ObjectAllocator` over such a kernel.
--   BTree        the standard library's BTreeMap, as an association list in the order of its keys.
--   Crates       the memory_addr and bitflags crates, as parameters with their documented laws.
--   Uspace       crates/common/src/uspace.rs: `LibcSocketAddr` and its two conversions.
--   Image        crates/common/src/utils.rs: `footprint`, the translation tables and `map_image`,
--                over the segments of an image.
--   TaskHelper   crates/task-helper/src/lib.rs: `Sel4TaskHelper`, and `TaskImpl` of
--                crates/root-task/src/task.rs. Its page tables are behind a reference that clones share.
--   RootTask     crates/root-task/src/main.rs: a round of the service loop, the pages for DMA and the
--                loop that maps the device; Start is crates/root-task/src/task.rs.
--   Dma          crates/net-thread/src/virtio_impl.rs and crates/blk-thread/src/virtio.rs: the memory
--                of the drivers, whose addresses the root task translates: a call runs RootTask's
--                `serve` on the registers that seL4 moves over.
--   KernelThread crates/kernel-thread/src: Task is task.rs (`Sel4Task`: pages, page tables, break),
--                and Stack its `map_stack`, `load_elf` and drop; Server is TASK_MAP of child_test.rs,
--                Mm is syscall/mm (`sys_brk`, `sys_mmap`, `sys_unmap`), Thread is syscall/thread and
--                the page faults of child_test.rs, Spawn is `sys_exec` and `sys_clone` with the first
--                task of child_test.rs, Copy is `process_item_list` of utils.rs and `sys_write` of
--                syscall/fs/io.rs, Net is syscall/net with the item functions of utils.rs, and
--                Dispatch is syscall/mod.rs with a round of the service loop of child_test.rs.
--   NetThread    crates/net-thread/src: Smoltcp is the crate smoltcp as a parameter, and addr.rs;
--                ListenTable is smoltcp_impl/listen_table.rs; Ports is `get_ephemeral_port`, and
--                Tcp, Tcp/Close and Tcp/Stream are `TcpSocket`, of smoltcp_impl/tcp.rs; Poll is the
--                snooping of packets and the polling of smoltcp_impl/mod.rs and loopback.rs;
--                Requests is ipc/mod.rs, with the page that a caller passes as a parameter in
--                Requests/Buffers.
--   Tests        a small kernel and a small network stack that meet the laws, and each theorem
--                at concrete values of them.
--
-- A handler of the code is one definition, whose name is the code's where the code has one; the
-- body of a loop, of a match or of a closure is a definition of its own beside it. Rust's `unwrap`,
-- `assert!` and indexing panic. A `usize` is a number whose sums wrap where the code adds without a
-- check; theorems state the bounds under which none passes 2^64.
--
-- Bounds and rounds: loops over pages and over sockets are recursions on lists. `map_page` has
-- NUM_LEVELS rounds as in the code. The search for a port counts the tries that the code allows.
-- `TcpSocket::block_on` loops until its function returns, so it takes a number of rounds, and yields
-- nothing where they run out.
-- `process_item_list` copies a byte or more in each round, so as many rounds as bytes are enough;
-- the loop of `sys_write` need not end, so it yields nothing where the rounds run out, and the
-- dispatch passes the number of rounds on. The loop of `load_elf` passes a page in each round, so it
-- takes as many rounds as a segment has bytes, and Stack/Rounds shows that one more changes nothing.
-- The loop that maps the device yields nothing where its rounds run out; RootTask/Device shows that
-- one round more than tables are missing is enough.
--
-- The threads are single, so locks and atomic fields are plain values, but for the lock of SOCKET_VEC
-- in the Accept request, which takes it twice. Not modelled: the start-up
-- in the `main` of the root task, of the net thread and of the block thread, which chains calls of
-- the kernel and of drivers; the drivers themselves and logging; the loop of the block thread; the two option setters
-- of a TCP socket. The bytes that go through raw pointers, and what a compiler puts on a stack or a
-- heap, are parameters: fields of the records Seat, UserMemory, Wire, Loader, Desktop and Spawner.
-- The net thread as the kernel thread calls it is a parameter, too: its requests are modelled, but
-- the pages that the two share are not.
pub mod Prelude
pub mod Ipc
pub mod Protocol
pub mod Sel4
pub mod Alloc
pub mod BTree
pub mod Crates
pub mod Uspace
pub mod KernelThread
pub mod Image
pub mod TaskHelper
pub mod RootTask
pub mod Dma
pub mod NetThread
mod Tests
