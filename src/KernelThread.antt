-- ===== src/KernelThread.antt =====
-- crates/kernel-thread: the server of the Linux system calls.
pub mod Task
pub mod Server
pub mod Mm
pub mod Thread
pub mod Copy
pub mod Net
pub mod Stack
pub mod Spawn
pub mod Dispatch
