-- ===== src/NetThread.antt =====
-- The net thread, crates/net-thread.
pub mod Smoltcp
pub mod ListenTable
pub mod Ports
pub mod Tcp
pub mod Poll
pub mod Requests
