-- ===== src/Tests.antt =====
-- Concrete inputs: a kernel that meets the documented laws, and each property at such an input.
mod ToyKernel
mod ToyMapping
mod Memory
mod Protocols
mod Allocator
mod ToySmoltcp
mod Network
mod Sockets
mod Threads
mod Helpers
mod Drivers
mod Images
mod Stacks
mod Calls
mod Seats
