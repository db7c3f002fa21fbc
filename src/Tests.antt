-- ===== src/Tests.antt =====
-- The theorems at concrete inputs.
mod Buffers
mod Dispatchers
mod Loops
mod Connections
mod Threads
mod Sockets
mod Queues
mod Servers
mod Hosts
mod Interleavings
mod Machines
mod Objects
