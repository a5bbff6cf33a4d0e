-- ===== src/Examples.antt =====
-- The properties at concrete inputs.
mod Tree
mod Reliable
mod Nodes
mod Sessions
mod Clients
mod Watches
mod Threads
mod Queues
mod Locks
mod Turns
mod Meeting
mod Mutex
mod Voting
mod Gates
mod Crowd
