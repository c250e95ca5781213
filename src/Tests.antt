-- ===== src/Tests.antt =====
-- Concrete requests, queues and files, on which the theorems of the library are applied.
mod Data
mod Requests
mod Files
mod Rounds
mod Loops
mod Session
mod Structures
mod Turns
mod Ends
mod Scheduling
