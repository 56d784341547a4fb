-- ===== src/Tests.antt =====
-- Runs of the definitions on small inputs, and the theorems applied at them.
mod Names
mod Decisions
mod Wire
mod Sniffing
mod Counting
mod Waiting
mod Interleaved
mod Relaying
mod Choosing
mod Requests
