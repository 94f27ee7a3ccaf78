-- ===== src/Tests.antt =====
-- Tests: a concrete platform, small states, and the theorems at work on them.
mod Data
mod Dequeues
mod Rows
mod Tables
mod Messages
mod Contexts
mod Waits
mod Engines
