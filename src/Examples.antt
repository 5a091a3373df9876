-- ===== src/Examples.antt =====
-- Concrete streams, interpreters and managers, at which the theorems apply.
mod Engine
mod Wire
mod Stream
mod Pinned
mod Reading
mod Filtering
mod Calls
mod Racing
mod Scripts
mod Delayed
