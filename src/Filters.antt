-- ===== src/Filters.antt =====
-- The example filters of the Go module, one child for each file of go/ that holds a filter.
pub mod Delay
pub mod HeaderAuth
pub mod JavaScript
pub mod Passthrough
