-- ===== src/Tests.antt =====
-- The theorems at concrete inputs, and runs of the model.
mod Data
mod Disk
mod Machine
mod Experiments
mod Whole
mod Bytes
mod Ordering
mod Serving
mod Handlers
mod Replication
mod Wire
mod Coordinator
