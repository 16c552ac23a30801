-- ===== src/RateLimit.antt =====
-- extensions/gpustack-rate-limit: the storage of its sliding windows.
pub mod Window
pub mod Batch
mod Tests
