-- ===== src/Utils.antt =====
-- skywalking/utils: counters and the lock-protected cells that the profiler shares between threads.
pub mod Counter
pub mod AtomicRef
pub mod AtomicArray
mod Tests
