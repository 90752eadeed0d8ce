-- ===== src/Pool.antt =====
-- billiard/pool.py: the process pool, a module for each of its parts.
pub mod Chunks
pub mod MapResult
pub mod IMap
pub mod ApplyResult
pub mod Semaphore
pub mod ResultHandler
pub mod Timeouts
pub mod Workers
pub mod WorkerLoop
pub mod TaskHandler
pub mod Front
