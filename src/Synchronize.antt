-- ===== src/Synchronize.antt =====
-- billiard/synchronize.py: the condition variable and the event, which are built from counting semaphores.
pub mod Condition
pub mod Event
