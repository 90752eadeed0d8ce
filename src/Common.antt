-- ===== src/Common.antt =====
-- billiard/common.py: the restart limiter of the pool.
pub mod RestartState
