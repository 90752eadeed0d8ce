-- ===== src/Pool/MapResult/Failure.antt =====
-- One batch that fails settles the whole `map`.
use billiard.Pool.MapResult.{MapResult}
