-- ===== src/Scenarios/Web.antt =====
-- Requests over HTTP, with the adapter over a driver in memory.
use hexagonal_queue.Flow.Ends.{Ends}
