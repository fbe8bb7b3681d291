-- ===== src/FullEdge.antt =====
-- internal/fulledge: which detections of the cameras become events.
mod Tests
pub mod Dedup
