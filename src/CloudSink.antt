-- ===== src/CloudSink.antt =====
-- internal/cloudsink: frames whose upload failed wait on disk.
pub mod Entry
pub mod Buffer
mod Tests
