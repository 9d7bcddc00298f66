-- ===== src/Stream.antt =====
-- The package stream: a buffered reader and a writer that collects buffers, over buf's pool.
pub mod Reader
pub mod Writer
mod Tests
