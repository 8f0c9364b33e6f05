-- ===== src/Watermark.antt =====
-- The watermark subsystem (src/watermark/): cursors, control store, source adapter, pipeline.
pub mod Models
pub mod Store
pub mod Source
pub mod Landing
pub mod Pipeline
mod Tests
