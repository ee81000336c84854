-- ===== src/Core.antt =====
-- include/marketforge/core and src/core: statuses, checked 64-bit arithmetic and tensor shapes.
pub mod Status
pub mod CheckedMath
pub mod Shape
pub mod TensorView
mod Tests
