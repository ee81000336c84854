-- ===== src/Cpu.antt =====
-- include/marketforge/cpu and src/cpu.
pub mod Views
pub mod Attention
pub mod Append
mod Tests
