-- ===== src/Serving.antt =====
-- include/marketforge/serving and src/serving: the control plane of inference, a scheduler of
-- sequences and the page accounting of their key-value cache.
pub mod Scheduler
pub mod KvCache
