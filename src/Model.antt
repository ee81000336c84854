-- ===== src/Model.antt =====
-- src/model: the JSON of a weight file's header, and the tensors that the header names.
pub mod Utf8
pub mod Text
pub mod Json
pub mod Safetensors
pub mod Spec
pub mod Config
pub mod Weights
mod Tests
