-- ===== src/Transformation.antt =====
-- extensions/transformation: the header rewriting filter and its parts.
pub mod Headers
pub mod Matcher
pub mod Engine
pub mod Results
pub mod Transformer
pub mod Routes
pub mod Filter
mod Instances
mod Tests
