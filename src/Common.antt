-- ===== src/Common.antt =====
-- extensions/common: the response flag's text, and the request information that metrics use.
pub mod ResponseFlag
pub mod Context
mod Tests
