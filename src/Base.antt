-- ===== src/Base.antt =====
-- framework/base.
pub mod Convert
pub mod WriteFile
pub mod ReadFile
mod Tests
