-- ===== src/Log.antt =====
-- framework/log.
pub mod FixedBuffer
pub mod LogStream
pub mod AsyncLogging
pub mod LogFile
pub mod Logging
mod Tests
