-- ===== src/Config.antt =====
-- The stored configurations of a service: src/webrequest/configurationHandler.cpp.
pub mod FileName
pub mod ContextMap
pub mod Handler
pub mod Storage
pub mod Prepared
pub mod Stored
pub mod StoredOnce
pub mod FileNameParts
pub mod Commit
pub mod Counter
mod Tests
