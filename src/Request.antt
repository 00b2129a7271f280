-- ===== src/Request.antt =====
-- The requests of the web service: src/webrequest/webRequestHandler.cpp and the files
-- src/webrequest/webRequestContext*.cpp.
pub mod Format
pub mod SelfPath
pub mod State
pub mod Object
pub mod Transact
pub mod Execute
pub mod Complete
pub mod Explained
pub mod Silent
pub mod Configure
pub mod GivesBack
pub mod Addressed
mod Tests
