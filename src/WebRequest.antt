-- ===== src/WebRequest.antt =====
-- The web request library: src/webrequest.
pub mod ErrorCode
pub mod Content
pub mod Accept
pub mod AcceptChoice
pub mod AcceptOrder
pub mod Scanning
pub mod Rounds
pub mod AcceptTermination
pub mod TypeNames
pub mod Choice
pub mod Encoding
pub mod Truncation
pub mod ByteOrder
pub mod PathBuf
mod Tests
