-- ===== src/EventLoop.antt =====
-- The thread that sends requests to other services and calls the periodic functions:
-- src/webrequest/curlEventLoop.cpp, with its messages (src/webrequest/curlMessage.cpp).
pub mod Message
pub mod State
pub mod Jobs
pub mod Client
pub mod Thread
pub mod Run
pub mod Account
pub mod Batches
pub mod Shutdown
pub mod Termination
pub mod Ticks
pub mod SendErrors
mod Tests
