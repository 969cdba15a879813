-- ===== src/Request.antt =====
-- src/request.rs: the request builder, the HTTP/3 attempts and `send`, and the theorems on them.
pub mod Builder
pub mod Fallback
pub mod Send
pub mod Calls
pub mod Memory
pub mod Configuration
pub mod OnlyTcp
pub mod Skipped
pub mod Errors
pub mod Walk
pub mod Valid
pub mod Elapsing
pub mod Answers
pub mod Advertised
pub mod Remembering
pub mod Isolation
pub mod Blocked
pub mod Giving
pub mod Calm
pub mod Timing
