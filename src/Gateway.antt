-- ===== src/Gateway.antt =====
-- src/internal/gateway: the front door of the users' requests.
pub mod Proxy
pub mod Receipt
pub mod RateLimit
pub mod RequestLog
pub mod Body
pub mod Stream
pub mod Streaming
pub mod Registration
pub mod Keys
pub mod Intake
pub mod ModelNames
pub mod Router
pub mod Session
pub mod Waiting
mod Tests
