-- ===== src/Http.antt =====
-- internal/delivery/http: how the handlers answer.
pub mod Failures
pub mod Payloads
pub mod Request
pub mod AuthHandler
pub mod RoomHandler
pub mod MessageHandler
pub mod Router
pub mod Hiding
pub mod Showing
pub mod Answers
pub mod Tests
