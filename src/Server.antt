-- ===== src/Server.antt =====
-- cmd/server/main.go, besides the handler of /ws, which is Connect: how the two servers start, wait for
-- what they depend on, answer and end, and what they write to the log of the address of the database.
pub mod Dsn
pub mod Ping
pub mod Api
pub mod Start
pub mod Tests
pub mod Wiring
