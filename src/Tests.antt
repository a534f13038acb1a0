-- ===== src/Tests.antt =====
-- Concrete inputs, and the theorems at them.
pub mod Keys
pub mod Codec
pub mod Client
pub mod Tokens
pub mod Sessions
pub mod Requests
pub mod Typing
pub mod Calls
pub mod Displays
pub mod Maps
pub mod Commands
