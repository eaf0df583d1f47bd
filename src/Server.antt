-- ===== src/Server.antt =====
-- The server crate: the middleware around the proxy handler.
pub mod Auth
pub mod LoadShed
pub mod Layers
pub mod Body
pub mod HeaderLimit
pub mod OriginGuard
pub mod RateLimit
pub mod Outbound
pub mod Crates
pub mod State
pub mod Guards
pub mod Proxy
mod Tests
