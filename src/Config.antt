-- ===== src/Config.antt =====
-- crates/corx-core/src/config: the configuration of the proxy, its defaults and its checks. The
-- sections of the circuit breaker, the CORS layer, the address guard, the target policy and the
-- forwarded headers stand with these components.
pub mod Limits
pub mod RateLimit
pub mod Security
pub mod Listener
pub mod Tree
pub mod Equality
pub mod Validate
mod Tests
