-- ===== src/Seguranca.antt =====
-- The package seguranca: rate limiter, blocker of addresses, CSRF guard, audit, client address,
-- security headers, checks of the production configuration.
pub mod Ip
pub mod RateLimiter
pub mod IpBlocker
pub mod Csrf
pub mod Audit
pub mod Env
pub mod Headers
pub mod Eventos
