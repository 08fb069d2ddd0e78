-- ===== src/Auth.antt =====
-- The package auth: claims and context, read requests, the assistant's channel, tokens, the
-- authentication and tenant middlewares, permissions.
pub mod Claims
pub mod Contexto
pub mod Leitura
pub mod Token
pub mod Canal
pub mod Middleware
pub mod Tenant
pub mod Permissao
pub mod Mask
