-- ===== src/Assinatura.antt =====
-- The package `assinatura`: writes are let through according to the tenant's contract.
pub mod Guarda
pub mod HttpChecker
