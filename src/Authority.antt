-- ===== src/Authority.antt =====
-- Authority contracts and their algebra (app/authority_contracts).
pub mod Tiers
pub mod Identifiers
pub mod Contracts
pub mod Algebra
pub mod Patterns
pub mod Validity
pub mod Semilattice
pub mod Order
pub mod Meet
