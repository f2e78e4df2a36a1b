-- ===== src/Providers.antt =====
-- The catalogue of providers and models and the router over it (app/providers/registry.py,
-- catalog.py, router.py and routing_contracts.py).
pub mod Catalogue
pub mod Registered
pub mod Routing
pub mod Route
pub mod Constraints
pub mod Winner
pub mod Origins
pub mod Selected
pub mod Distinct
pub mod Evaluated
pub mod Total
