-- ===== src/Multichain.antt =====
-- Payments and bridges across chains (src/multichainService.mjs and what it calls).
pub mod Repository
pub mod Bridge
pub mod Verification
pub mod Service
