-- ===== src/SpendHub.antt =====
-- The spend hub: intents, the adapters that judge and pay them, and the service that keeps them
-- (src/spendHubService.mjs and the adapters that it calls).
pub mod Intent
pub mod Judges
pub mod Rails
pub mod Machine
pub mod Hub
pub mod Service
