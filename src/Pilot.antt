-- ===== src/Pilot.antt =====
-- The provider pilot (src/pilotService.mjs, pilotRepository.mjs, pilotValidation.mjs,
-- pilotPresentation.mjs, pilotRateLimit.mjs): its records, their store, and the service.
pub mod Record
pub mod Validation
pub mod Repository
pub mod Service
pub mod Settlement
pub mod RateLimit
