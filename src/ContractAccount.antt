-- ===== src/ContractAccount.antt =====
-- Contract accounts (src/contractAccountRepository.mjs, src/contractAccountCeremony.mjs): the requests that
-- are used once, the list of receipts, and the ceremony that registers a passkey.
pub mod Repository
pub mod Ceremony
mod Tests
