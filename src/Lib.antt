-- ===== src/Lib.antt =====
-- Verification of the Stellar agent spend hub: the parts that move money between states.
--
-- The hub lets an agent ask for a paid resource and a person approve the payment. An amount is a
-- decimal text that becomes base units (src/multichainMoney.mjs). A pilot request is created,
-- prepared, approved by its token, claimed by a buyer under a lease, and settled with a receipt
-- (src/pilotService.mjs, with its checks in src/pilotValidation.mjs and its public views in
-- src/pilotPresentation.mjs). The records stand in a store that counts versions and retries
-- (src/pilotRepository.mjs); a limiter counts calls (src/pilotRateLimit.mjs). Other payments are
-- decided by a policy with budgets and leave a receipt (src/domain.mjs). A contract account is
-- registered in a ceremony (src/contractAccountCeremony.mjs), and its requests are used once
-- (src/contractAccountRepository.mjs). Machine payments keep their challenges in a store that is
-- changed by compare-and-set (src/mppStore.mjs).
--
-- A user's own payments go through the spend hub (src/spendHubService.mjs): an intent is built from
-- a provider (src/spendHubIntentFactory.mjs), judged by adapters for terms, privacy, crypto and DeFi
-- (src/legalContextAdapter.mjs, zkCommitmentAdapter.mjs, cryptoActionAdapter.mjs,
-- defindexAdapter.mjs), decided by the policy on the receipts so far, and paid on a rail
-- (src/paymentRailAdapter.mjs, linkAgentWalletAdapter.mjs); a machine resource is delivered for a
-- receipt (src/machinePaymentAdapter.mjs).
--
-- A bridge of USDC from Base to Stellar, and a settlement on Base, are records of the multichain
-- service (src/multichainService.mjs, cctpBridgeAdapter.mjs, multichainRepository.mjs), which change
-- when the networks confirm a transaction (src/multichainVerification.mjs).
--
-- Files:
-- - Common and Common/*: library names, tests on numbers and texts, results with an HTTP status,
--   actions on a state, decimal texts, keyed stores, the moments of a retry loop.
-- - Money: parseTokenAmount, formatTokenAmount, compareBaseUnits, scaleBaseUnits, validateDecimals.
--   Money/Texts, Parsing, RoundTrip and Scaling hold the proofs.
-- - Domain: evaluatePaymentIntent, createReceipt, buildTrustFlow and mergeDecision. Domain/Types has
--   its data, Domain/Amounts its numbers and Domain/Receipts createReceipt. Domain/Decisions, Budget,
--   NotANumber and TrustFlow hold the proofs.
-- - ContractAccount/Repository: saveRequest, getRequest, consumeRequest, markFailed, saveReceipt and
--   listReceipts in memory, with proofs in Once and Ledger. ContractAccount/Ceremony: save, claim,
--   update, complete, fail and status in memory, with proofs in Lifecycle.
-- - Mpp: the update of createAtomicRedisAdapter (src/mppStore.mjs) with its script; proofs in Atomic.
-- - Pilot/Record: the record, publicPilotRequest, pilotBuyerRequest, publicPilotEvidence.
-- - Pilot/Validation: the validate* functions and safeDigestEqual.
-- - Pilot/Repository: create, get, update and list in memory, and the remote compare-and-set.
--   Its children hold the proofs: one atomic change, creation, versions, what a success means.
-- - Pilot/Service: the methods of PilotService. A method is an action on the store that may throw:
--   what it wrote before stays. Its children hold the proofs on approvals, claims and settlements,
--   drafts, and the invariant of the reachable stores.
-- - Pilot/Settlement: verifyPilotSettlement, verifyTransferOperation, decodeContractAddress and
--   decimalToBaseUnits, with the proof in Sound.
-- - SpendHub/Intent: buildSpendIntent and its helpers. SpendHub/Judges: the evaluate methods of the
--   adapters, createProof, storeSecret and the directory's get. SpendHub/Rails: the simulated and the
--   link wallet, resolvePaymentExecutionMode. SpendHub/Machine: the machine payment adapter.
-- - SpendHub/Hub: the state, findIntent, evaluateIntent, safeLegalDecision, activePaymentAdapter.
-- - SpendHub/Service: the calls that change the state, with the intents, the link requests and the
--   machine resources in its children Intents, Link and Purchases. The others hold the proofs: Payments,
--   Charging (what an approval does to the receipts), Frame (the calls that leave them alone), Runs,
--   Once, Replay, Idempotency, Delivery.
-- - Multichain/Repository: create, get, update and list in memory for records of one kind; the proof
--   on update in Written. Multichain/Bridge: createIntent, prepare and the calldata helpers of
--   cctpBridgeAdapter, the fields of publicBridge. Multichain/Verification: the functions of
--   multichainVerification. Multichain/Service: createBridge, prepareBridge, recordBurn, bridgeStatus,
--   recordSettlement and verifyAndRecordSettlement; its children hold the proofs: Burns, Settlements,
--   Prepared, Stale.
-- - Pilot/RateLimit: consume, enforceMemory and rateError.
--
-- How the code is read. A time is a number of milliseconds, and an absent one is `none`; the round
-- trip of a time through its ISO text is taken to be exact. Calls interleave only where the code
-- waits: `World.between` and `World.others` are what other calls do to the store there, before a
-- write and before the check of each attempt. New UUIDs and the clock are arguments. SHA-256, HMAC
-- and the ISO text are fields of `Crypto`, which promises that a digest is 64 hexadecimal
-- characters; what the network and the Stellar SDK answer to the verifier of a settlement are
-- arguments. The messages leave out interpolated values. `update` makes 8 attempts, and that of Mpp
-- 12, as the code does (Common/Stage names the store at the start of each), and the remote store is
-- its script, run at once. `Number(value)` of a pilot amount is read for decimal notation only, and
-- `BigInt` for texts of digits.
--
-- An amount of the policy, where the code has a floating number, is a multiple of 1e-7, the smallest
-- unit, above or below zero, or not a number (Domain/Amounts); the limits of a policy are in the same
-- unit, so that the code's 25 is `whole 25`. Sums are exact: the rounding of floating numbers and the
-- infinities are left out. The scan for sensitive data is an argument of the decision and of the
-- receipt.
--
-- In the hub, `World.during_evaluation` is what other calls do while a call waits for the legal
-- context, and `World.during_adapter` what they do while it waits for the adapters, numbered in
-- their order. An intent is changed in place by its number: the first intent with it in the list.
-- The adapters of the Stellar and the Soroban network are the fields `direct` and `soroban` of
-- `Setup`. The theorems on approvals assume of an adapter what both do: it settles only what the
-- evaluation allowed, and its receipt has the intent's number and amount and the time; it may refuse
-- more, as the Soroban adapter does, and add fields. Saving the state and the views of it are left
-- out.
--
-- For the multichain service the packages viem and Stellar SDK are the fields of `Chains`, and the
-- networks those of `Network`; an address or a hash is a text, and links made of hashes are left
-- out. `hook_bytes` takes a recipient of ASCII characters, as every valid one is.
--
-- Not modelled: the remote create script and the expiry of keys, the remote limiter, the sensitive
-- data guard, the clients of networks and browsers, the HTTP and MCP layers, the views of the hub,
-- quotes and proofs of x402, the adapters of real networks, the other services.
pub mod Common
pub mod ContractAccount
pub mod Domain
pub mod Money
pub mod Mpp
pub mod Multichain
pub mod Pilot
pub mod SpendHub
