-- ===== src/Domain/Types.antt =====
-- The data of a policy decision and of a receipt (src/domain.mjs).
use stellar_agent_spend_hub.Common.{ℕ, String, Bool, Option, List}
use stellar_agent_spend_hub.Common.Text.{Codes}
use stellar_agent_spend_hub.Domain.Amounts.{Amount}

pub data ReceiptStatus : Type 0 where
  settled blocked pending : ReceiptStatus

pub data RiskLevel : Type 0 where
  low medium high : RiskLevel

pub record Policy : Type 0 where
  pub allowlisted_providers : List String
  pub per_payment_limit : ℕ
  pub daily_limit : ℕ
  pub monthly_limit : ℕ
  pub autopilot_enabled : Bool
  pub require_legal_context : Bool
  pub min_legal_trust_level : ℕ
  pub allowed_assets : List String
  pub allowed_defi_protocols : List String
  pub max_portfolio_action_amount : ℕ
  pub max_slippage_bps : ℕ

pub record Intent : Type 0 where
  pub id : String
  pub provider_id : String
  pub provider_name : String
  pub intent_type : String
  pub category : String
  pub amount : Amount
  pub currency : String
  pub agent_reason : String
  pub autopilot_requested : Bool
  pub risk_level : RiskLevel
  pub proof_required : Bool
  pub privacy_requirement : Option String

-- The terms on which a legal decision was taken.
pub record LegalSnapshot : Type 0 where
  pub legal_context_url : String
  pub terms_url : String
  pub atr_hash : Option String
  pub acceptance_required : Bool
  pub trust_level : ℕ
  pub dispute_resolution : Option String

-- A decision of the legal, the privacy, the crypto or the DeFi adapter.
pub record Decision : Type 0 where
  pub allowed : Bool
  pub reasons : List String
  pub evidence : List String
  pub snapshot : Option LegalSnapshot
  pub terms_hash : Option String
  pub proof_hash : Option String
  pub commitment : Option String
  pub privacy_level : Option String

pub record Options : Type 0 where
  pub legal_decision : Option Decision
  pub privacy_decision : Option Decision
  pub crypto_decision : Option Decision
  pub defi_decision : Option Decision
  pub directory_name : Option String

pub record PolicyDecision : Type 0 where
  pub allowed : Bool
  pub requires_confirmation : Bool
  pub reasons : List String

pub record Receipt : Type 0 where
  pub id : String
  pub intent_id : String
  pub provider_id : String
  pub provider_name : String
  pub intent_type : String
  pub category : String
  pub amount : Amount
  pub currency : String
  pub status : ReceiptStatus
  pub timestamp : Codes
  pub transaction_hash : Option String
  pub rail : Option String
  pub network : Option String
  pub asset : String
  pub finality : Option String
  pub execution_status : String
  pub reason : String
  pub evidence : List String
  pub approved_by : String
  pub accepted_by : Option String
  pub accepted_at : Option Codes
  pub legal_context_snapshot : Option LegalSnapshot
  pub terms_hash : Option String
  pub proof_hash : Option String
  pub commitment : Option String
  pub privacy_level : String
  pub policy_decision : PolicyDecision

pub data StageStatus : Type 0 where
  ready stopped waiting : StageStatus

pub record Stage : Type 0 where
  pub stage : String
  pub status : StageStatus
  pub label : String

pub record Evaluation : Type 0 where
  pub allowed : Bool
  pub requires_confirmation : Bool
  pub reasons : List String
  pub evidence : List String
  pub spent_today : Amount
  pub spent_this_month : Amount
  pub remaining_daily : Amount
  pub remaining_monthly : Amount
  pub options : Options
  pub trust_flow : List Stage

-- What `assertNoSensitiveData` answers.
pub record Scan : Type 0 where
  pub allowed : Bool
  pub reasons : List String

-- What a payment rail answers; an empty text counts as none.
pub record RailResult : Type 0 where
  pub execution_status : Option String
  pub transaction_hash : Option String
  pub rail : Option String
  pub network : Option String
  pub asset : Option String
  pub finality : Option String
