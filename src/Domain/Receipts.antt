-- ===== src/Domain/Receipts.antt =====
-- The receipt of a payment (src/domain.mjs, `createReceipt`).
use Prim.Native.String.{◌++◌ as text_append}
use stellar_agent_spend_hub.Common.{
  String, Bool, true, false, ◌||◌, not, Option, none, some, if◌then◌else◌,
}
use stellar_agent_spend_hub.Common.Text.{Codes, str_eq}
use stellar_agent_spend_hub.Domain.Types.{
  ReceiptStatus, settled, blocked, pending, Intent, Decision, Evaluation, Receipt, RailResult, Scan,
}

abbrev pub or_else : {A : Type 0} → Option A → A → A
or_else none a = a
or_else (some b) a = b

abbrev pub of_decision : {A : Type 0} → (Decision → Option A) → Option Decision → Option A
of_decision field none = none
of_decision field (some d) = field d

abbrev pub of_rail : (RailResult → Option String) → Option RailResult → Option String
of_rail field none = none
of_rail field (some r) = field r

abbrev pub default_status : Option String → String
default_status none = "simulated"
default_status (some hash) = "settled"

unfoldable pub execution_status : Option RailResult → String
execution_status result =
    or_else (of_rail (λ r. r.execution_status) result)
      (default_status (of_rail (λ r. r.transaction_hash) result))

unfoldable pub receipt_status : Bool → String → ReceiptStatus
receipt_status allowed execution =
    if not allowed
    then blocked
    else if str_eq execution "preview" || str_eq execution "submitted"
    then pending
    else settled

unfoldable pub draft_receipt :
    String → Codes → Intent → Evaluation → Option RailResult → String → Receipt
draft_receipt id now intent evaluation result approved_by =
    let execution = execution_status result in
    record {
      id = text_append "receipt-" id;
      intent_id = intent.id;
      provider_id = intent.provider_id;
      provider_name = intent.provider_name;
      intent_type = intent.intent_type;
      category = intent.category;
      amount = intent.amount;
      currency = intent.currency;
      status = receipt_status evaluation.allowed execution;
      timestamp = now;
      transaction_hash = of_rail (λ r. r.transaction_hash) result;
      rail = of_rail (λ r. r.rail) result;
      network = of_rail (λ r. r.network) result;
      asset = or_else (of_rail (λ r. r.asset) result) intent.currency;
      finality = of_rail (λ r. r.finality) result;
      execution_status = execution;
      reason = intent.agent_reason;
      evidence = if evaluation.allowed then evaluation.evidence else evaluation.reasons;
      approved_by = approved_by;
      accepted_by = if evaluation.requires_confirmation then some approved_by else none;
      accepted_at = if evaluation.requires_confirmation then some now else none;
      legal_context_snapshot = of_decision (λ d. d.snapshot) evaluation.options.legal_decision;
      terms_hash = of_decision (λ d. d.terms_hash) evaluation.options.legal_decision;
      proof_hash = of_decision (λ d. d.proof_hash) evaluation.options.privacy_decision;
      commitment = of_decision (λ d. d.commitment) evaluation.options.privacy_decision;
      privacy_level =
          or_else (of_decision (λ d. d.privacy_level) evaluation.options.privacy_decision)
            (or_else intent.privacy_requirement "standard");
      policy_decision = record {
        allowed = evaluation.allowed;
        requires_confirmation = evaluation.requires_confirmation;
        reasons = evaluation.reasons;
      };
    }

unfoldable pub screened : Scan → Receipt → Receipt
screened scan receipt = if scan.allowed then receipt else record receipt {
  status = blocked;
  transaction_hash = none;
  evidence = scan.reasons;
  policy_decision = record {
    allowed = false;
    requires_confirmation = true;
    reasons = scan.reasons;
  };
}

-- `createReceipt({ intent, evaluation, railResult, approvedBy })`; `id` is the new id, `now` the
-- ISO text of the time, and `guard` the scan of a receipt
unfoldable pub create_receipt :
    (Receipt → Scan) → String → Codes → Intent → Evaluation → Option RailResult → String → Receipt
create_receipt guard id now intent evaluation result approved_by =
    let receipt = draft_receipt id now intent evaluation result approved_by in
    screened (guard receipt) receipt
