-- ===== src/Domain.antt =====
-- The policy decision on a payment, and its receipt (src/domain.mjs). The limits of a policy are whole
-- numbers of the smallest unit, as the amounts are; a text that may be absent or empty is an `Option`.
pub mod Amounts
pub mod Types
pub mod Receipts
pub mod Decisions
pub mod Budget
pub mod TrustFlow
pub mod NotANumber
mod Tests
use Prim.Native.String.{◌++◌ as text_append}
use stellar_agent_spend_hub.Common.{
  ℕ, ◌+◌, ◌-◌, String, Bool, true, false, ◌&&◌, ◌||◌, not, Option, none, some, List, [], ◌∷◌, ◌++◌,
  ltb, ◌==◌, if◌then◌else◌, take,
}
use stellar_agent_spend_hub.Common.Text.{Codes, codes, str_eq}
use stellar_agent_spend_hub.Domain.Amounts.{Amount, units, plus, exceeds, room_under}
unfoldable pub use Types.*
unfoldable pub use Receipts.*

-- `text.startsWith(prefix)`
unfoldable pub starts_with : Codes → Codes → Bool
starts_with text [] = true
starts_with [] (p ∷ prefix) = false
starts_with (c ∷ text) (p ∷ prefix) = c == p && starts_with text prefix

-- `text.includes(part)`
unfoldable pub includes : Codes → Codes → Bool
includes [] part = starts_with [] part
includes (c ∷ text) part = starts_with (c ∷ text) part || includes text part

abbrev pub is_settled : ReceiptStatus → Bool
is_settled settled = true
is_settled other = false

abbrev pub counts : Codes → Receipt → Bool
counts key receipt = is_settled receipt.status && starts_with receipt.timestamp key

-- The settled amounts whose timestamp starts with a day, or a month.
unfoldable pub spent : Codes → List Receipt → Amount
spent key [] = units 0
spent key (receipt ∷ receipts) =
    plus (if counts key receipt then receipt.amount else units 0) (spent key receipts)

-- `reasons` and `evidence`, as they fill
abbrev pub Notes : Type 0
Notes = List String × List String

abbrev push : String → List String → List String
push x xs = xs ++ (x ∷ [])

-- one check: a reason where it fails, evidence where it holds
abbrev pub check : Bool → String → String → Notes → Notes
check true reason proof (reasons, evidence) = (push reason reasons, evidence)
check false reason proof (reasons, evidence) = (reasons, push proof evidence)

-- a check that leaves no evidence
abbrev pub demand : Bool → String → Notes → Notes
demand true reason (reasons, evidence) = (push reason reasons, evidence)
demand false reason notes = notes

-- `mergeDecision`
abbrev pub merge_decision : Option Decision → Notes → Notes
merge_decision none notes = notes
merge_decision (some d) (reasons, evidence) =
    if d.allowed then (reasons, evidence ++ d.evidence) else (reasons ++ d.reasons, evidence)

abbrev pub absent : Option Decision → Bool
absent none = true
absent (some d) = false

abbrev pub denied : Option Decision → Bool
denied none = false
denied (some d) = not d.allowed

abbrev pub is_empty : List String → Bool
is_empty [] = true
is_empty (x ∷ xs) = false

abbrev pub is_high : RiskLevel → Bool
is_high high = true
is_high other = false

abbrev pub listed : String → List String → Bool
listed id [] = false
listed id (p ∷ ps) = str_eq p id || listed id ps

abbrev names_policy : String → Bool
names_policy reason =
    includes (codes reason) (codes "limite")
    || includes (codes reason) (codes "allowlist")
    || includes (codes reason) (codes "Activo")
    || includes (codes reason) (codes "Slippage")
    || includes (codes reason) (codes "Autopilot")

abbrev some_reason : List String → Bool
some_reason [] = false
some_reason (r ∷ rs) = names_policy r || some_reason rs

abbrev stopped_if : Bool → StageStatus
stopped_if true = stopped
stopped_if false = ready

abbrev after_reasons : List String → StageStatus
after_reasons [] = waiting
after_reasons (r ∷ rs) = stopped

-- `buildTrustFlow`
unfoldable pub build_trust_flow :
    List String → Option Decision → Option Decision → Policy → List Stage
build_trust_flow reasons legal privacy policy =
    record {
      stage = "Discover";
      status = stopped_if (denied legal || (policy.require_legal_context && absent legal));
      label = "Directory, provider, price, endpoint and LCP";
    }
    ∷ record {
      stage = "Privacy Proof";
      status = stopped_if (denied privacy);
      label = "Commitments/proofs without revealing PII";
    }
    ∷ record {
      stage = "Policy Check";
      status = stopped_if (some_reason reasons);
      label = "Spending, assets, slippage y risk policy";
    }
    ∷ record {
      stage = "User Confirm";
      status = after_reasons reasons;
      label = "Training Mode exige passkey del usuario";
    }
    ∷ record {
      stage = "Stellar Settle";
      status = after_reasons reasons;
      label = "Stellar settlement and PII-free receipt";
    }
    ∷ []

abbrev scanned : Scan → Notes
scanned scan =
    if scan.allowed
    then ([], "Sin datos personales en la propuesta publica" ∷ [])
    else (scan.reasons, [])

abbrev found_in_directory : Option String → Notes → Notes
found_in_directory none notes = notes
found_in_directory (some name) (reasons, evidence) =
    (reasons, push (text_append "Proveedor encontrado en el directorio: " name) evidence)

abbrev pub day_key : Codes → Codes
day_key now = take 10 now

abbrev pub month_key : Codes → Codes
month_key now = take 7 now

infixl 2 ◌▷◌
abbrev ◌▷◌ : Notes → (Notes → Notes) → Notes
notes ▷ step = step notes

-- The checks of `evaluatePaymentIntent` in their order; `scan` is the answer on the public payload.
unfoldable pub notes_of : Scan → Intent → Policy → Options → Amount → Amount → Notes
notes_of scan intent policy options spent_today spent_this_month =
    scanned scan
    ▷ check (not (listed intent.provider_id policy.allowlisted_providers))
        "El proveedor no esta en la lista permitida" "Proveedor verificado en la lista permitida"
    ▷ check (exceeds intent.amount policy.per_payment_limit) "El monto supera el limite por pago"
        "El monto esta dentro del limite por pago"
    ▷ check (exceeds (plus spent_today intent.amount) policy.daily_limit)
        "El monto supera el limite diario" "Queda presupuesto diario suficiente"
    ▷ check (exceeds (plus spent_this_month intent.amount) policy.monthly_limit)
        "El monto supera el limite mensual" "Queda presupuesto mensual suficiente"
    ▷ check (intent.autopilot_requested || policy.autopilot_enabled)
        "El pago automatico esta desactivado en modo demo"
        "Modo demo: tu confirmas antes de mover dinero"
    ▷ demand (is_high intent.risk_level) "El riesgo alto requiere una revision manual mas larga"
    ▷ found_in_directory options.directory_name
    ▷ demand (policy.require_legal_context && absent options.legal_decision)
        "Se requieren terminos legales antes de pagar"
    ▷ merge_decision options.legal_decision
    ▷ merge_decision options.privacy_decision
    ▷ merge_decision options.crypto_decision
    ▷ merge_decision options.defi_decision
    ▷ demand (intent.proof_required && absent options.privacy_decision)
        "Se requiere una prueba de privacidad antes de pagar"

-- `evaluatePaymentIntent(intent, policy, receipts, options)`; `now` is the ISO text of the time
unfoldable pub evaluate_payment_intent :
    (Intent → Scan) → Intent → Policy → List Receipt → Codes → Options → Evaluation
evaluate_payment_intent guard intent policy receipts now options =
    let spent_today = spent (day_key now) receipts in
    let spent_this_month = spent (month_key now) receipts in
    let (reasons, evidence) =
      notes_of (guard intent) intent policy options spent_today spent_this_month in
    record {
      allowed = is_empty reasons;
      requires_confirmation = true;
      reasons = reasons;
      evidence = evidence;
      spent_today = spent_today;
      spent_this_month = spent_this_month;
      remaining_daily = room_under policy.daily_limit spent_today;
      remaining_monthly = room_under policy.monthly_limit spent_this_month;
      options = options;
      trust_flow = build_trust_flow reasons options.legal_decision options.privacy_decision policy;
    }
