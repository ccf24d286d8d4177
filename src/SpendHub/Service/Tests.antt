-- ===== src/SpendHub/Service/Tests.antt =====
-- The service of the hub at concrete states: runs of the code, and the theorems applied to them.
use stellar_agent_spend_hub.Common.{
  ◌*◌, All, [], ◌∷◌, ◌≤◌, String, none, some, true, false, find, ◌≡◌, refl,
}
use stellar_agent_spend_hub.Common.Result.{ok}
use stellar_agent_spend_hub.Common.Text.{codes}
use stellar_agent_spend_hub.Common.After.{After}
use stellar_agent_spend_hub.Common.Map.{get, set}
use stellar_agent_spend_hub.Domain.Amounts.{whole, unit_scale, AtMost, IsNumber}
use stellar_agent_spend_hub.Domain.{
  Receipt, evaluate_payment_intent, notes_of, spent, starts_with, create_receipt, draft_receipt,
  screened, receipt_status, execution_status,
}
use stellar_agent_spend_hub.Money.{trim}
use stellar_agent_spend_hub.Pilot.Settlement.Sound.{Any}
use stellar_agent_spend_hub.SpendHub.Intent.{draft_intent, build_spend_intent}
use stellar_agent_spend_hub.SpendHub.Judges.{
  evaluate_legal, evaluate_privacy, evaluate_crypto, evaluate_defi, get_provider,
}
use stellar_agent_spend_hub.SpendHub.Rails.{
  settle_payment, simulated_result, approve_spend_request, create_spend_request,
  settle_link_payment, link_result,
}
use stellar_agent_spend_hub.SpendHub.Machine.{
  Resource, verify_credential, parse_receipt_credential, deliver_resource,
}
use stellar_agent_spend_hub.SpendHub.Hub.{
  Hub, World, find_intent, has_id, update_first, evaluate_intent, evaluate_now, safe_legal_decision,
  active_payment_adapter, simulated_adapter,
}
use stellar_agent_spend_hub.SpendHub.Service.{
  Approval, create_intent, approve_intent, approve_link_spend_request, create_link_spend_request,
  record_receipt, request_machine_resource, is_live, delivered,
}
use stellar_agent_spend_hub.SpendHub.Service.Payments.{IsCalm}
use stellar_agent_spend_hub.SpendHub.Service.Charging.{Approved, Unpaid, approve-Approved}
use stellar_agent_spend_hub.SpendHub.Service.Replay.{
  approve_again, concurrent_approvals, link_approved_again,
}
use stellar_agent_spend_hub.SpendHub.Service.Once.{live_count, live-found, Run-one_receipt, IsQuiet}
use stellar_agent_spend_hub.SpendHub.Service.Runs.{
  Run, start, call, approving, approving_link, IsFunded, Run-within_budget,
}
use stellar_agent_spend_hub.SpendHub.Service.Idempotency.{create_intent_again}
use stellar_agent_spend_hub.SpendHub.Service.Delivery.{Pays, delivered-IsPaid}
use stellar_agent_spend_hub.SpendHub.Service.Samples.{
  guards, setup, moment_at, alone, alone-IsCalm, alone-IsKeeper, setup-IsHonest, draft, waiting,
  empty, id, shop_id, hub, value_or,
}

abbrev first_receipt : Receipt
first_receipt =
    settle_payment guards.receipt (moment_at "r1") waiting
      (evaluate_now setup (moment_at "r1") (safe_legal_decision setup waiting) waiting hub) "user"

abbrev first : Approval
first = record { receipt = first_receipt; replay = false }

abbrev paid_hub : Hub
paid_hub = (approve_intent setup (alone "r1") id "user" hub).1

first_run : approve_intent setup (alone "r1") id "user" hub ≡ (ok first, paid_hub)
unfolding approve_intent find_intent evaluate_intent evaluate_now safe_legal_decision evaluate_legal
    evaluate_privacy evaluate_crypto evaluate_defi get_provider evaluate_payment_intent notes_of
    spent starts_with active_payment_adapter simulated_adapter settle_payment create_receipt
    draft_receipt receipt_status execution_status screened record_receipt update_first
    simulated_result draft_intent
first_run = refl

approve-Approved_example :
    After
      (Approved setup (alone "r1") id hub)
      (Unpaid setup (alone "r1") id hub)
      (approve_intent setup (alone "r1") id "user" hub)
approve-Approved_example =
    approve-Approved setup (alone "r1") id (alone-IsCalm "r1") hub "user" setup-IsHonest

still_there :
    find (has_id id) paid_hub.intents ≡ some (value_or waiting (find_intent id paid_hub).0)
unfolding approve_intent find_intent evaluate_intent evaluate_now safe_legal_decision evaluate_legal
    evaluate_privacy evaluate_crypto evaluate_defi get_provider evaluate_payment_intent notes_of
    spent starts_with active_payment_adapter simulated_adapter settle_payment create_receipt
    draft_receipt receipt_status execution_status screened record_receipt update_first
    simulated_result draft_intent
still_there = refl

first-is_live : is_live id first_receipt ≡ true
unfolding evaluate_now safe_legal_decision evaluate_legal evaluate_privacy evaluate_crypto
    evaluate_defi get_provider evaluate_payment_intent notes_of spent starts_with settle_payment
    create_receipt draft_receipt receipt_status execution_status screened simulated_result
    draft_intent
first-is_live = refl

approve_again_example :
    approve_intent setup (alone "r2") id "other-user" paid_hub
    ≡ (ok (record { receipt = first_receipt; replay = true }), paid_hub)
approve_again_example =
    approve_again setup (alone "r1") id "user" hub first paid_hub (alone-IsCalm "r1") setup-IsHonest
      first_run (alone "r2") "other-user" (value_or waiting (find_intent id paid_hub).0) still_there
      first-is_live

-- the first approval goes on after another one has paid
abbrev overtaken : World
overtaken = record (alone "r3") {
  during_evaluation = λ s. (approve_intent setup (alone "r1") id "user" s).1;
}

overtaken-IsCalm : IsCalm overtaken
overtaken-IsCalm = record { receipts = λ n s. refl; intents = λ n s id i h. (i, h, refl) }

abbrev second_receipt : Receipt
second_receipt =
    settle_payment guards.receipt (moment_at "r3") waiting
      (evaluate_now setup (moment_at "r3") (safe_legal_decision setup waiting)
        (value_or waiting (find_intent id paid_hub).0) paid_hub)
      "user"

abbrev second : Approval
second = record { receipt = second_receipt; replay = false }

overtaken_run :
    approve_intent setup overtaken id "user" hub
    ≡ (ok second, (approve_intent setup overtaken id "user" hub).1)
unfolding approve_intent find_intent evaluate_intent evaluate_now safe_legal_decision evaluate_legal
    evaluate_privacy evaluate_crypto evaluate_defi get_provider evaluate_payment_intent notes_of
    spent starts_with active_payment_adapter simulated_adapter settle_payment create_receipt
    draft_receipt receipt_status execution_status screened record_receipt update_first
    simulated_result draft_intent
overtaken_run = refl

concurrent_approvals_example :
    (second.replay ≡ false)
    × (first.replay ≡ false)
    × (second_receipt.intent_id ≡ id)
    × (first_receipt.intent_id ≡ id)
    × ((approve_intent setup overtaken id "user" hub).1.receipts
        ≡ second_receipt ∷ first_receipt ∷ [])
concurrent_approvals_example =
    concurrent_approvals setup overtaken id "user" hub second
      (approve_intent setup overtaken id "user" hub).1 overtaken-IsCalm setup-IsHonest overtaken_run
      (alone "r1") "user" first (alone-IsCalm "r1") refl first_run

abbrev run : Run setup (IsFunded setup) paid_hub
run =
    call (alone "r1") (approving id "user") hub (alone-IsCalm "r1") (alone-IsKeeper "r1")
      (record { same_day = refl; during = λ t h. h }) (start hub refl)

paid_amounts : All (λ r. IsNumber r.amount) paid_hub.receipts
unfolding approve_intent find_intent evaluate_intent evaluate_now safe_legal_decision evaluate_legal
    evaluate_privacy evaluate_crypto evaluate_defi get_provider evaluate_payment_intent notes_of
    spent starts_with active_payment_adapter simulated_adapter settle_payment create_receipt
    draft_receipt receipt_status execution_status screened record_receipt update_first
    simulated_result draft_intent
paid_amounts = (tt, tt)

Run-within_budget_example :
    AtMost (800 * unit_scale) (spent (codes "2026-07-01") paid_hub.receipts)
    × AtMost (3000 * unit_scale) (spent (codes "2026-07") paid_hub.receipts)
Run-within_budget_example =
    Run-within_budget setup paid_hub (codes "2026-07-01") (codes "2026-07") setup-IsHonest refl refl
      run paid_amounts

one_call : Run setup IsQuiet paid_hub
one_call =
    call (alone "r1") (approving id "user") hub (alone-IsCalm "r1") (alone-IsKeeper "r1")
      (record { alone = λ t. refl; checked = λ i by e. absurd (other i by e) }) (start hub refl)
  where
    other : (i by : String) → approving id "user" ≡ approving_link i by → ⊥
    other i by e = cc

Run-one_receipt_example : live_count id paid_hub.receipts ≤ 1
Run-one_receipt_example = Run-one_receipt setup setup-IsHonest paid_hub id one_call

abbrev linked_hub : Hub
linked_hub = (approve_link_spend_request setup (alone "l1") shop_id "user" none hub).1

abbrev link_receipt : Receipt
link_receipt =
    value_or first_receipt
      (approve_link_spend_request setup (alone "l2") shop_id "user" none linked_hub).0

abbrev linked_receipt : Receipt
linked_receipt =
    value_or first_receipt (approve_link_spend_request setup (alone "l1") shop_id "user" none hub).0

linked_run : approve_link_spend_request setup (alone "l2") shop_id "user" none linked_hub ≡ (
  ok link_receipt,
  (approve_link_spend_request setup (alone "l2") shop_id "user" none linked_hub).1,
)
unfolding approve_link_spend_request create_link_spend_request create_spend_request
    approve_spend_request settle_link_payment link_result find_intent evaluate_intent evaluate_now
    safe_legal_decision evaluate_legal evaluate_privacy evaluate_crypto evaluate_defi get_provider
    evaluate_payment_intent notes_of spent starts_with create_receipt draft_receipt receipt_status
    execution_status screened record_receipt update_first draft_intent get set
linked_run = refl

linked_found : find (is_live shop_id) linked_hub.receipts ≡ some linked_receipt
unfolding approve_link_spend_request create_link_spend_request create_spend_request
    approve_spend_request settle_link_payment link_result find_intent evaluate_intent evaluate_now
    safe_legal_decision evaluate_legal evaluate_privacy evaluate_crypto evaluate_defi get_provider
    evaluate_payment_intent notes_of spent starts_with create_receipt draft_receipt receipt_status
    execution_status screened record_receipt update_first draft_intent get set
linked_found = refl

link_receipt-is_live : is_live shop_id link_receipt ≡ true
unfolding approve_link_spend_request create_link_spend_request create_spend_request
    approve_spend_request settle_link_payment link_result find_intent evaluate_intent evaluate_now
    safe_legal_decision evaluate_legal evaluate_privacy evaluate_crypto evaluate_defi get_provider
    evaluate_payment_intent notes_of spent starts_with create_receipt draft_receipt receipt_status
    execution_status screened record_receipt update_first draft_intent get set
link_receipt-is_live = refl

link_approved_again_example :
    2
    ≤ live_count shop_id
        (approve_link_spend_request setup (alone "l2") shop_id "user" none linked_hub).1.receipts
link_approved_again_example =
    link_approved_again setup (alone "l2") shop_id "user" linked_hub link_receipt
      (approve_link_spend_request setup (alone "l2") shop_id "user" none linked_hub).1
      (alone-IsCalm "l2") (alone-IsKeeper "l2")
      (live-found shop_id linked_hub.receipts linked_receipt linked_found) linked_run
      link_receipt-is_live

created_run :
    create_intent setup (moment_at "m1") draft empty
    ≡ (ok waiting, (create_intent setup (moment_at "m1") draft empty).1)
unfolding create_intent build_spend_intent get_provider draft_intent get set
created_run = refl

create_intent_again_example :
    create_intent setup
      (moment_at "m2")
      (record draft { amount = some (whole 99) })
      (create_intent setup (moment_at "m1") draft empty).1
    ≡ (ok waiting, (create_intent setup (moment_at "m1") draft empty).1)
create_intent_again_example =
    create_intent_again setup (moment_at "m1") (moment_at "m2") draft
      (record draft { amount = some (whole 99) }) "key-1" empty
      (create_intent setup (moment_at "m1") draft empty).1 waiting refl refl created_run

abbrev report : Resource
report = record {
  protocol = "mpp-402-demo";
  resource_id = "report";
  provider_id = "research";
  provider_name = "Research";
  delivered_at = (moment_at "d1").now;
  content = "Paid machine resource from Research";
  receipt_id = "receipt-r1";
  rail = some "Stellar Smart Wallet";
  network = some "stellar:testnet";
  amount = whole 30;
  currency = "USDC";
  privacy_level = "standard";
}

delivery_run :
    request_machine_resource setup
      (moment_at "d1")
      "research"
      "report"
      (some (codes "receipt:receipt-r1"))
      none
      paid_hub
    ≡ (ok (delivered report), paid_hub)
unfolding request_machine_resource verify_credential parse_receipt_credential deliver_resource
    approve_intent find_intent evaluate_intent evaluate_now safe_legal_decision evaluate_legal
    evaluate_privacy evaluate_crypto evaluate_defi get_provider evaluate_payment_intent notes_of
    spent starts_with active_payment_adapter simulated_adapter settle_payment create_receipt
    draft_receipt receipt_status execution_status screened record_receipt update_first
    simulated_result draft_intent trim stellar_agent_spend_hub.Money.trim_end
    stellar_agent_spend_hub.Money.trim_start
delivery_run = refl

delivered-IsPaid_example :
    (paid_hub ≡ paid_hub) × Any (Pays "research" "report" report) paid_hub.receipts
delivered-IsPaid_example =
    delivered-IsPaid setup (moment_at "d1") "research" "report" (some (codes "receipt:receipt-r1"))
      none paid_hub paid_hub report delivery_run
