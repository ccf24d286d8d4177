-- ===== src/SpendHub/Service/Runs.antt =====
-- Runs of calls of the hub (src/spendHubService.mjs): the budgets of the policy hold in all of them.
use stellar_agent_spend_hub.Common.{
  String, Option, none, List, [], ◌∷◌, All, find, length, ◌≡◌, refl, sym, ap, subst, inl, inr,
}
use stellar_agent_spend_hub.Common.Text.{Codes}
use stellar_agent_spend_hub.Common.After.{After-always}
use stellar_agent_spend_hub.Domain.Amounts.{Amount, IsNumber, AtMost, AtMost-exceeds}
use stellar_agent_spend_hub.Domain.{Receipt, spent, day_key}
use stellar_agent_spend_hub.Domain.Budget.{
  Payment, Paid, nothing, pay, spent-IsNumber, Paid-within_day, Paid-within_month,
}
use stellar_agent_spend_hub.SpendHub.Hub.{Hub, Setup, World, current}
use stellar_agent_spend_hub.SpendHub.Service.{
  Draft, Approval, is_live, create_intent, generate_proof, prepare_intent, approve_intent,
  dismiss_intent, create_link_spend_request, approve_link_spend_request, deny_link_spend_request,
  request_machine_resource,
}
use stellar_agent_spend_hub.SpendHub.Service.Payments.{IsCalm, IsKeeper}
use stellar_agent_spend_hub.SpendHub.Service.Charging.{
  IsHonest, IsCharged, Approved, replayed, charged, Unpaid, approve-Approved, link-After,
}
use stellar_agent_spend_hub.SpendHub.Service.Frame.{
  Idle, Idle-Keeps, prepare-Idle, create_link-Idle, Keeps-create_intent, Keeps-generate_proof,
  Keeps-dismiss_intent, Keeps-deny_link, Keeps-request_machine_resource,
}

-- One call of the HTTP or the MCP layer.
pub data Call : Type 0 where
  creating : Draft → Call
  proving : String → String → String → Call
  preparing : String → Call
  approving : String → String → Call
  dismissing : String → String → Call
  requesting : String → Call
  approving_link : String → String → Call
  denying : String → String → Call
  buying : String → String → Option Codes → Option Amount → Call

-- the state after a call, whether it returned or threw
abbrev pub after : Setup → World → Call → Hub → Hub
after setup w (creating draft) s = (create_intent setup w.moment draft s).1
after setup w (proving id secret_ref salt) s = (generate_proof setup w id secret_ref salt s).1
after setup w (preparing id) s = (prepare_intent setup w id s).1
after setup w (approving id by) s = (approve_intent setup w id by s).1
after setup w (dismissing id by) s = (dismiss_intent w.moment id by s).1
after setup w (requesting id) s = (create_link_spend_request setup w id none s).1
after setup w (approving_link id by) s = (approve_link_spend_request setup w id by none s).1
after setup w (denying id by) s = (deny_link_spend_request setup w id by s).1
after setup w (buying provider_id resource_id credential amount) s =
    (request_machine_resource setup w.moment provider_id resource_id credential amount s).1

-- The receipts are as before, or as they were after the wait for the evaluation; or the call has put
-- one receipt before those.
pub data Grown (setup : Setup) (w : World) (c : Call) (s t : Hub) : Type 0 where
  idle : Idle w s t → Grown setup w c s t
  paid :
      (id by : String) (r : Receipt)
      → c ≡ approving id by
      → find (is_live id) s.receipts ≡ none
      → IsCharged setup w id s r
      → t.receipts ≡ r ∷ (w.during_evaluation s).receipts
      → Grown setup w c s t
  paid_link :
      (id by : String) (r : Receipt)
      → c ≡ approving_link id by
      → IsCharged setup w id s r
      → t.receipts ≡ r ∷ (w.during_evaluation s).receipts
      → Grown setup w c s t

module _ (setup : Setup) (w : World) (calm : IsCalm w) (keeper : IsKeeper w)
    (honest : IsHonest setup) where
  Unpaid-Grown : (c : Call) (id : String) (s t : Hub) → Unpaid setup w id s t → Grown setup w c s t
  Unpaid-Grown c id s t (inl e) = idle (inl (ap (λ x. x.receipts) e))
  Unpaid-Grown c id s t (inr e) = idle (inr e)

  Approved-Grown :
      (id by : String) (s : Hub) (a : Approval) (t : Hub)
      → Approved setup w id s a t
      → Grown setup w (approving id by) s t
  Approved-Grown id by s _ _ (replayed r h) = idle (inl refl)
  Approved-Grown id by s _ _ (charged r t h charge put) = paid id by r refl h charge put

  pub after-Grown : (c : Call) (s : Hub) → Grown setup w c s (after setup w c s)
  after-Grown (creating draft) s =
      idle (Idle-Keeps setup w calm s (Keeps-create_intent setup w.moment draft s refl))
  after-Grown (proving id secret_ref salt) s =
      idle (Idle-Keeps setup w calm s (Keeps-generate_proof setup w calm id secret_ref salt s refl))
  after-Grown (preparing id) s = idle (prepare-Idle setup w calm id s)
  after-Grown (approving id by) s =
      After-always (Grown setup w (approving id by) s) (approve_intent setup w id by s)
        (λ a t h. Approved-Grown id by s a t h) (λ t h. Unpaid-Grown (approving id by) id s t h)
        (approve-Approved setup w id calm s by honest)
  after-Grown (dismissing id by) s =
      idle (Idle-Keeps setup w calm s (Keeps-dismiss_intent w.moment id by s refl))
  after-Grown (requesting id) s = idle (create_link-Idle setup w calm id s)
  after-Grown (approving_link id by) s =
      After-always (Grown setup w (approving_link id by) s)
        (approve_link_spend_request setup w id by none s)
        (λ r t (charge, put). paid_link id by r refl charge put)
        (λ t h. Unpaid-Grown (approving_link id by) id s t h)
        (link-After setup w id calm s by keeper)
  after-Grown (denying id by) s =
      idle (Idle-Keeps setup w calm s (Keeps-deny_link setup w calm id by s refl))
  after-Grown (buying provider_id resource_id credential amount) s = idle (
      Idle-Keeps setup w calm s (
        Keeps-request_machine_resource setup w calm provider_id resource_id credential amount s
          refl))

-- A run of calls from a hub without receipts; `P` restricts each call, its surroundings and the state
-- that it finds.
pub data Run (setup : Setup) (P : World → Call → Hub → Type 0) : Hub → Type 0 where
  start : (s : Hub) → s.receipts ≡ [] → Run setup P s
  call :
      (w : World) (c : Call) (s : Hub)
      → IsCalm w
      → IsKeeper w
      → P w c s
      → Run setup P s
      → Run setup P (after setup w c s)

module _ (setup : Setup) where
  abbrev pub Funded : List Receipt → Type 0
  Funded rs = Paid setup.guards.payload setup.policy rs

  -- The receipts of a call are stamped on the day of their decision, and what happens while the call
  -- waits for its evaluation are payments decided like those of the hub.
  pub record IsFunded (w : World) (c : Call) (s : Hub) : Type 0 where
    pub same_day : day_key w.moment.later ≡ day_key w.moment.now
    pub during : (t : Hub) → Funded t.receipts → Funded (w.during_evaluation t).receipts

  IsCharged-Funded :
      (w : World) (id : String) (s : Hub) (r : Receipt)
      → day_key w.moment.later ≡ day_key w.moment.now
      → IsCharged setup w id s r
      → Funded (w.during_evaluation s).receipts
      → Funded (r ∷ (w.during_evaluation s).receipts)
  IsCharged-Funded w id s r day charge h =
      let payment : Payment = record {
        intent = (current charge.found (w.during_evaluation s)).intent;
        options = charge.options;
        now = w.moment.now;
        stamp = w.moment.later;
      } in
      pay payment r day charge.decided.made h

  Run-Funded : IsHonest setup → (s : Hub) → Run setup IsFunded s → Funded s.receipts
  Run-Funded honest _ (start s e) = subst Funded (sym e) nothing
  Run-Funded honest _ (call w c t calm keeper fair before) =
      let h = Run-Funded honest t before in
      Grown-Funded (after-Grown setup w calm keeper honest c t) (fair.during t h) h
    where
      Grown-Funded :
          {u : Hub}
          → Grown setup w c t u
          → Funded (w.during_evaluation t).receipts
          → Funded t.receipts
          → Funded u.receipts
      Grown-Funded (idle (inl e)) k h = subst Funded (sym e) h
      Grown-Funded (idle (inr e)) k h = subst Funded (sym e) k
      Grown-Funded (paid id by r _ _ charge e) k h =
          subst Funded (sym e) (IsCharged-Funded w id t r fair.same_day charge k)
      Grown-Funded (paid_link id by r _ charge e) k h =
          subst Funded (sym e) (IsCharged-Funded w id t r fair.same_day charge k)

  -- In every run of calls from a hub without receipts, as long as every amount on its receipts is a
  -- number, what is settled on a day is at most the daily limit of the policy, and what is settled in a
  -- month at most the monthly limit: where the adapters settle only what was allowed and keep the
  -- intent's amount and the time, each receipt is stamped on the day of its decision, the receipts and
  -- the payments of the intents stay as they are while a call waits for an adapter, no intent goes away
  -- while a call waits for its evaluation, and what is paid meanwhile is decided in the same way.
  pub Run-within_budget :
      (s : Hub) (day month : Codes)
      → IsHonest setup
      → length day ≡ 10
      → length month ≡ 7
      → Run setup IsFunded s
      → All (λ r. IsNumber r.amount) s.receipts
      → AtMost setup.policy.daily_limit (spent day s.receipts)
        × AtMost setup.policy.monthly_limit (spent month s.receipts)
  Run-within_budget s day month honest d m run numbers =
      let h = Run-Funded honest s run in
      (
        AtMost-exceeds _ _ (spent-IsNumber day s.receipts numbers)
            (Paid-within_day setup.guards.payload setup.policy day d h),
        AtMost-exceeds _ _ (spent-IsNumber month s.receipts numbers)
            (Paid-within_month setup.guards.payload setup.policy month m h),
      )
