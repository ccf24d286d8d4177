-- ===== src/SpendHub/Service/Delivery.antt =====
-- A machine resource is delivered for a settled receipt (src/spendHubService.mjs,
-- `requestMachineResource`; src/machinePaymentAdapter.mjs).
use stellar_agent_spend_hub.Common.{
  String, Bool, true, Option, none, some, List, [], ◌∷◌, find, ◌≡◌, refl, sym, ap, subst, ◌∙◌, inl,
  inr, Bool-cases, Option-cases, and-eq-true,
}
use stellar_agent_spend_hub.Common.Text.{Codes, str_eq, eq_iff}
use stellar_agent_spend_hub.Common.Result.{Result, ok, err, ◌>>◌}
use stellar_agent_spend_hub.Common.After.{After, returned, After-bind, After-lift, After-ok}
use stellar_agent_spend_hub.Domain.Amounts.{Amount}
use stellar_agent_spend_hub.Domain.{
  Receipt, ReceiptStatus, settled, blocked, pending, Scan, is_settled,
}
use stellar_agent_spend_hub.Pilot.Settlement.Sound.{Any}
use stellar_agent_spend_hub.SpendHub.Intent.{Provider}
use stellar_agent_spend_hub.SpendHub.Judges.{get_provider}
use stellar_agent_spend_hub.SpendHub.Rails.{Moment}
use stellar_agent_spend_hub.SpendHub.Machine.{
  Resource, Verification, accepted, rejected, verify_credential, verify_id, pays_for,
  parse_receipt_credential, deliver_resource, create_challenge,
}
use stellar_agent_spend_hub.SpendHub.Hub.{Hub, Setup}
use stellar_agent_spend_hub.SpendHub.Service.{
  Answer, payment_required, delivered, request_machine_resource, create_intent, machine_draft,
  deliver_or_charge, challenge_for, provider_or_404, verification_of,
}
use stellar_agent_spend_hub.SpendHub.Service.Payments.{find-some, some-inj}

-- A receipt that pays a provider, as a delivered resource repeats it.
pub record Pays (provider_id resource_id : String) (x : Resource) (r : Receipt) : Type 0 where
  pub to : r.provider_id ≡ provider_id
  pub is_final : r.status ≡ settled
  pub same_receipt : x.receipt_id ≡ r.id
  pub same_amount : x.amount ≡ r.amount
  pub same_currency : x.currency ≡ r.currency
  pub same_resource : x.resource_id ≡ resource_id

find-Any :
    {A : Type 0} (p : A → Bool) (P : A → Type 0) (xs : List A) (x : A)
    → find p xs ≡ some x
    → P x
    → Any P xs
find-Any p P [] x h k = cc
find-Any p P (y ∷ ys) x h k = elim (Bool-cases (p y)) [
  | inl e ↦ inl (subst P (some-inj x y (sym (rw e at h))) k)
  | inr e ↦ inr (find-Any p P ys x (rw e at h) k)
]

settled-eq : (s : ReceiptStatus) → is_settled s ≡ true → s ≡ settled
settled-eq settled h = refl
settled-eq blocked h = cc
settled-eq pending h = cc

accepted-found :
    (guard : Receipt → Scan) (rs : List Receipt) (provider_id : String) (o : Option Codes)
    (r : Receipt)
    → verify_id guard rs provider_id o ≡ accepted r
    → (id : Codes) × (find (pays_for id provider_id) rs ≡ some r)
accepted-found guard rs provider_id none r h = cc
accepted-found guard rs provider_id (some id) r h =
    elim (Option-cases (find (pays_for id provider_id) rs)) [
      | inl e ↦ absurd (refused (rw e at h))
      | inr (x, e) ↦ elim (Bool-cases (guard x).allowed) [
        | inr dirty ↦ absurd (refused' (rw (e, dirty) at h))
        | inl clean ↦ (id, e ∙ ap some (same x (rw (e, clean) at h)))
      ]
    ]
  where
    refused : rejected "Receipt not settled for this provider" ≡ accepted r → ⊥
    refused k = cc

    refused' : rejected "Sensitive data" ≡ accepted r → ⊥
    refused' k = cc

    same : (x : Receipt) → accepted x ≡ accepted r → x ≡ r
    same x k = cc

after_check : {A : Type 0} (c : Result Unit) (y x : A) → (c >> ok y) ≡ ok x → x ≡ y
after_check (ok tt) y x h = cc
after_check (err e) y x h = cc

deliver-Pays :
    (guard : Resource → Scan) (m : Moment) (provider : Provider) (provider_id resource_id : String)
    (r : Receipt) (x : Resource)
    → deliver_resource guard m provider resource_id r ≡ ok x
    → r.provider_id ≡ provider_id
    → r.status ≡ settled
    → Pays provider_id resource_id x r
unfolding deliver_resource
deliver-Pays guard m provider provider_id resource_id r x h to final =
    let made = after_check _ _ x h in
    record {
      to = to;
      is_final = final;
      same_receipt = ap (λ y. y.receipt_id) made;
      same_amount = ap (λ y. y.amount) made;
      same_currency = ap (λ y. y.currency) made;
      same_resource = ap (λ y. y.resource_id) made;
    }

-- What an answer means: a resource is delivered on the state as it was, for a receipt in it.
abbrev pub Answered : String → String → Hub → Answer → Hub → Type 0
Answered provider_id resource_id s (payment_required message challenge) t = Unit
Answered provider_id resource_id s (delivered x) t =
    (t ≡ s) × Any (Pays provider_id resource_id x) s.receipts

anything : {A : Type 0} (x : Result A × Hub) → After (λ a t. Unit {0}) (λ t. Unit {0}) x
anything (ok a, t) = returned a t tt
anything (err e, t) = record { holds = tt }

module _ (setup : Setup) (m : Moment) (provider : Provider) (provider_id resource_id : String)
    (amount : Option Amount) where
  challenge-Answered :
      (message : String) (s t : Hub)
      → After
          (Answered provider_id resource_id s)
          (λ u. Unit)
          (challenge_for setup m provider provider_id resource_id amount message t)
  challenge-Answered message s t =
      After-bind
        (anything (create_intent setup m (machine_draft provider provider_id resource_id amount) t))
        (λ i u _.
          After-bind
            (After-lift (create_challenge setup.guards.challenge m provider i resource_id) u tt)
            (λ c v _. returned _ _ tt))

  deliver-Answered :
      (o : Option Verification) (s : Hub)
      → ((r : Receipt)
          → o ≡ some (accepted r)
          → (id : Codes) × (find (pays_for id provider_id) s.receipts ≡ some r))
      → After
          (Answered provider_id resource_id s)
          (λ u. Unit)
          (deliver_or_charge setup m provider provider_id resource_id amount o s)
  deliver-Answered none s f = challenge-Answered "Payment required" s s
  deliver-Answered (some (rejected reason)) s f =
      challenge-Answered "Payment credential rejected" s s
  deliver-Answered (some (accepted r)) s f =
      let (id, found) = f r refl in
      let paid = find-some (pays_for id provider_id) s.receipts r found in
      let (paid, final) = and-eq-true _ (is_settled r.status) paid in
      let (_, to) = and-eq-true _ (str_eq r.provider_id provider_id) paid in
      After-bind (After-lift (deliver_resource setup.guards.resource m provider resource_id r) s tt)
        (λ x t (made, at_s). returned (delivered x) t (
          at_s,
          find-Any (pays_for id provider_id) (Pays provider_id resource_id x) s.receipts r found (
              deliver-Pays setup.guards.resource m provider provider_id resource_id r x made
                ((eq_iff r.provider_id provider_id).0 to) (settled-eq r.status final)),
        ))

verified :
    (setup : Setup) (credential : Option Codes) (provider_id : String) (s : Hub) (r : Receipt)
    → verification_of setup credential provider_id s ≡ some (accepted r)
    → (id : Codes) × (find (pays_for id provider_id) s.receipts ≡ some r)
unfolding verify_credential
verified setup none provider_id s r h = cc
verified setup (some credential) provider_id s r h =
    accepted-found setup.guards.receipt s.receipts provider_id (parse_receipt_credential credential)
      r (some-inj _ (accepted r) h)

-- A machine resource that is delivered rests on a settled receipt of its provider among the receipts
-- of the hub, whose number, amount and currency it repeats, and its delivery changes nothing.
pub delivered-IsPaid :
    (setup : Setup) (m : Moment) (provider_id resource_id : String) (credential : Option Codes)
    (amount : Option Amount) (s t : Hub) (x : Resource)
    → request_machine_resource setup m provider_id resource_id credential amount s
      ≡ (ok (delivered x), t)
    → (t ≡ s) × Any (Pays provider_id resource_id x) s.receipts
unfolding request_machine_resource
delivered-IsPaid setup m provider_id resource_id credential amount s t x done =
    After-ok _ (delivered x) t
      (After-bind
        (After-lift {R = λ u. Unit} (provider_or_404 (get_provider provider_id setup.providers)) s
          tt)
        (λ provider u (_, at_s).
          subst
            (λ v.
              After (Answered provider_id resource_id s) (λ z. Unit)
                (deliver_or_charge setup m provider provider_id resource_id amount
                  (verification_of setup credential provider_id v) v))
            (sym at_s)
            (deliver-Answered setup m provider provider_id resource_id amount
              (verification_of setup credential provider_id s) s
              (λ r e. verified setup credential provider_id s r e))))
      done
