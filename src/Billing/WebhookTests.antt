-- ===== src/Billing/WebhookTests.antt =====
-- The webhook of Stripe on concrete inputs.
use mathlib.Core.List.{Memᴰ}
use anzdrop.Base.{List, true, false, ◌≡◌, refl, ap, ◌∙◌, sym, none, some, [], ◌∷◌}
use anzdrop.Plan.Account.{Account}
use anzdrop.Billing.CardPlan.{BillingState}
use anzdrop.Billing.Subscription.{
  Subscription, active, canceled, past_due, LatestInvoice, absent, expanded, retrieved, not_found,
  should_only_clear_subscription_pointer, to_subscription_summary, summary_past_due,
  summary_canceling, get_subscription_period_end, plan_from_subscription, unix_seconds_to_ms,
}
use anzdrop.Billing.Webhook.{
  WebhookContext, WebhookState, updated, deleted, apply_event, success, duplicate_event,
  server_error, activate, fallback, terminate,
}
use anzdrop.Billing.Webhook.Once.{
  Delivery, deliver_all, until_success, outcome, deliver_all-until_success,
}
use anzdrop.Billing.Webhook.Renewed.{Renews, apply_event-Renews}
use anzdrop.Billing.Webhook.Ended.{HasOneHolder, Untracked, deleted-updated}

abbrev paying : Subscription
paying = record {
  id = "sub";
  status = active;
  trial_start = none;
  latest_invoice = expanded (record {
    status = some "paid";
    amount_paid = some 500;
    billing_reason = some "subscription_create";
  });
  cancel_at_period_end = false;
  first_item = some (record { price_id = some "price_standard"; current_period_end = some 90 });
  metadata_account_id = some "a";
}

abbrev ended : Subscription
ended = record paying { status = canceled }

abbrev context : WebhookContext
context = record {
  now = 50;
  prices = record { standard_price = some "price_standard"; premium_price = some "price_premium" };
  invoices = λ id. not_found;
  subscriptions = λ id. retrieved paying;
  meanwhile = λ db. db;
}

abbrev later : WebhookContext
later = record context { subscriptions = λ id. retrieved ended }

abbrev holder : Account
holder = record {
  id = "a";
  plan = "standard";
  plan_expires_at = some 60000;
  stripe_subscription_id = some "sub";
}

abbrev stranger : Account
stranger = record holder { stripe_subscription_id = none }

abbrev billing : BillingState
billing = record { accounts = holder ∷ []; btc_payments = [] }

abbrev unlinked : BillingState
unlinked = record { accounts = stranger ∷ []; btc_payments = [] }

-- The account that the metadata names gets the plan, the subscription and the later end.
apply_event-updated : apply_event context (updated paying) unlinked ≡ (
  record { accounts = record holder { plan_expires_at = some 90000 } ∷ []; btc_payments = [] },
  true,
)
unfolding apply_event activate fallback get_subscription_period_end plan_from_subscription
    unix_seconds_to_ms
apply_event-updated = refl

should_only_clear-cases :
    (should_only_clear_subscription_pointer context.invoices ended ≡ some false)
    × (should_only_clear_subscription_pointer context.invoices
          (record ended { latest_invoice = absent })
        ≡ some true)
    × (should_only_clear_subscription_pointer context.invoices
          (record ended { latest_invoice = LatestInvoice.by_id "in" })
        ≡ none)
unfolding should_only_clear_subscription_pointer
should_only_clear-cases = (refl, refl, refl)

to_subscription_summary-cases :
    (to_subscription_summary ended ≡ none)
    × (to_subscription_summary (record paying { status = past_due })
        ≡ some (record { state = summary_past_due; current_period_end = none }))
    × (to_subscription_summary (record paying { cancel_at_period_end = true })
        ≡ some (record { state = summary_canceling; current_period_end = some 90000 }))
unfolding to_subscription_summary get_subscription_period_end unix_seconds_to_ms
to_subscription_summary-cases = (refl, refl, refl)

abbrev webhook_state : WebhookState
webhook_state = record { billing = billing; stripe_events = [] }

-- A delivery whose handler throws since Stripe does not answer, and two more.
abbrev deliveries : List Delivery
deliveries =
    record { marks = true; run = λ db. (db, false) }
    ∷ record { marks = true; run = apply_event context (updated paying) }
    ∷ record { marks = true; run = apply_event context (deleted ended) }
    ∷ []

deliver_all-until_success_example :
    outcome (deliver_all "evt" deliveries webhook_state) ≡ until_success deliveries billing
deliver_all-until_success_example =
    deliver_all-until_success "evt" refl deliveries webhook_state refl

third_is_duplicate :
    (until_success deliveries billing).1 ≡ server_error ∷ success ∷ duplicate_event ∷ []
unfolding until_success apply_event activate get_subscription_period_end plan_from_subscription
    unix_seconds_to_ms
third_is_duplicate = refl

apply_event-Renews_example :
    Renews context paying unlinked (apply_event context (updated paying) unlinked)
apply_event-Renews_example = apply_event-Renews context paying unlinked refl

one_row :
    (a b : Account) → Memᴰ a (holder ∷ []) → Memᴰ b (holder ∷ []) → (a ≡ holder) × (b ≡ holder)
one_row a b (Memᴰ.head e) (Memᴰ.head f) = (e, f)
one_row a b (Memᴰ.tail m) n = elim m [ ]
one_row a b (Memᴰ.head e) (Memᴰ.tail m) = elim m [ ]

billing-HasOneHolder : HasOneHolder "sub" billing
billing-HasOneHolder a b m n _ _ =
    let (e, f) = one_row a b m n in (ap (λ (x : Account). x.id) (e ∙ sym f), rw e refl)

handled : (apply_event context (deleted ended) billing).1 ≡ true
unfolding apply_event terminate should_only_clear_subscription_pointer
handled = refl

deleted-updated_example :
    let after = (apply_event context (deleted ended) billing).0 in
    Untracked "sub" after × (apply_event later (updated paying) after ≡ (after, true))
deleted-updated_example =
    deleted-updated context later ended paying ended billing billing-HasOneHolder handled refl refl
      refl refl
