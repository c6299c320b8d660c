-- ===== src/Billing/Webhook.antt =====
-- server/routes/billing/stripe/webhook/route.ts. Stripe, its prices and the clock are arguments. What other
-- requests do to the tables while the handler waits for Stripe is the argument `meanwhile`.
pub mod Once
pub mod Renewed
pub mod Ended
use anzdrop.Base.{
  ℕ, String, Bool, true, false, not, ◌&&◌, ◌||◌, Option, none, some, List, ◌∷◌, find, exists, same,
  leb, max, truthy, if◌then◌else◌,
}
use anzdrop.Plan.Limits.{Plan}
use anzdrop.Plan.Account.{Account}
use anzdrop.Billing.CardPlan.{
  BillingState, SubscriptionMatch, has_subscription, update_accounts, stored_plan,
  clear_never_activated_subscription_pointer, downgrade_expired_card_plan,
}
use anzdrop.Billing.Subscription.{
  Subscription, Invoice, StripeAnswer, retrieved, not_found, call_failed, Prices, same_option,
  get_subscription_period_end, plan_from_subscription, is_active_subscription_status,
  is_never_activated_subscription_status, is_dead_subscription_status,
  should_only_clear_subscription_pointer, to_expiry,
}

pub record WebhookContext : Type 0 where
  pub now : ℕ
  pub prices : Prices
  pub invoices : String → StripeAnswer Invoice
  pub subscriptions : String → StripeAnswer Subscription
  pub meanwhile : BillingState → BillingState

-- The tables after a handler, and whether it returned; if not, it threw.
abbrev pub Handled : Type 0
Handled = BillingState × Bool

-- `SET plan = ?, plan_expires_at = max(coalesce(plan_expires_at, ?), ?)`
abbrev pub coalesce : Option ℕ → ℕ → ℕ
coalesce none n = n
coalesce (some m) n = m

abbrev pub renew : Plan → ℕ → Account → Account
renew plan new_expires_at a = record {
  id = a.id;
  plan = stored_plan plan;
  plan_expires_at = some (max (coalesce a.plan_expires_at new_expires_at) new_expires_at);
  stripe_subscription_id = a.stripe_subscription_id;
}

-- `plan_expires_at IS NULL OR plan_expires_at <= ?`
abbrev pub is_expiry_safe : ℕ → Option ℕ → Bool
is_expiry_safe new_expires_at none = true
is_expiry_safe new_expires_at (some current) = leb current new_expires_at

-- The `WHERE` of the fallback's update.
abbrev pub may_repoint : String → Option String → ℕ → Account → Bool
may_repoint account_id current_subscription_id new_expires_at a =
    same a.id account_id
    && (same_option a.stripe_subscription_id current_subscription_id
        && is_expiry_safe new_expires_at a.plan_expires_at)

abbrev pub repoint : String → Plan → ℕ → Account → Account
repoint subscription_id plan new_expires_at a = record {
  id = a.id;
  plan = stored_plan plan;
  plan_expires_at = some new_expires_at;
  stripe_subscription_id = some subscription_id;
}

-- The other subscription that the account points to, if there is one.
abbrev pub other_subscription : String → Option String → Option String
other_subscription subscription_id none = none
other_subscription subscription_id (some s) =
    if truthy s && not (same s subscription_id) then some s else none

-- Whether that one is active at Stripe; `none` if Stripe does not say.
abbrev pub conflicts : WebhookContext → Option String → Option Bool
conflicts c none = some false
conflicts c (some s) = elim (c.subscriptions s) [
  | retrieved other ↦ some (is_active_subscription_status other.status)
  | not_found ↦ some false
  | call_failed ↦ none
]

abbrev pub repoint_account :
    WebhookContext → Subscription → Plan → ℕ → Account → Bool → BillingState → Handled
repoint_account c s plan new_expires_at current conflicting db =
    if conflicting || not (is_expiry_safe new_expires_at current.plan_expires_at)
    then (db, true)
    else (
      update_accounts (may_repoint current.id current.stripe_subscription_id new_expires_at)
          (repoint s.id plan new_expires_at) (c.meanwhile db),
      true,
    )

-- From the account that the metadata names on.
abbrev pub check_current :
    WebhookContext → Subscription → Plan → ℕ → Account → BillingState → Handled
check_current c s plan new_expires_at current db = elim (c.subscriptions s.id) [
  | not_found ↦ (db, false)
  | call_failed ↦ (db, false)
  | retrieved now ↦
      if is_never_activated_subscription_status now.status || is_dead_subscription_status now.status
      then (db, true)
      else elim (conflicts c (other_subscription s.id current.stripe_subscription_id)) [
        | none ↦ (db, false)
        | some conflicting ↦ repoint_account c s plan new_expires_at current conflicting db
      ]
]

abbrev pub non_empty : Option String → Option String
non_empty none = none
non_empty (some s) = if truthy s then some s else none

-- No account points to the subscription: the one that its metadata names.
unfoldable pub fallback : WebhookContext → Subscription → Plan → ℕ → BillingState → Handled
fallback c s plan new_expires_at db = elim (non_empty s.metadata_account_id) [
  | none ↦ (db, true)
  | some account_id ↦ elim (find (λ a. same a.id account_id) db.accounts) [
    | none ↦ (db, true)
    | some current ↦ check_current c s plan new_expires_at current db
  ]
]

unfoldable pub activate : WebhookContext → Subscription → Plan → ℕ → BillingState → Handled
activate c s plan new_expires_at db =
    if exists (has_subscription s.id) db.accounts
    then (update_accounts (has_subscription s.id) (renew plan new_expires_at) db, true)
    else fallback c s plan new_expires_at db

-- The end of a subscription, by whether it has ever been active.
unfoldable pub terminate : WebhookContext → Subscription → BillingState → Handled
terminate c s db =
    let ended : SubscriptionMatch = record { subscription_id = s.id; account_id = none } in
    elim (should_only_clear_subscription_pointer c.invoices s) [
      | none ↦ (db, false)
      | some true ↦ (clear_never_activated_subscription_pointer db ended, true)
      | some false ↦ (downgrade_expired_card_plan db ended c.now, true)
    ]

-- What the payload grants: a plan and its end.
abbrev pub granted : WebhookContext → Subscription → Option (Plan × ℕ)
granted c s =
    if is_active_subscription_status s.status
    then elim (to_expiry (get_subscription_period_end s)) [
      | none ↦ none
      | some new_expires_at ↦ elim (plan_from_subscription c.prices s) [
        | none ↦ none
        | some plan ↦ some (plan, new_expires_at)
      ]
    ]
    else none

pub data StripeEvent : Type 0 where
  updated deleted : Subscription → StripeEvent
  other_event : StripeEvent

unfoldable pub apply_event : WebhookContext → StripeEvent → BillingState → Handled
apply_event c other_event db = (db, true)
apply_event c (deleted s) db = terminate c s db
apply_event c (updated s) db = elim (granted c s) [
  | some (plan, new_expires_at) ↦ activate c s plan new_expires_at db
  | none ↦
      if is_never_activated_subscription_status s.status || is_dead_subscription_status s.status
      then terminate c s db
      else (db, true)
]

-- The tables of the webhook: those of billing, and the ids of `stripe_events`.
pub record WebhookState : Type 0 where
  pub billing : BillingState
  pub stripe_events : List String

pub data WebhookReply : Type 0 where
  success duplicate_event server_error : WebhookReply

abbrev pub has_processed_event : String → WebhookState → Bool
has_processed_event event_id s = exists (λ id. same id event_id) s.stripe_events

-- `INSERT OR IGNORE`
abbrev pub mark_event_as_processed : String → WebhookState → WebhookState
mark_event_as_processed event_id s = record {
  billing = s.billing;
  stripe_events =
      if has_processed_event event_id s then s.stripe_events else event_id ∷ s.stripe_events;
}

abbrev pub set_billing : BillingState → WebhookState → WebhookState
set_billing db s = record { billing = db; stripe_events = s.stripe_events }

abbrev pub finish_unnamed : WebhookState → Handled → WebhookState × WebhookReply
finish_unnamed s (db, true) = (set_billing db s, success)
finish_unnamed s (db, false) = (set_billing db s, server_error)

-- `marks` says whether D1 stores the mark; if not, that throws, and the handler has had its effect.
abbrev pub finish_event : Bool → String → WebhookState → Handled → WebhookState × WebhookReply
finish_event marks event_id s (db, true) =
    if marks
    then (mark_event_as_processed event_id (set_billing db s), success)
    else (set_billing db s, server_error)
finish_event marks event_id s (db, false) = (set_billing db s, server_error)

unfoldable pub process_event_once :
    Bool → Option String → (BillingState → Handled) → WebhookState → WebhookState × WebhookReply
process_event_once marks event_id run s = elim (non_empty event_id) [
  | none ↦ finish_unnamed s (run s.billing)
  | some id ↦
      if has_processed_event id s
      then (s, duplicate_event)
      else finish_event marks id s (run s.billing)
]
