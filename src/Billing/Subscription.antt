-- ===== src/Billing/Subscription.antt =====
-- lib/stripe-subscription.ts: what a Stripe subscription says of a plan. A time of Stripe's is in seconds, one of
-- the tables in milliseconds. What the file reads of Stripe's objects is a record of its own.
use anzdrop.Base.{
  ℕ, ◌*◌, String, Bool, true, false, not, ◌||◌, Option, none, some, same, ltb, ◌==◌, if◌then◌else◌,
}
use anzdrop.Plan.Limits.{Plan, standard, premium}

pub data SubscriptionStatus : Type 0 where
  active trialing past_due unpaid canceled incomplete incomplete_expired paused : SubscriptionStatus

pub record Invoice : Type 0 where
  pub status : Option String
  pub amount_paid : Option ℕ
  pub billing_reason : Option String

pub data LatestInvoice : Type 0 where
  absent : LatestInvoice
  by_id : String → LatestInvoice
  expanded : Invoice → LatestInvoice

pub record SubscriptionItem : Type 0 where
  pub price_id : Option String
  pub current_period_end : Option ℕ

pub record Subscription : Type 0 where
  pub id : String
  pub status : SubscriptionStatus
  pub trial_start : Option ℕ
  pub latest_invoice : LatestInvoice
  pub cancel_at_period_end : Bool
  pub first_item : Option SubscriptionItem
  pub metadata_account_id : Option String

-- What a call of Stripe answers: an object, an error with status 404, or another error.
pub data StripeAnswer (A : Type 0) : Type 0 where
  retrieved : A → StripeAnswer A
  not_found call_failed : StripeAnswer A

pub record Prices : Type 0 where
  pub standard_price : Option String
  pub premium_price : Option String

unfoldable pub unix_seconds_to_ms : ℕ → ℕ
unix_seconds_to_ms seconds = seconds * 1000

unfoldable pub get_subscription_period_end : Subscription → Option ℕ
get_subscription_period_end s = elim s.first_item [
  | none ↦ none
  | some item ↦ item.current_period_end
]

-- `===` on two strings either of which may be undefined.
abbrev pub same_option : Option String → Option String → Bool
same_option none none = true
same_option none (some t) = false
same_option (some s) none = false
same_option (some s) (some t) = same s t

abbrev price_of : Subscription → Option String
price_of s = elim s.first_item [ none ↦ none | some item ↦ item.price_id ]

unfoldable pub plan_from_subscription : Prices → Subscription → Option Plan
plan_from_subscription prices s =
    if same_option (price_of s) prices.standard_price
    then some standard
    else if same_option (price_of s) prices.premium_price
    then some premium
    else none

abbrev pub is_active_subscription_status : SubscriptionStatus → Bool
is_active_subscription_status active = true
is_active_subscription_status trialing = true
is_active_subscription_status _ = false

abbrev pub is_never_activated_subscription_status : SubscriptionStatus → Bool
is_never_activated_subscription_status incomplete_expired = true
is_never_activated_subscription_status _ = false

abbrev pub is_dead_subscription_status : SubscriptionStatus → Bool
is_dead_subscription_status canceled = true
is_dead_subscription_status unpaid = true
is_dead_subscription_status _ = false

abbrev is_past_due : SubscriptionStatus → Bool
is_past_due past_due = true
is_past_due _ = false

abbrev pub is_manageable_subscription_status : SubscriptionStatus → Bool
is_manageable_subscription_status status =
    is_active_subscription_status status || is_past_due status

abbrev is_paid : Invoice → Bool
is_paid i =
    same_option i.status (some "paid")
    || ltb 0 (elim i.amount_paid [ none ↦ 0 | some amount ↦ amount ])

-- The verdict on the invoice of a subscription that ended without a trial.
abbrev pub clears_for_invoice : Invoice → Bool
clears_for_invoice i =
    if is_paid i then false else same_option i.billing_reason (some "subscription_create")

-- The verdict on a canceled subscription; `none` if Stripe does not give the invoice.
abbrev pub clears_for_canceled : (String → StripeAnswer Invoice) → Subscription → Option Bool
clears_for_canceled invoices s = elim s.trial_start [
  | some start ↦ some false
  | none ↦ elim s.latest_invoice [
    | absent ↦ some true
    | expanded i ↦ some (clears_for_invoice i)
    | by_id id ↦ elim (invoices id) [
      | retrieved i ↦ some (clears_for_invoice i)
      | not_found ↦ none
      | call_failed ↦ none
    ]
  ]
]

unfoldable pub should_only_clear_subscription_pointer :
    (String → StripeAnswer Invoice) → Subscription → Option Bool
should_only_clear_subscription_pointer invoices s = elim s.status [
  | incomplete ↦ some true
  | incomplete_expired ↦ some true
  | canceled ↦ clears_for_canceled invoices s
  | _ ↦ some false
]

pub data SummaryState : Type 0 where
  summary_active summary_canceling summary_past_due : SummaryState

pub record StripeSubscriptionSummary : Type 0 where
  pub state : SummaryState
  pub current_period_end : Option ℕ

-- `periodEnd ? unixSecondsToIso(periodEnd) : null`
abbrev pub to_expiry : Option ℕ → Option ℕ
to_expiry none = none
to_expiry (some seconds) = if seconds == 0 then none else some (unix_seconds_to_ms seconds)

unfoldable pub to_subscription_summary : Subscription → Option StripeSubscriptionSummary
to_subscription_summary s =
    if not (is_manageable_subscription_status s.status)
    then none
    else some (record {
      state =
          if s.cancel_at_period_end
          then summary_canceling
          else if is_past_due s.status
          then summary_past_due
          else summary_active;
      current_period_end =
          to_expiry (if is_past_due s.status then none else get_subscription_period_end s);
    })
