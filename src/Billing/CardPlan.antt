-- ===== src/Billing/CardPlan.antt =====
-- lib/billing/cardPlan.ts: what becomes of an account when its card subscription ends. The tables
-- are lists of rows in the order of a query's result.
pub mod Downgrade
pub mod Payments
use anzdrop.Base.{
  ℕ, String, Bool, true, false, not, ◌&&◌, Option, none, some, List, [], ◌∷◌, map, keep, find,
  exists, same, ltb, truthy, if◌then◌else◌,
}
use anzdrop.Plan.Limits.{Plan, free, standard, premium, normalize_stored_plan, plan_rank}
use anzdrop.Plan.Account.{Account, get_account_plan_info}

-- A row of `btc_payments`, the columns that are read here.
pub record BtcPayment : Type 0 where
  pub account_id : String
  pub status : String
  pub plan : String
  pub extends_plan_until : Option ℕ

pub record BillingState : Type 0 where
  pub accounts : List Account
  pub btc_payments : List BtcPayment

-- The argument `match`: a subscription, and the account if the caller knows it.
pub record SubscriptionMatch : Type 0 where
  pub subscription_id : String
  pub account_id : Option String

abbrev is_after : ℕ → Option ℕ → Bool
is_after now none = false
is_after now (some t) = ltb now t

-- The condition of the queries: a paid prepayment that reaches beyond now.
unfoldable pub is_live : String → ℕ → BtcPayment → Bool
is_live account_id now p =
    same p.account_id account_id && (same p.status "paid" && is_after now p.extends_plan_until)

unfoldable pub has_live_btc_prepaid_plan : BillingState → String → ℕ → Bool
has_live_btc_prepaid_plan db account_id now = exists (is_live account_id now) db.btc_payments

abbrev pub has_subscription : String → Account → Bool
has_subscription subscription_id a = elim a.stripe_subscription_id [
  | none ↦ false
  | some s ↦ same s subscription_id
]

abbrev pub clear_pointer : Account → Account
clear_pointer a = record {
  id = a.id;
  plan = a.plan;
  plan_expires_at = a.plan_expires_at;
  stripe_subscription_id = none;
}

-- `UPDATE accounts SET ... WHERE ...`
abbrev pub update_accounts : (Account → Bool) → (Account → Account) → BillingState → BillingState
update_accounts where_clause set_clause db = record {
  accounts = map (λ a. if where_clause a then set_clause a else a) db.accounts;
  btc_payments = db.btc_payments;
}

-- `if (match.accountId)`, false of an empty text too.
abbrev known_account : SubscriptionMatch → Option String
known_account m = elim m.account_id [ none ↦ none | some id ↦ if truthy id then some id else none ]

unfoldable pub clear_never_activated_subscription_pointer :
    BillingState → SubscriptionMatch → BillingState
clear_never_activated_subscription_pointer db m = elim (known_account m) [
  | none ↦ update_accounts (has_subscription m.subscription_id) clear_pointer db
  | some id ↦
      update_accounts (λ a. same a.id id && has_subscription m.subscription_id a) clear_pointer db
]

-- One round of the loop over the live payments, on `(nextPlan, nextExpiresAt)`.
unfoldable pub next_with : BtcPayment → Plan × ℕ → Plan × ℕ
next_with p (next_plan, next_expires_at) =
    let paid_plan = normalize_stored_plan p.plan in
    let until : ℕ = elim p.extends_plan_until [ none ↦ 0 | some t ↦ t ] in
    (
      if ltb (plan_rank next_plan) (plan_rank paid_plan) then paid_plan else next_plan,
      if ltb next_expires_at until then until else next_expires_at,
    )

unfoldable pub next_from : List BtcPayment → Plan × ℕ → Plan × ℕ
next_from [] next = next
next_from (p ∷ ps) next = next_from ps (next_with p next)

-- `accounts.plan` as it is stored.
abbrev pub stored_plan : Plan → String
stored_plan free = "free"
stored_plan standard = "standard"
stored_plan premium = "premium"

-- `match.accountId ?? (SELECT id ...)?.id`
abbrev matched_account : BillingState → SubscriptionMatch → Option String
matched_account db m = elim m.account_id [
  | some id ↦ some id
  | none ↦ elim (find (has_subscription m.subscription_id) db.accounts) [
    | none ↦ none
    | some a ↦ some a.id
  ]
]

abbrev pub set_plan : Plan × ℕ → Account → Account
set_plan next a = record {
  id = a.id;
  plan = stored_plan next.0;
  plan_expires_at = some next.1;
  stripe_subscription_id = none;
}

unfoldable pub downgrade_account : BillingState → String → String → ℕ → BillingState
downgrade_account db subscription_id account_id now =
    let live = keep (is_live account_id now) db.btc_payments in
    let next = next_from live (free, now) in
    update_accounts (λ a. same a.id account_id && has_subscription subscription_id a)
      (set_plan next) db

unfoldable pub downgrade_expired_card_plan : BillingState → SubscriptionMatch → ℕ → BillingState
downgrade_expired_card_plan db m now = elim (matched_account db m) [
  | none ↦ db
  | some id ↦ if truthy id then downgrade_account db m.subscription_id id now else db
]

unfoldable pub is_admin_granted_paid_plan : BillingState → String → ℕ → Bool → Bool
is_admin_granted_paid_plan db account_id now has_manageable_stripe_subscription =
    if has_manageable_stripe_subscription
    then false
    else elim (get_account_plan_info now db.accounts (some account_id)).plan [
      | free ↦ false
      | _ ↦ not (has_live_btc_prepaid_plan db account_id now)
    ]
