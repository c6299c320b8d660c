-- ===== src/Billing/CardPlan/Downgrade.antt =====
-- What an ended card subscription leaves an account with.
use anzdrop.Base.{
  ℕ, ◌≤◌, ◌≡◌, refl, ◌∙◌, inl, inr, String, Bool, true, false, ◌&&◌, some, keep, exists, find,
  find-map, find-passes, same, truthy, if◌then◌else◌, arith, Bool-cases,
}
use anzdrop.Plan.Limits.{Plan, free, standard, premium, normalize_stored_plan}
use anzdrop.Plan.Account.{Account, effective_plan, get_account_plan_info}
use anzdrop.Billing.CardPlan.{
  BillingState, is_live, has_live_btc_prepaid_plan, has_subscription, next_from, stored_plan,
  set_plan, downgrade_account, is_admin_granted_paid_plan,
}
use anzdrop.Billing.CardPlan.Payments.{next_from_lem}

normalize-stored_plan : (plan : Plan) → normalize_stored_plan (stored_plan plan) ≡ plan
unfolding normalize_stored_plan
normalize-stored_plan free = refl
normalize-stored_plan standard = refl
normalize-stored_plan premium = refl

if-id :
    (b : Bool) (id : String) (x y : Account)
    → y.id ≡ x.id
    → same (if b then y else x).id id ≡ same x.id id
if-id true id x y e = rw e refl
if-id false id x y e = refl

-- The account that had the subscription is left with the plan and the expiry of `next_from`.
downgraded_info :
    (db : BillingState) (subscription_id account_id : String) (now later : ℕ) (a : Account)
    → truthy account_id ≡ true
    → find (λ x. same x.id account_id) db.accounts ≡ some a
    → has_subscription subscription_id a ≡ true
    → let next = next_from (keep (is_live account_id now) db.btc_payments) (free, now) in
      (get_account_plan_info later
        (downgrade_account db subscription_id account_id now).accounts
        (some account_id)).plan
      ≡ effective_plan later next.0 (some next.1)
unfolding get_account_plan_info downgrade_account
downgraded_info db subscription_id account_id now later a named found had =
    let next : Plan × ℕ = next_from (keep (is_live account_id now) db.btc_payments) (free, now) in
    let test : Account → Bool = λ x. same x.id account_id in
    let passes : same a.id account_id ≡ true = find-passes test db.accounts a found in
    let update : Account → Account = λ x.
      if same x.id account_id && has_subscription subscription_id x then set_plan next x else x in
    let seen : (x : Account) → test (update x) ≡ test x = λ x.
      if-id (same x.id account_id && has_subscription subscription_id x) account_id x
        (set_plan next x) refl in
    let filled : same account_id "" ≡ false = ground (arith, named) in
    let now_found = find-map test update seen db.accounts in
    rw (filled, now_found, found, passes, had, normalize-stored_plan next.0) refl

prepaid_after :
    (db : BillingState) (subscription_id account_id : String) (now later : ℕ)
    → exists (is_live account_id later) db.btc_payments ≡ true
    → has_live_btc_prepaid_plan
        (downgrade_account db subscription_id account_id now)
        account_id
        later
      ≡ true
unfolding has_live_btc_prepaid_plan downgrade_account
prepaid_after db subscription_id account_id now later live = live

-- After a card subscription has ended, its account never counts as one that an administrator gave
-- a plan to: from then on its plan is free, or a prepayment of its own is live.
pub downgrade-not_admin_granted :
    (db : BillingState) (subscription_id account_id : String) (now later : ℕ) (a : Account)
    → truthy account_id ≡ true
    → find (λ x. same x.id account_id) db.accounts ≡ some a
    → has_subscription subscription_id a ≡ true
    → now ≤ later
    → is_admin_granted_paid_plan
        (downgrade_account db subscription_id account_id now)
        account_id
        later
        false
      ≡ false
unfolding is_admin_granted_paid_plan
downgrade-not_admin_granted db subscription_id account_id now later a named found had h =
    let info = downgraded_info db subscription_id account_id now later a named found had in
    elim (Bool-cases (exists (is_live account_id later) db.btc_payments)) [
      | inl live ↦ ground (arith, prepaid_after db subscription_id account_id now later live)
      | inr ended ↦
          let plan_ends = info ∙ (next_from_lem db.btc_payments account_id now).1 later h ended in
          rw plan_ends refl
    ]
