-- ===== src/Billing/Tests.antt =====
-- lib/billing/cardPlan.ts on concrete inputs.
use anzdrop.Base.{ℕ, ◌≤◌, ◌≡◌, refl, List, [], ◌∷◌, some, false, All, keep, exists, arith}
use anzdrop.Plan.Limits.{free, standard, normalize_stored_plan}
use anzdrop.Plan.Account.{Account, effective_plan}
use anzdrop.Billing.CardPlan.{
  BtcPayment, BillingState, is_live, next_with, next_from, downgrade_account,
  is_admin_granted_paid_plan,
}
use anzdrop.Billing.CardPlan.Payments.{Covered, next_from_lem}
use anzdrop.Billing.CardPlan.Downgrade.{downgrade-not_admin_granted}

abbrev prepaid : List BtcPayment
prepaid =
    record { account_id = "a"; status = "paid"; plan = "standard"; extends_plan_until = some 90 }
    ∷ record { account_id = "a"; status = "paid"; plan = "paid"; extends_plan_until = some 20 }
    ∷ []

abbrev card_holder : Account
card_holder = record {
  id = "a";
  plan = "premium";
  plan_expires_at = some 60;
  stripe_subscription_id = some "sub";
}

abbrev billing : BillingState
billing = record { accounts = card_holder ∷ []; btc_payments = prepaid }

next_from-prepaid : next_from (keep (is_live "a" 50) prepaid) (free, 50) ≡ (standard, 90)
unfolding next_from next_with is_live normalize_stored_plan
next_from-prepaid = refl

next_from_lem_example :
    let next = next_from (keep (is_live "a" 50) prepaid) (free, 50) in
    All (Covered next) (keep (is_live "a" 50) prepaid)
    × ((later : ℕ)
        → 50 ≤ later
        → exists (is_live "a" later) prepaid ≡ false
        → effective_plan later next.0 (some next.1) ≡ free)
next_from_lem_example = next_from_lem prepaid "a" 50

downgrade-not_admin_granted_example :
    is_admin_granted_paid_plan (downgrade_account billing "sub" "a" 50) "a" 70 false ≡ false
downgrade-not_admin_granted_example =
    downgrade-not_admin_granted billing "sub" "a" 50 70 card_holder refl refl refl (omega arith)
