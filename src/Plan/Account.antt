-- ===== src/Plan/Account.antt =====
-- lib/plan.ts: the plan that an account really has, and its paid period. A time is a number of
-- milliseconds; a stored time that is null or empty is `none`.
pub mod Laws
use anzdrop.Base.{
  ℕ, ◌+◌, ◌*◌, String, Option, none, some, List, find, same, ltb, max, if◌then◌else◌,
}
use anzdrop.Plan.Retention.{day_ms}
use anzdrop.Plan.Limits.{Plan, free, standard, premium, normalize_stored_plan}

-- The columns of `accounts` that the plan stands in.
pub record Account : Type 0 where
  pub id : String
  pub plan : String
  pub plan_expires_at : Option ℕ
  pub stripe_subscription_id : Option String

pub record AccountPlanInfo : Type 0 where
  pub plan : Plan
  pub plan_expires_at : Option ℕ

-- A paid plan of which the expiry is checked against the clock.
abbrev unless_expired : ℕ → Plan → Option ℕ → Plan
unless_expired now plan none = free
unless_expired now plan (some expiry) = if ltb now expiry then plan else free

unfoldable pub effective_plan : ℕ → Plan → Option ℕ → Plan
effective_plan now free plan_expires_at = free
effective_plan now standard plan_expires_at = unless_expired now standard plan_expires_at
effective_plan now premium plan_expires_at = unless_expired now premium plan_expires_at

unfoldable pub extend_paid_period : ℕ → Option ℕ → ℕ → ℕ
extend_paid_period now none days = max now now + days * day_ms
extend_paid_period now (some current_expiry) days = max now current_expiry + days * day_ms

abbrev free_plan_info : AccountPlanInfo
free_plan_info = record { plan = free; plan_expires_at = none }

unfoldable pub get_account_plan_info : ℕ → List Account → Option String → AccountPlanInfo
get_account_plan_info now accounts none = free_plan_info
get_account_plan_info now accounts (some account_id) =
    if same account_id ""
    then free_plan_info
    else elim (find (λ a. same a.id account_id) accounts) [
      | none ↦ free_plan_info
      | some account ↦ record {
        plan = effective_plan now (normalize_stored_plan account.plan) account.plan_expires_at;
        plan_expires_at = account.plan_expires_at;
      }
    ]
