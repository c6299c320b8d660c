-- ===== src/Plan/Account/Laws.antt =====
-- The paid period of an account: what a charge of days does to the effective plan.
use anzdrop.Base.{ℕ, ◌+◌, ◌*◌, ◌≤◌, ◌<◌, ◌≡◌, refl, Option, none, some, arith}
use anzdrop.Plan.Retention.{day_ms}
use anzdrop.Plan.Limits.{Plan, free, standard, premium}
use anzdrop.Plan.Account.{effective_plan, extend_paid_period}

-- A charge never takes time away: whenever the plan was effective before the charge, it is
-- effective after it, and it is so for the charged days counted from the charge.
pub extend_paid_period_keeps :
    (now later days : ℕ) (plan : Plan) (expires : Option ℕ)
    → (effective_plan later plan expires ≡ plan
        → effective_plan later plan (some (extend_paid_period now expires days)) ≡ plan)
      × (later < now + days * day_ms
          → effective_plan later plan (some (extend_paid_period now expires days)) ≡ plan)
unfolding effective_plan extend_paid_period
extend_paid_period_keeps now later days free expires = (λ h. refl, λ h. refl)
extend_paid_period_keeps now later days standard none = (λ h. ground arith, λ h. ground arith)
extend_paid_period_keeps now later days standard (some t) = (λ h. ground arith, λ h. ground arith)
extend_paid_period_keeps now later days premium none = (λ h. ground arith, λ h. ground arith)
extend_paid_period_keeps now later days premium (some t) = (λ h. ground arith, λ h. ground arith)

-- Two charges, the second made while the period of the first runs, are one charge of all the days.
pub extend_paid_period_twice :
    (now later first second : ℕ) (expires : Option ℕ)
    → later ≤ extend_paid_period now expires first
    → extend_paid_period later (some (extend_paid_period now expires first)) second
      ≡ extend_paid_period now expires (first + second)
unfolding extend_paid_period
extend_paid_period_twice now later first second none h = ground arith
extend_paid_period_twice now later first second (some t) h = ground arith
