-- ===== src/Plan/Tests.antt =====
-- lib/plan.ts and lib/retention.ts on concrete inputs.
use anzdrop.Base.{ℕ, ◌+◌, ◌*◌, ◌≤◌, ◌<◌, ◌≡◌, refl, ◌↔◌, none, some, true, arith}
use anzdrop.Plan.Retention.{retention_days, is_retention, calculate_expires_at, day_ms}
use anzdrop.Plan.Limits.{
  free, standard, premium, is_retention_allowed_for_plan, get_max_file_size_bytes,
  get_max_retention_days, get_upload_concurrency_for_plan, is_preview_allowed_for_plan,
  is_turnstile_required_for_plan,
}
use anzdrop.Plan.Limits.Laws.{
  higher_plan_allows, allowed_retention_expiry, is_retention_allowed_for_plan_iff,
}
use anzdrop.Plan.Account.{effective_plan, extend_paid_period}
use anzdrop.Plan.Account.Laws.{extend_paid_period_keeps, extend_paid_period_twice}

is_retention_days : is_retention "7d" ≡ true
unfolding is_retention retention_days
is_retention_days = refl

-- An inherited name passes.
is_retention_inherited :
    (is_retention "toString" ≡ true) × (calculate_expires_at 5 "toString" ≡ none)
unfolding is_retention retention_days calculate_expires_at
is_retention_inherited = (refl, refl)

is_retention_allowed_for_plan_iff_example :
    (is_retention_allowed_for_plan "15d" standard ≡ true) ↔ (
      (days : ℕ) × (retention_days "15d" ≡ some days)
      × (1 ≤ days)
      × (days ≤ get_max_retention_days standard))
is_retention_allowed_for_plan_iff_example = is_retention_allowed_for_plan_iff "15d" standard

higher_plan_allows_example :
    (is_retention_allowed_for_plan "7d" free ≡ true
      → is_retention_allowed_for_plan "7d" premium ≡ true)
    × (get_max_file_size_bytes free ≤ get_max_file_size_bytes premium)
    × (get_max_retention_days free ≤ get_max_retention_days premium)
    × (get_upload_concurrency_for_plan free ≤ get_upload_concurrency_for_plan premium)
    × (is_preview_allowed_for_plan free ≡ true → is_preview_allowed_for_plan premium ≡ true)
    × (is_turnstile_required_for_plan premium ≡ true → is_turnstile_required_for_plan free ≡ true)
higher_plan_allows_example = higher_plan_allows free premium "7d" (omega arith)

allowed_15d : is_retention_allowed_for_plan "15d" standard ≡ true
unfolding is_retention_allowed_for_plan
allowed_15d = refl

one_day_expiry :
    (days : ℕ) × (calculate_expires_at 1000 "15d" ≡ some (1000 + days * day_ms))
    × (1 ≤ days)
    × (days ≤ get_max_retention_days standard)
one_day_expiry = allowed_retention_expiry "15d" standard 1000 allowed_15d

extend_paid_period_keeps_example :
    (effective_plan 6 premium (some 7) ≡ premium
      → effective_plan 6 premium (some (extend_paid_period 5 (some 7) 30)) ≡ premium)
    × (6 < 5 + 30 * day_ms
        → effective_plan 6 premium (some (extend_paid_period 5 (some 7) 30)) ≡ premium)
extend_paid_period_keeps_example = extend_paid_period_keeps 5 6 30 premium (some 7)

abbrev first_period : ℕ
first_period = 5 + 10 * day_ms

extend_first : extend_paid_period 5 none 10 ≡ first_period
unfolding extend_paid_period
extend_first = refl

extend_paid_period_in_turn :
    extend_paid_period 6 (some (extend_paid_period 5 none 10)) 20 ≡ extend_paid_period 5 none 30
extend_paid_period_in_turn = extend_paid_period_twice 5 6 10 20 none (omega (arith, extend_first))
