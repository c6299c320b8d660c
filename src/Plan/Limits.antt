-- ===== src/Plan/Limits.antt =====
-- lib/plan.ts: what each plan allows.
pub mod Laws
use anzdrop.Base.{
  ℕ, ◌+◌, ◌*◌, String, Bool, true, false, not, List, [], ◌∷◌, Option, none, some, same, exists,
  keep, max, if◌then◌else◌,
}
use anzdrop.Plan.Retention.{retention_days}

pub data Plan : Type 0 where
  free standard premium : Plan

pub record PlanLimits : Type 0 where
  pub max_file_size_bytes : ℕ
  pub allowed_retentions : List String
  pub preview_enabled : Bool
  pub skip_turnstile : Bool
  pub upload_concurrency : ℕ

-- lib/limits.ts
abbrev pub max_file_size_bytes_free : ℕ
max_file_size_bytes_free = 5 * 1024 * 1024 * 1024

abbrev pub plan_limits : Plan → PlanLimits
plan_limits free = record {
  max_file_size_bytes = max_file_size_bytes_free;
  allowed_retentions = "once" ∷ "1d" ∷ "3d" ∷ "7d" ∷ [];
  preview_enabled = false;
  skip_turnstile = false;
  upload_concurrency = 8;
}
plan_limits standard = record {
  max_file_size_bytes = 20 * 1024 * 1024 * 1024;
  allowed_retentions = "once" ∷ "1d" ∷ "3d" ∷ "7d" ∷ "15d" ∷ [];
  preview_enabled = false;
  skip_turnstile = true;
  upload_concurrency = 8;
}
plan_limits premium = record {
  max_file_size_bytes = 50 * 1024 * 1024 * 1024;
  allowed_retentions = "once" ∷ "1d" ∷ "3d" ∷ "7d" ∷ "15d" ∷ "30d" ∷ [];
  preview_enabled = true;
  skip_turnstile = true;
  upload_concurrency = 12;
}

abbrev pub plan_default_retention : Plan → String
plan_default_retention free = "7d"
plan_default_retention standard = "15d"
plan_default_retention premium = "30d"

abbrev pub plan_rank : Plan → ℕ
plan_rank free = 0
plan_rank standard = 1
plan_rank premium = 2

unfoldable pub is_purchasable_plan : String → Bool
is_purchasable_plan value = exists (same value) ("standard" ∷ "premium" ∷ [])

unfoldable pub get_max_file_size_bytes : Plan → ℕ
get_max_file_size_bytes plan = (plan_limits plan).max_file_size_bytes

-- `Math.max(...days)`, which is -Infinity, here 0, of no days.
abbrev max_days : List String → ℕ
max_days [] = 0
max_days (r ∷ rs) = max (elim (retention_days r) [ none ↦ 0 | some days ↦ days ]) (max_days rs)

unfoldable pub get_max_retention_days : Plan → ℕ
unfolding retention_days
get_max_retention_days plan =
    max_days (keep (λ r. not (same r "once")) (plan_limits plan).allowed_retentions)

unfoldable pub is_retention_allowed_for_plan : String → Plan → Bool
is_retention_allowed_for_plan retention plan =
    exists (same retention) (plan_limits plan).allowed_retentions

unfoldable pub is_preview_allowed_for_plan : Plan → Bool
is_preview_allowed_for_plan plan = (plan_limits plan).preview_enabled

unfoldable pub is_turnstile_required_for_plan : Plan → Bool
is_turnstile_required_for_plan plan = not (plan_limits plan).skip_turnstile

unfoldable pub get_upload_concurrency_for_plan : Plan → ℕ
get_upload_concurrency_for_plan plan = (plan_limits plan).upload_concurrency

unfoldable pub normalize_stored_plan : String → Plan
normalize_stored_plan raw_plan =
    if same raw_plan "standard"
    then standard
    else if same raw_plan "premium"
    then premium
    else if same raw_plan "paid"
    then premium
    else free
