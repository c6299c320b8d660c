-- ===== src/Plan/Limits/Laws.antt =====
-- The plans are ordered by rank, and a higher plan allows all that a lower one does.
use anzdrop.Base.{
  ◌↔◌, ℕ, ◌+◌, ◌*◌, ◌≤◌, ◌≡◌, refl, ◌⊎◌, inl, inr, String, true, false, some, same, same_iff, arith,
  Bool-cases,
}
use anzdrop.Plan.Retention.{calculate_expires_at, day_ms, retention_days}
use anzdrop.Plan.Limits.{
  Plan, free, standard, premium, plan_rank, get_max_file_size_bytes, get_max_retention_days,
  is_retention_allowed_for_plan, get_upload_concurrency_for_plan, is_preview_allowed_for_plan,
  is_turnstile_required_for_plan,
}

-- A plan of higher rank has every retention of a lower one, files as large, a longest retention
-- as long, as many parallel uploads, previews if the lower one has them, and it is asked for Turnstile only if the
-- lower one is.
pub higher_plan_allows :
    (p q : Plan) (r : String)
    → plan_rank p ≤ plan_rank q
    → (is_retention_allowed_for_plan r p ≡ true → is_retention_allowed_for_plan r q ≡ true)
      × (get_max_file_size_bytes p ≤ get_max_file_size_bytes q)
      × (get_max_retention_days p ≤ get_max_retention_days q)
      × (get_upload_concurrency_for_plan p ≤ get_upload_concurrency_for_plan q)
      × (is_preview_allowed_for_plan p ≡ true → is_preview_allowed_for_plan q ≡ true)
      × (is_turnstile_required_for_plan q ≡ true → is_turnstile_required_for_plan p ≡ true)
unfolding is_retention_allowed_for_plan get_max_file_size_bytes get_max_retention_days
    get_upload_concurrency_for_plan is_preview_allowed_for_plan is_turnstile_required_for_plan
higher_plan_allows free free r h =
    ((λ a. a), ground arith, ground arith, ground arith, (λ a. a), (λ a. a))
higher_plan_allows free standard r h = (
  (λ a. ground arith),
  ground arith,
  ground arith,
  ground arith,
  (λ a. ground arith),
  (λ a. ground arith),
)
higher_plan_allows free premium r h = (
  (λ a. ground arith),
  ground arith,
  ground arith,
  ground arith,
  (λ a. ground arith),
  (λ a. ground arith),
)
higher_plan_allows standard free r h = absurd (omega arith)
higher_plan_allows standard standard r h =
    ((λ a. a), ground arith, ground arith, ground arith, (λ a. a), (λ a. a))
higher_plan_allows standard premium r h = (
  (λ a. ground arith),
  ground arith,
  ground arith,
  ground arith,
  (λ a. ground arith),
  (λ a. ground arith),
)
higher_plan_allows premium free r h = absurd (omega arith)
higher_plan_allows premium standard r h = absurd (omega arith)
higher_plan_allows premium premium r h =
    ((λ a. a), ground arith, ground arith, ground arith, (λ a. a), (λ a. a))

equal_cases : (r s : String) → (r ≡ s) ⊎ (same r s ≡ false)
equal_cases r s = elim (Bool-cases (same r s)) [ inl h ↦ inl ((same_iff r s).0 h) | inr h ↦ inr h ]

within_plan :
    (r : String) (p : Plan)
    → is_retention_allowed_for_plan r p ≡ true
    → (days : ℕ) × (retention_days r ≡ some days) × (1 ≤ days) × (days ≤ get_max_retention_days p)
unfolding is_retention_allowed_for_plan get_max_retention_days retention_days
within_plan r free h = elim (equal_cases r "once") [
  | inl e ↦ rw e (7, refl, omega arith, omega arith)
  | inr n0 ↦ elim (equal_cases r "1d") [
    | inl e ↦ rw e (1, refl, omega arith, omega arith)
    | inr n1 ↦ elim (equal_cases r "3d") [
      | inl e ↦ rw e (3, refl, omega arith, omega arith)
      | inr n2 ↦ elim (equal_cases r "7d") [
        | inl e ↦ rw e (7, refl, omega arith, omega arith)
        | inr n3 ↦ elim (equal_cases r "15d") [
          | inl e ↦ absurd (ground (arith, e))
          | inr n4 ↦ elim (equal_cases r "30d") [
            | inl e ↦ absurd (ground (arith, e))
            | inr n5 ↦ absurd (ground arith)
          ]
        ]
      ]
    ]
  ]
]
within_plan r standard h = elim (equal_cases r "once") [
  | inl e ↦ rw e (7, refl, omega arith, omega arith)
  | inr n0 ↦ elim (equal_cases r "1d") [
    | inl e ↦ rw e (1, refl, omega arith, omega arith)
    | inr n1 ↦ elim (equal_cases r "3d") [
      | inl e ↦ rw e (3, refl, omega arith, omega arith)
      | inr n2 ↦ elim (equal_cases r "7d") [
        | inl e ↦ rw e (7, refl, omega arith, omega arith)
        | inr n3 ↦ elim (equal_cases r "15d") [
          | inl e ↦ rw e (15, refl, omega arith, omega arith)
          | inr n4 ↦ elim (equal_cases r "30d") [
            | inl e ↦ absurd (ground (arith, e))
            | inr n5 ↦ absurd (ground arith)
          ]
        ]
      ]
    ]
  ]
]
within_plan r premium h = elim (equal_cases r "once") [
  | inl e ↦ rw e (7, refl, omega arith, omega arith)
  | inr n0 ↦ elim (equal_cases r "1d") [
    | inl e ↦ rw e (1, refl, omega arith, omega arith)
    | inr n1 ↦ elim (equal_cases r "3d") [
      | inl e ↦ rw e (3, refl, omega arith, omega arith)
      | inr n2 ↦ elim (equal_cases r "7d") [
        | inl e ↦ rw e (7, refl, omega arith, omega arith)
        | inr n3 ↦ elim (equal_cases r "15d") [
          | inl e ↦ rw e (15, refl, omega arith, omega arith)
          | inr n4 ↦ elim (equal_cases r "30d") [
            | inl e ↦ rw e (30, refl, omega arith, omega arith)
            | inr n5 ↦ absurd (ground arith)
          ]
        ]
      ]
    ]
  ]
]

allowed_within :
    (r : String) (p : Plan) (days : ℕ)
    → retention_days r ≡ some days
    → days ≤ get_max_retention_days p
    → is_retention_allowed_for_plan r p ≡ true
unfolding is_retention_allowed_for_plan get_max_retention_days retention_days
allowed_within r free days known le = elim (equal_cases r "once") [
  | inl e ↦ rw e refl
  | inr n0 ↦ elim (equal_cases r "1d") [
    | inl e ↦ rw e refl
    | inr n1 ↦ elim (equal_cases r "3d") [
      | inl e ↦ rw e refl
      | inr n2 ↦ elim (equal_cases r "7d") [
        | inl e ↦ rw e refl
        | inr n3 ↦ elim (equal_cases r "15d") [
          | inl e ↦ absurd (ground (arith, e))
          | inr n4 ↦ elim (equal_cases r "30d") [
            | inl e ↦ absurd (ground (arith, e))
            | inr n5 ↦ absurd (ground arith)
          ]
        ]
      ]
    ]
  ]
]
allowed_within r standard days known le = elim (equal_cases r "once") [
  | inl e ↦ rw e refl
  | inr n0 ↦ elim (equal_cases r "1d") [
    | inl e ↦ rw e refl
    | inr n1 ↦ elim (equal_cases r "3d") [
      | inl e ↦ rw e refl
      | inr n2 ↦ elim (equal_cases r "7d") [
        | inl e ↦ rw e refl
        | inr n3 ↦ elim (equal_cases r "15d") [
          | inl e ↦ rw e refl
          | inr n4 ↦ elim (equal_cases r "30d") [
            | inl e ↦ absurd (ground (arith, e))
            | inr n5 ↦ absurd (ground arith)
          ]
        ]
      ]
    ]
  ]
]
allowed_within r premium days known le = elim (equal_cases r "once") [
  | inl e ↦ rw e refl
  | inr n0 ↦ elim (equal_cases r "1d") [
    | inl e ↦ rw e refl
    | inr n1 ↦ elim (equal_cases r "3d") [
      | inl e ↦ rw e refl
      | inr n2 ↦ elim (equal_cases r "7d") [
        | inl e ↦ rw e refl
        | inr n3 ↦ elim (equal_cases r "15d") [
          | inl e ↦ rw e refl
          | inr n4 ↦ elim (equal_cases r "30d") [
            | inl e ↦ rw e refl
            | inr n5 ↦ absurd (ground arith)
          ]
        ]
      ]
    ]
  ]
]

-- An allowed retention has an expiry, after the creation and within the plan's longest period.
pub allowed_retention_expiry :
    (r : String) (p : Plan) (created_at : ℕ)
    → is_retention_allowed_for_plan r p ≡ true
    → (days : ℕ) × (calculate_expires_at created_at r ≡ some (created_at + days * day_ms))
      × (1 ≤ days)
      × (days ≤ get_max_retention_days p)
unfolding calculate_expires_at
allowed_retention_expiry r p created_at h =
    let (days, known, low, high) = within_plan r p h in
    (days, rw (known, calculate_expires_at) refl, low, high)

-- The retentions that a plan allows are those of the table whose days, one at least, are not more than the
-- plan's longest retention: the lists of the plans agree with the table of days.
pub is_retention_allowed_for_plan_iff :
    (r : String) (p : Plan)
    → (is_retention_allowed_for_plan r p ≡ true) ↔ (
        (days : ℕ) × (retention_days r ≡ some days)
        × (1 ≤ days)
        × (days ≤ get_max_retention_days p))
is_retention_allowed_for_plan_iff r p =
    (within_plan r p, λ (days, known, some_days, le). allowed_within r p days known le)
