-- ===== src/Plan/Retention.antt =====
-- lib/retention.ts.
use anzdrop.Base.{
  ℕ, ◌+◌, ◌*◌, String, Bool, true, false, ◌||◌, List, [], ◌∷◌, Option, none, some, same, exists,
  if◌then◌else◌,
}

abbrev pub day_ms : ℕ
day_ms = 24 * 60 * 60 * 1000

abbrev pub day_table : List (String × ℕ)
day_table = ("once", 7) ∷ ("1d", 1) ∷ ("3d", 3) ∷ ("7d", 7) ∷ ("15d", 15) ∷ ("30d", 30) ∷ []

abbrev pub lookup_days : String → List (String × ℕ) → Option ℕ
lookup_days key [] = none
lookup_days key ((k, days) ∷ rest) = if same key k then some days else lookup_days key rest

-- `RETENTION_DAYS[retention]`, an own property of the table.
unfoldable pub retention_days : String → Option ℕ
retention_days retention = lookup_days retention day_table

-- The names that every object inherits from `Object.prototype`, which `in` finds too.
abbrev pub inherited_names : List String
inherited_names =
    "constructor" ∷ "__defineGetter__" ∷ "__defineSetter__" ∷ "hasOwnProperty" ∷ "__lookupGetter__"
    ∷ "__lookupSetter__" ∷ "isPrototypeOf" ∷ "propertyIsEnumerable" ∷ "toString" ∷ "valueOf"
    ∷ "__proto__" ∷ "toLocaleString" ∷ []

abbrev pub is_some {ℓ} : {A : Type ℓ} → Option A → Bool
is_some none = false
is_some (some a) = true

-- `typeof value === "string" && value in RETENTION_DAYS`, of a text.
unfoldable pub is_retention : String → Bool
is_retention value = is_some (retention_days value) || exists (same value) inherited_names

-- `none` is the RangeError of `toISOString` on an invalid date.
unfoldable pub calculate_expires_at : ℕ → String → Option ℕ
calculate_expires_at created_at retention = elim (retention_days retention) [
  | none ↦ none
  | some days ↦ some (created_at + days * day_ms)
]

unfoldable pub max_downloads_for_retention : String → Option ℕ
max_downloads_for_retention retention = if same retention "once" then some 1 else none
