-- ===== src/Billing/Webhook/Renewed.antt =====
-- What an event of an active subscription does to the accounts.
use mathlib.Core.Path.{subst}
use anzdrop.Base.{
  ℕ, ◌≤◌, String, Bool, true, false, not, ◌&&◌, ◌||◌, ◌≡◌, refl, sym, ap, ◌∙◌, ◌≢◌, ◌⊎◌, inl, inr,
  Option, none, some, List, [], ◌∷◌, map, exists, find, same, same_iff, truthy, max, if◌then◌else◌,
  arith, Bool-cases, by_test, by_option, and_left, and_right,
}
use anzdrop.Plan.Limits.{Plan}
use anzdrop.Plan.Account.{Account}
use anzdrop.Billing.CardPlan.{BillingState, has_subscription, update_accounts}
use anzdrop.Billing.Subscription.{
  Subscription, SubscriptionStatus, retrieved, not_found, call_failed, same_option,
  is_active_subscription_status, is_never_activated_subscription_status,
  is_dead_subscription_status, StripeAnswer,
}
use anzdrop.Billing.Webhook.{
  WebhookContext, Handled, coalesce, renew, is_expiry_safe, may_repoint, repoint,
  other_subscription, conflicts, repoint_account, check_current, non_empty, fallback, activate,
  granted, updated, terminate, apply_event,
}

-- The end of a paid period; without one there is none.
abbrev pub until : Option ℕ → ℕ
until none = 0
until (some t) = t

-- Stripe has answered that it has no such subscription, or one that is not active.
abbrev pub IsInactive : WebhookContext → String → Type 0
IsInactive c o =
    (c.subscriptions o ≡ not_found)
    ⊎ ((x : Subscription) × (c.subscriptions o ≡ retrieved x)
        × (is_active_subscription_status x.status ≡ false))

-- One account: it loses no time, and it leaves another subscription only if Stripe answers that
-- it is not active.
pub record Renewed (c : WebhookContext) (s : Subscription) (a a' : Account) : Type 0 where
  pub same_account : a'.id ≡ a.id
  pub no_shorter : until a.plan_expires_at ≤ until a'.plan_expires_at
  pub pointer :
      (a'.stripe_subscription_id ≡ a.stripe_subscription_id)
      ⊎ ((a'.stripe_subscription_id ≡ some s.id)
          × ((o : String)
              → a.stripe_subscription_id ≡ some o
              → truthy o ≡ true
              → o ≢ s.id
              → IsInactive c o))

-- Row by row.
abbrev pub RenewsAll : WebhookContext → Subscription → List Account → List Account → Type 0
RenewsAll c s [] [] = Unit {0}
RenewsAll c s (a ∷ rows) (b ∷ others) = Renewed c s a b × RenewsAll c s rows others
RenewsAll c s _ _ = ⊥

unchanged-Renewed : (c : WebhookContext) (s : Subscription) (a : Account) → Renewed c s a a
unchanged-Renewed c s a = record {
  same_account = refl;
  no_shorter = omega arith;
  pointer = inl refl;
}

unchanged-RenewsAll :
    (c : WebhookContext) (s : Subscription) (rows : List Account) → RenewsAll c s rows rows
unchanged-RenewsAll c s [] = tt
unchanged-RenewsAll c s (a ∷ rows) = (unchanged-Renewed c s a, unchanged-RenewsAll c s rows)

update-RenewsAll :
    (c : WebhookContext) (s : Subscription) (where_clause : Account → Bool)
    (set_clause : Account → Account)
    → ((a : Account) → where_clause a ≡ true → Renewed c s a (set_clause a))
    → (rows : List Account)
    → RenewsAll c s rows (map (λ a. if where_clause a then set_clause a else a) rows)
update-RenewsAll c s w f step [] = tt
update-RenewsAll c s w f step (a ∷ rows) = (
  by_test (Renewed c s a) (w a) (f a) a (step a) (λ _. unchanged-Renewed c s a),
  update-RenewsAll c s w f step rows,
)

no_shorter_by_max : (o : Option ℕ) (n : ℕ) → until o ≤ max (coalesce o n) n
no_shorter_by_max none n = omega arith
no_shorter_by_max (some t) n = omega arith

renew-Renewed :
    (c : WebhookContext) (s : Subscription) (plan : Plan) (n : ℕ) (a : Account)
    → Renewed c s a (renew plan n a)
renew-Renewed c s plan n a = record {
  same_account = refl;
  no_shorter = no_shorter_by_max a.plan_expires_at n;
  pointer = inl refl;
}

same_option-eq : (x y : Option String) → same_option x y ≡ true → x ≡ y
same_option-eq none none h = refl
same_option-eq none (some t) h = absurd (cc (h))
same_option-eq (some s) none h = absurd (cc (h))
same_option-eq (some s) (some t) h = ap some ((same_iff s t).0 h)

safe_no_shorter : (n : ℕ) (o : Option ℕ) → is_expiry_safe n o ≡ true → until o ≤ n
safe_no_shorter n none h = omega arith
safe_no_shorter n (some t) h = ground (arith, h)

-- The account's own subscription was looked up, and is not active.
no_conflict :
    (c : WebhookContext) (id o : String)
    → conflicts c (other_subscription id (some o)) ≡ some false
    → truthy o ≡ true
    → o ≢ id
    → IsInactive c o
no_conflict c id o h named ne =
    let other : same o id ≡ false = elim (Bool-cases (same o id)) [
      | inl p ↦ absurd (ne ((same_iff o id).0 p))
      | inr p ↦ p
    ] in
    let asked : conflicts c (some o) ≡ some false = (rw (named, other) at h) in
    by_answer (c.subscriptions o) refl asked
  where
    by_answer :
        (r : StripeAnswer Subscription)
        → c.subscriptions o ≡ r
        → ◌≡◌ {A = Option Bool}
            (elim r [
              | retrieved other ↦ some (is_active_subscription_status other.status)
              | not_found ↦ some false
              | call_failed ↦ none
            ])
            (some false)
        → IsInactive c o
    by_answer not_found e q = inl e
    by_answer call_failed e q = absurd (cc (q))
    by_answer (retrieved x) e q = inr (x, e, cc (q))

-- The accounts that a handler leaves are those that it found, or those that others left meanwhile, renewed.
abbrev pub Renews : WebhookContext → Subscription → BillingState → Handled → Type 0
Renews c s db r =
    (RenewsAll c s db.accounts r.0.accounts ⊎ RenewsAll c s (c.meanwhile db).accounts r.0.accounts)
    × ((r.0.btc_payments ≡ db.btc_payments) ⊎ (r.0.btc_payments ≡ (c.meanwhile db).btc_payments))

module _ (c : WebhookContext) (s : Subscription) (db : BillingState) where
  same-Renews : (b : Bool) → Renews c s db (db, b)
  same-Renews b = (inl (unchanged-RenewsAll c s db.accounts), inl refl)

  repoint-Renewed :
      (plan : Plan) (n : ℕ) (current : Account)
      → conflicts c (other_subscription s.id current.stripe_subscription_id) ≡ some false
      → (a : Account) → may_repoint current.id current.stripe_subscription_id n a ≡ true
      → Renewed c s a (repoint s.id plan n a)
  repoint-Renewed plan n current free_of_others a h =
      let both : (same_option a.stripe_subscription_id current.stripe_subscription_id
            && is_expiry_safe n a.plan_expires_at)
          ≡ true =
        and_right (same a.id current.id) _ h in
      let as_found : a.stripe_subscription_id ≡ current.stripe_subscription_id =
        same_option-eq _ _ (and_left _ (is_expiry_safe n a.plan_expires_at) both) in
      record {
        same_account = refl;
        no_shorter = safe_no_shorter n a.plan_expires_at (
            and_right (same_option a.stripe_subscription_id current.stripe_subscription_id) _ both);
        pointer = inr (
          refl,
          λ o e named ne.
              no_conflict c s.id o
                (subst (λ (p : Option String). conflicts c (other_subscription s.id p) ≡ some false)
                  (sym as_found ∙ e) free_of_others)
                named ne,
        );
      }

  repoint_account-Renews :
      (plan : Plan) (n : ℕ) (current : Account) (conflicting : Bool)
      → conflicts c (other_subscription s.id current.stripe_subscription_id) ≡ some conflicting
      → Renews c s db (repoint_account c s plan n current conflicting db)
  repoint_account-Renews plan n current true e = same-Renews true
  repoint_account-Renews plan n current false e =
      by_test (Renews c s db) (not (is_expiry_safe n current.plan_expires_at)) (db, true)
        (
          update_accounts (may_repoint current.id current.stripe_subscription_id n)
              (repoint s.id plan n) (c.meanwhile db),
          true,
        )
        (λ _. same-Renews true)
        (λ _. (
          inr (
              update-RenewsAll c s (may_repoint current.id current.stripe_subscription_id n)
                (repoint s.id plan n) (repoint-Renewed plan n current e) (c.meanwhile db).accounts),
          inr refl,
        ))

  check_current-Renews :
      (plan : Plan) (n : ℕ) (current : Account)
      → Renews c s db (check_current c s plan n current db)
  check_current-Renews plan n current = by_answer (c.subscriptions s.id)
    where
      decided :
          (o : Option Bool)
          → conflicts c (other_subscription s.id current.stripe_subscription_id) ≡ o
          → Renews c s db (elim o [
            | none ↦ (db, false)
            | some conflicting ↦ repoint_account c s plan n current conflicting db
          ])
      decided none e = same-Renews false
      decided (some conflicting) e = repoint_account-Renews plan n current conflicting e

      by_answer :
          (r : StripeAnswer Subscription)
          → Renews c s db (elim r [
            | not_found ↦ (db, false)
            | call_failed ↦ (db, false)
            | retrieved now ↦
                if is_never_activated_subscription_status now.status
                  || is_dead_subscription_status now.status
                then (db, true)
                else elim (conflicts c (other_subscription s.id current.stripe_subscription_id)) [
                  | none ↦ (db, false)
                  | some conflicting ↦ repoint_account c s plan n current conflicting db
                ]
          ])
      by_answer not_found = same-Renews false
      by_answer call_failed = same-Renews false
      by_answer (retrieved now) =
          by_test (Renews c s db) _ _ _ (λ _. same-Renews true) (λ _. decided _ refl)

  fallback-Renews : (plan : Plan) (n : ℕ) → Renews c s db (fallback c s plan n db)
  unfolding fallback
  fallback-Renews plan n =
      by_option (Renews c s db) (non_empty s.metadata_account_id) _ _ (λ _. same-Renews true)
        λ account_id _.
          by_option (Renews c s db) (find (λ a. same a.id account_id) db.accounts) _ _
            (λ _. same-Renews true) (λ current _. check_current-Renews plan n current)

  activate-Renews : (plan : Plan) (n : ℕ) → Renews c s db (activate c s plan n db)
  unfolding activate
  activate-Renews plan n =
      by_test (Renews c s db) (exists (has_subscription s.id) db.accounts)
        (update_accounts (has_subscription s.id) (renew plan n) db, true) (fallback c s plan n db)
        (λ _. (
          inl (
              update-RenewsAll c s (has_subscription s.id) (renew plan n)
                (λ a _. renew-Renewed c s plan n a) db.accounts),
          inl refl,
        ))
        (λ _. fallback-Renews plan n)

  active_not_over :
      (status : SubscriptionStatus)
      → is_active_subscription_status status ≡ true
      → (is_never_activated_subscription_status status || is_dead_subscription_status status)
        ≡ false
  active_not_over status h = ground (arith, h)

  -- However an event of an active subscription is handled, returned from or thrown out of, and
  -- whatever other requests do while it waits for Stripe, no account loses paid time, and an account changes
  -- to this subscription only from none, from this one or from one that Stripe has answered is not
  -- active or not there; if Stripe does not answer, its subscription stays.
  pub apply_event-Renews :
      is_active_subscription_status s.status ≡ true → Renews c s db (apply_event c (updated s) db)
  unfolding apply_event
  apply_event-Renews active_now = by_grant (granted c s)
    where
      by_grant :
          (g : Option (Plan × ℕ))
          → Renews c s db (elim g [
            | some (plan, new_expires_at) ↦ activate c s plan new_expires_at db
            | none ↦
                if is_never_activated_subscription_status s.status
                  || is_dead_subscription_status s.status
                then terminate c s db
                else (db, true)
          ])
      by_grant none = rw (active_not_over s.status active_now) (same-Renews true)
      by_grant (some (plan, n)) = activate-Renews plan n
