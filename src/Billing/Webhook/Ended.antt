-- ===== src/Billing/Webhook/Ended.antt =====
-- An event that comes late does not bring an ended subscription back.
use mathlib.Core.Path.{subst}
use mathlib.Core.List.{Memᴰ}
use anzdrop.Base.{
  ℕ, String, Bool, true, false, ◌&&◌, ◌||◌, ◌≡◌, refl, sym, ◌∙◌, inl, inr, Option, none, some, List,
  [], ◌∷◌, map, exists, find, find-head, find-tail, find-passes, same, same_iff, truthy,
  if◌then◌else◌, arith, Bool-cases, by_option, Option-cases,
}
use anzdrop.Plan.Limits.{Plan}
use anzdrop.Plan.Account.{Account}
use anzdrop.Billing.CardPlan.{
  BillingState, SubscriptionMatch, has_subscription, downgrade_account, downgrade_expired_card_plan,
  set_plan, clear_never_activated_subscription_pointer, clear_pointer,
}
use anzdrop.Billing.Subscription.{
  Subscription, SubscriptionStatus, retrieved, is_active_subscription_status,
  is_never_activated_subscription_status, is_dead_subscription_status,
  should_only_clear_subscription_pointer,
}
use anzdrop.Billing.Webhook.{
  WebhookContext, Handled, check_current, non_empty, fallback, activate, terminate, granted,
  updated, deleted, apply_event,
}

-- No account points to the subscription.
abbrev pub Untracked : String → BillingState → Type 0
Untracked subscription_id db = exists (has_subscription subscription_id) db.accounts ≡ false

-- At most one account does, and it has an id.
abbrev pub HasOneHolder : String → BillingState → Type 0
HasOneHolder subscription_id db =
    (a b : Account)
    → Memᴰ a db.accounts
    → Memᴰ b db.accounts
    → has_subscription subscription_id a ≡ true
    → has_subscription subscription_id b ≡ true
    → (a.id ≡ b.id) × (truthy a.id ≡ true)

active_not_over :
    (status : SubscriptionStatus)
    → is_active_subscription_status status ≡ true
    → (is_never_activated_subscription_status status || is_dead_subscription_status status) ≡ false
active_not_over status h = ground (arith, h)

-- Stripe has it as ended for good.
abbrev pub IsOver : Subscription → Type 0
IsOver s =
    (is_never_activated_subscription_status s.status || is_dead_subscription_status s.status) ≡ true

exists-map-false :
    (p : Account → Bool) (f : Account → Account) (rows : List Account)
    → ((a : Account) → Memᴰ a rows → p (f a) ≡ false)
    → exists p (map f rows) ≡ false
exists-map-false p f [] h = refl
exists-map-false p f (a ∷ rows) h =
    rw (exists, h a (Memᴰ.head refl)) (exists-map-false p f rows (λ b m. h b (Memᴰ.tail m)))

exists-find :
    (p : Account → Bool) (rows : List Account) → find p rows ≡ none → exists p rows ≡ false
exists-find p [] h = refl
exists-find p (a ∷ rows) h = elim (Bool-cases (p a)) [
  | inl e ↦ absurd (cc (find-head p a rows e, h))
  | inr e ↦ rw (exists, e) (exists-find p rows (sym (find-tail p a rows e) ∙ h))
]

find-Memᴰ :
    (p : Account → Bool) (rows : List Account) (a : Account) → find p rows ≡ some a → Memᴰ a rows
find-Memᴰ p [] a h = absurd (cc (h))
find-Memᴰ p (b ∷ rows) a h = elim (Bool-cases (p b)) [
  | inl e ↦ Memᴰ.head (sym (some_eq b a (sym (find-head p b rows e) ∙ h)))
  | inr e ↦ Memᴰ.tail (find-Memᴰ p rows a (sym (find-tail p b rows e) ∙ h))
]
  where
    some_eq : (x y : Account) → some x ≡ some y → x ≡ y
    some_eq x y e = cc

cleared_or_other :
    (id : String) (b : Bool) (f : Account → Account) (a : Account)
    → has_subscription id (f a) ≡ false
    → (b ≡ false → has_subscription id a ≡ false)
    → has_subscription id (if b then f a else a) ≡ false
cleared_or_other id true f a h g = h
cleared_or_other id false f a h g = g refl

clear-Untracked :
    (id : String) (db : BillingState)
    → Untracked id (
        clear_never_activated_subscription_pointer db
          (record { subscription_id = id; account_id = none }))
unfolding clear_never_activated_subscription_pointer
clear-Untracked id db =
    exists-map-false (has_subscription id)
      (λ a. if has_subscription id a then clear_pointer a else a) db.accounts
      (λ a _. cleared_or_other id (has_subscription id a) clear_pointer a refl (λ e. e))

downgrade_account-Untracked :
    (id : String) (db : BillingState) (now : ℕ) (holder : Account)
    → HasOneHolder id db
    → Memᴰ holder db.accounts
    → has_subscription id holder ≡ true
    → Untracked id (downgrade_account db id holder.id now)
unfolding downgrade_account
downgrade_account-Untracked id db now holder one m h =
    exists-map-false (has_subscription id) _ db.accounts (λ a n.
      cleared_or_other id (same a.id holder.id && has_subscription id a) (set_plan _) a refl
        (λ other. elim (Bool-cases (has_subscription id a)) [
          | inr e ↦ e
          | inl e ↦
              let is_holder : same a.id holder.id ≡ true =
                (same_iff a.id holder.id).1 (one a holder n m e h).0 in
              absurd (not_both (same a.id holder.id) (has_subscription id a) is_holder e other)
        ]))
  where
    not_both : (x y : Bool) → x ≡ true → y ≡ true → (x && y) ≡ false → ⊥
    not_both x y p q r = ground (arith, p, q, r)

downgrade-Untracked :
    (id : String) (db : BillingState) (now : ℕ)
    → HasOneHolder id db
    → Untracked id
        (downgrade_expired_card_plan db (record { subscription_id = id; account_id = none }) now)
unfolding downgrade_expired_card_plan
downgrade-Untracked id db now one = elim (Option-cases (find (has_subscription id) db.accounts)) [
  | inl e ↦ rw (e, downgrade_expired_card_plan) (exists-find (has_subscription id) db.accounts e)
  | inr (a, e) ↦
      let m : Memᴰ a db.accounts = find-Memᴰ (has_subscription id) db.accounts a e in
      let h : has_subscription id a ≡ true = find-passes (has_subscription id) db.accounts a e in
      rw (e, (one a a m m h h).1, downgrade_expired_card_plan)
        (downgrade_account-Untracked id db now a one m h)
]

terminate-Untracked :
    (c : WebhookContext) (s : Subscription) (db : BillingState)
    → HasOneHolder s.id db
    → (terminate c s db).1 ≡ true
    → Untracked s.id (terminate c s db).0
unfolding terminate
terminate-Untracked c s db one returned =
    by_verdict (should_only_clear_subscription_pointer c.invoices s) returned
  where
    ended : SubscriptionMatch
    ended = record { subscription_id = s.id; account_id = none }

    outcome : Option Bool → Handled
    outcome o = elim o [
      | none ↦ (db, false)
      | some true ↦ (clear_never_activated_subscription_pointer db ended, true)
      | some false ↦ (downgrade_expired_card_plan db ended c.now, true)
    ]

    by_verdict : (o : Option Bool) → (outcome o).1 ≡ true → Untracked s.id (outcome o).0
    by_verdict none h = absurd (cc (h))
    by_verdict (some true) h = clear-Untracked s.id db
    by_verdict (some false) h = downgrade-Untracked s.id db c.now one

check-over :
    (c : WebhookContext) (s x : Subscription) (plan : Plan) (n : ℕ) (current : Account)
    (db : BillingState)
    → c.subscriptions s.id ≡ retrieved x
    → IsOver x
    → check_current c s plan n current db ≡ (db, true)
check-over c s x plan n current db answer over = rw (answer, over, check_current) refl

-- An active payload of a subscription that no account has and that Stripe has as ended.
late_activation :
    (c : WebhookContext) (s x : Subscription) (db : BillingState)
    → is_active_subscription_status s.status ≡ true
    → c.subscriptions s.id ≡ retrieved x
    → IsOver x
    → Untracked s.id db
    → apply_event c (updated s) db ≡ (db, true)
unfolding apply_event activate fallback
late_activation c s x db active_then answer over untracked = by_grant (granted c s)
  where
    Unchanged : Handled → Type 0
    Unchanged r = r ≡ (db, true)

    fell_back : (plan : Plan) (n : ℕ) → Unchanged (fallback c s plan n db)
    fell_back plan n =
        by_option Unchanged (non_empty s.metadata_account_id) _ _ (λ _. refl)
          λ account_id _.
            by_option Unchanged (find (λ a. same a.id account_id) db.accounts) _ _ (λ _. refl)
              (λ current _. check-over c s x plan n current db answer over)

    by_grant :
        (g : Option (Plan × ℕ))
        → Unchanged (elim g [
          | some (plan, new_expires_at) ↦ activate c s plan new_expires_at db
          | none ↦
              if is_never_activated_subscription_status s.status
                || is_dead_subscription_status s.status
              then terminate c s db
              else (db, true)
        ])
    by_grant none = rw (active_not_over s.status active_then) refl
    by_grant (some (plan, n)) = rw untracked (fell_back plan n)

-- Once the end of a subscription has been handled, an event that still shows it active changes
-- nothing, as long as Stripe answers that it has ended: the plan that ended does not come back, also
-- if events arrive out of order. At most one account has the subscription to begin with.
pub deleted-updated :
    (c later : WebhookContext) (s old x : Subscription) (db : BillingState)
    → HasOneHolder s.id db
    → (apply_event c (deleted s) db).1 ≡ true
    → old.id ≡ s.id
    → is_active_subscription_status old.status ≡ true
    → later.subscriptions old.id ≡ retrieved x
    → IsOver x
    → let after = (apply_event c (deleted s) db).0 in
      Untracked s.id after × (apply_event later (updated old) after ≡ (after, true))
unfolding apply_event
deleted-updated c later s old x db one returned same_id active_then answer over =
    let gone : Untracked s.id (terminate c s db).0 = terminate-Untracked c s db one returned in
    (
      gone,
      late_activation later old x (terminate c s db).0 active_then answer over
          (subst (λ (id : String). Untracked id (terminate c s db).0) (sym same_id) gone),
    )
