-- ===== src/Billing/CardPlan/Payments.antt =====
-- The plan and the expiry that the live prepayments pay for.
use anzdrop.Base.{
  ℕ, ◌≤◌, ◌≡◌, refl, ◌⊎◌, inl, inr, String, Bool, true, false, some, List, [], ◌∷◌, keep, exists,
  ltb, arith, Bool-cases, Option-cases, All, ltb→lt, keep-true, keep-false,
}
use anzdrop.Plan.Limits.{Plan, free, standard, premium, normalize_stored_plan, plan_rank}
use anzdrop.Plan.Account.{effective_plan}
use anzdrop.Billing.CardPlan.{BtcPayment, is_live, next_with, next_from}

-- A payment is covered by a plan and an expiry: neither is below what it paid for.
pub Covered : Plan × ℕ → BtcPayment → Type 0
Covered next p =
    (plan_rank (normalize_stored_plan p.plan) ≤ plan_rank next.0)
    × ((t : ℕ) → p.extends_plan_until ≡ some t → t ≤ next.1)

-- Where an expiry comes from: it is `start`, or a payment of the list reaches to it.
Attained : ℕ → List BtcPayment → ℕ → Type 0
Attained start [] expiry = expiry ≡ start
Attained start (p ∷ ps) expiry = (p.extends_plan_until ≡ some expiry) ⊎ Attained start ps expiry

Attained-start : (start : ℕ) (ps : List BtcPayment) → Attained start ps start
unfolding Attained
Attained-start start [] = refl
Attained-start start (p ∷ ps) = inr (Attained-start start ps)

next_with-until :
    (p : BtcPayment) (next : Plan × ℕ)
    → ((next_with p next).1 ≡ next.1) ⊎ (p.extends_plan_until ≡ some (next_with p next).1)
unfolding next_with
next_with-until p (plan, expiry) = elim (Option-cases p.extends_plan_until) [
  | inl e ↦ inl (ground (arith, e))
  | inr (t, e) ↦ elim (Bool-cases (ltb expiry t)) [
    | inl h ↦ inr (rw (e, h) refl)
    | inr h ↦ inl (rw (e, h) refl)
  ]
]

Attained-any :
    (start : ℕ) (ps : List BtcPayment) (expiry : ℕ)
    → Attained start ps expiry
    → (expiry ≡ start) ⊎ ((other : ℕ) → Attained other ps expiry)
unfolding Attained
Attained-any start [] expiry h = inl h
Attained-any start (p ∷ ps) expiry (inl h) = inr (λ other. inl h)
Attained-any start (p ∷ ps) expiry (inr h) = elim (Attained-any start ps expiry h) [
  | inl e ↦ inl e
  | inr f ↦ inr (λ other. inr (f other))
]

Attained-step :
    (start from : ℕ) (p : BtcPayment) (ps : List BtcPayment) (expiry : ℕ)
    → (from ≡ start) ⊎ (p.extends_plan_until ≡ some from)
    → Attained from ps expiry
    → (p.extends_plan_until ≡ some expiry) ⊎ Attained start ps expiry
Attained-step start from p ps expiry (inl e) h = inr (rw (← e) h)
Attained-step start from p ps expiry (inr e) h = elim (Attained-any from ps expiry h) [
  | inl same_time ↦ inl (rw same_time e)
  | inr f ↦ inr (f start)
]

next_from-Attained :
    (ps : List BtcPayment) (next : Plan × ℕ) → Attained next.1 ps (next_from ps next).1
unfolding Attained next_from
next_from-Attained [] next = refl
next_from-Attained (p ∷ ps) next =
    let from = next_with p next in
    Attained-step next.1 from.1 p ps (next_from ps from).1 (next_with-until p next)
      (next_from-Attained ps from)

-- The plan and the expiry only grow along the payments.
next_with-grows :
    (p : BtcPayment) (next : Plan × ℕ)
    → (plan_rank next.0 ≤ plan_rank (next_with p next).0)
      × (next.1 ≤ (next_with p next).1)
      × Covered (next_with p next) p
unfolding next_with Covered
next_with-grows p (plan, expiry) = (
  elim (Bool-cases (ltb (plan_rank plan) (plan_rank (normalize_stored_plan p.plan)))) [
    | inl h ↦
        rw h (omega (arith, ltb→lt (plan_rank plan) (plan_rank (normalize_stored_plan p.plan)) h))
    | inr h ↦ rw h (omega arith)
  ],
  ground arith,
  (
    elim (Bool-cases (ltb (plan_rank plan) (plan_rank (normalize_stored_plan p.plan)))) [
      | inl h ↦ rw h (omega arith)
      | inr h ↦ rw h (ground (arith, h))
    ],
    λ t e. rw e (ground arith),
  ),
)

next_from-grows :
    (ps : List BtcPayment) (next : Plan × ℕ)
    → (plan_rank next.0 ≤ plan_rank (next_from ps next).0) × (next.1 ≤ (next_from ps next).1)
unfolding next_from
next_from-grows [] next = (omega arith, omega arith)
next_from-grows (p ∷ ps) next =
    let (r, t, c) = next_with-grows p next in
    let (rs, ts) = next_from-grows ps (next_with p next) in (omega arith, omega arith)

next_from-Covered : (ps : List BtcPayment) (next : Plan × ℕ) → All (Covered (next_from ps next)) ps
unfolding next_from Covered
next_from-Covered [] next = tt
next_from-Covered (p ∷ ps) next =
    let (r, t, c) = next_with-grows p next in
    let (rs, ts) = next_from-grows ps (next_with p next) in
    ((omega (arith, c.0), λ u e. omega (arith, c.1 u e)), next_from-Covered ps (next_with p next))

-- A plan that has ended is free.
effective_plan-ended : (now t : ℕ) (plan : Plan) → t ≤ now → effective_plan now plan (some t) ≡ free
unfolding effective_plan
effective_plan-ended now t free h = refl
effective_plan-ended now t standard h = ground arith
effective_plan-ended now t premium h = ground arith

live_until :
    (id : String) (now later : ℕ) (p : BtcPayment) (t : ℕ)
    → is_live id now p ≡ true
    → is_live id later p ≡ false
    → p.extends_plan_until ≡ some t
    → t ≤ later
unfolding is_live
live_until id now later p t live ended e = ground arith

exists_rest :
    (q : BtcPayment → Bool) (p : BtcPayment) (ps : List BtcPayment)
    → exists q (p ∷ ps) ≡ false
    → (q p ≡ false) × (exists q ps ≡ false)
exists_rest q p ps h = (ground (arith, h), ground (arith, h))

-- With no payment that is live later, no expiry that the live payments of now reach is later.
ended_by :
    (id : String) (now later : ℕ) (ps : List BtcPayment) (expiry : ℕ)
    → now ≤ later
    → exists (is_live id later) ps ≡ false
    → Attained now (keep (is_live id now) ps) expiry
    → expiry ≤ later
unfolding Attained
ended_by id now later [] expiry h none_live a = omega (arith, a)
ended_by id now later (p ∷ ps) expiry h none_live a =
    let (ended, rest) = exists_rest (is_live id later) p ps none_live in
    elim (Bool-cases (is_live id now p)) [
      | inl live ↦
          let found : (p.extends_plan_until ≡ some expiry)
              ⊎ Attained now (keep (is_live id now) ps) expiry =
            rw (keep-true (is_live id now) p ps live) at a in
          elim found [
            | inl e ↦ live_until id now later p expiry live ended e
            | inr more ↦ ended_by id now later ps expiry h rest more
          ]
      | inr idle ↦
          let more : Attained now (keep (is_live id now) ps) expiry =
            rw (keep-false (is_live id now) p ps idle) at a in
          ended_by id now later ps expiry h rest more
    ]

-- The plan and the expiry that an ended card subscription leaves: every prepayment that is still
-- live is covered by both, and once no prepayment is live the plan is no longer effective.
pub next_from_lem :
    (payments : List BtcPayment) (account_id : String) (now : ℕ)
    → let next = next_from (keep (is_live account_id now) payments) (free, now) in
      All (Covered next) (keep (is_live account_id now) payments)
      × ((later : ℕ)
          → now ≤ later
          → exists (is_live account_id later) payments ≡ false
          → effective_plan later next.0 (some next.1) ≡ free)
next_from_lem payments account_id now =
    let live = keep (is_live account_id now) payments in
    let next : Plan × ℕ = next_from live (free, now) in
    (
      next_from-Covered live (free, now),
      λ later h ended. effective_plan-ended later next.1 next.0 (
          ended_by account_id now later payments next.1 h ended
            (next_from-Attained live (free, now))),
    )
