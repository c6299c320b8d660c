-- ===== src/Client/Download/Retried.antt =====
-- Which attempt decides a request.
use mathlib.Core.Path.{subst}
use anzdrop.Base.{
  sym, by_test, ℕ, zero, suc, ◌+◌, ◌-◌, ◌≤◌, ◌<◌, true, ◌≡◌, refl, none, some, ◌==◌, arith,
  Bool-cases, inl, inr,
}
use anzdrop.Client.Windows.{friendly}
use anzdrop.Client.Download.{
  max_request_attempts, is_retryable, Attempt, responded, network_error, attempt_aborted, Fetched,
  got, fetch_failed, fetch_aborted, after_attempt, attempt_rounds, fetch_range_with_retry,
}

-- An attempt after which the request is made again, if it may be.
abbrev pub IsRetried : Attempt → Type 0
IsRetried attempt_aborted = ⊥
IsRetried network_error = Unit {0}
IsRetried (responded r) = is_retryable r.status ≡ true

-- The attempt with number `k` is the first after which the request is not made again.
pub record Decides (answers : ℕ → Attempt) (first last k : ℕ) : Type 0 where
  pub not_before : first ≤ k
  pub not_after : k ≤ last
  pub retried : (j : ℕ) → first ≤ j → j < k → IsRetried (answers j)

-- By how the request ends, the attempt that decides it and what that one brought.
abbrev pub Outcome : (ℕ → Attempt) → (first last : ℕ) → Fetched → Type 0
Outcome answers first last (got r) =
    (k : ℕ) × Decides answers first last k
    × (answers k ≡ responded r)
    × (is_retryable r.status ≡ true → k ≡ last)
Outcome answers first last (fetch_failed e) =
    (e ≡ friendly) × Decides answers first last last × (answers last ≡ network_error)
Outcome answers first last fetch_aborted =
    (k : ℕ) × Decides answers first last k × (answers k ≡ attempt_aborted)

at_once : (answers : ℕ → Attempt) (first last : ℕ) → first ≤ last → Decides answers first last first
at_once answers first last le = record {
  not_before = omega arith;
  not_after = le;
  retried = λ j le lt. absurd (omega arith);
}

one_later :
    (answers : ℕ → Attempt) (first last k : ℕ)
    → IsRetried (answers first)
    → Decides answers (suc first) last k
    → Decides answers first last k
one_later answers first last k h d = record {
  not_before = omega (arith, d.not_before);
  not_after = d.not_after;
  retried = λ j le lt. elim (Bool-cases (j == first)) [
    | inl e ↦
        let same_attempt : first ≡ j = ground (arith, e) in
        subst (λ (n : ℕ). IsRetried (answers n)) same_attempt h
    | inr e ↦ d.retried j (ground (arith, le, e)) lt
  ];
}

outcome-later :
    (answers : ℕ → Attempt) (first last : ℕ) (r : Fetched)
    → IsRetried (answers first)
    → Outcome answers (suc first) last r
    → Outcome answers first last r
outcome-later answers first last (got r) h (k, d, e, at_last) =
    (k, one_later answers first last k h d, e, at_last)
outcome-later answers first last (fetch_failed x) h (f, d, e) =
    (f, one_later answers first last last h d, e)
outcome-later answers first last fetch_aborted h (k, d, e) =
    (k, one_later answers first last k h d, e)

last_attempt :
    (answers : ℕ → Attempt) (first : ℕ) (x : Attempt)
    → answers first ≡ x
    → Outcome answers first first (after_attempt x none)
last_attempt answers first attempt_aborted e = (first, at_once answers first first (omega arith), e)
last_attempt answers first network_error e = (refl, at_once answers first first (omega arith), e)
last_attempt answers first (responded r) e =
    (first, at_once answers first first (omega arith), e, λ _. refl)

earlier_attempt :
    (answers : ℕ → Attempt) (first last : ℕ) (next : Fetched) (x : Attempt)
    → answers first ≡ x
    → first < last
    → Outcome answers (suc first) last next
    → Outcome answers first last (after_attempt x (some next))
earlier_attempt answers first last next attempt_aborted e lt h =
    (first, at_once answers first last (omega arith), e)
earlier_attempt answers first last next network_error e lt h =
    outcome-later answers first last next (subst IsRetried (sym e) tt) h
earlier_attempt answers first last next (responded r) e lt h =
    by_test (Outcome answers first last) (is_retryable r.status) next (got r)
      (λ again. outcome-later answers first last next (subst IsRetried (sym e) again) h)
      (λ final.
        (first, at_once answers first last (omega arith), e, λ again. absurd (cc (again, final))))

rounds-Outcome :
    (answers : ℕ → Attempt) (left attempt last : ℕ)
    → attempt + left ≡ last
    → Outcome answers attempt last (attempt_rounds answers attempt left)
unfolding attempt_rounds
rounds-Outcome answers zero attempt last e =
    subst (λ (n : ℕ). Outcome answers attempt n (after_attempt (answers attempt) none))
      (same_end attempt last e) (last_attempt answers attempt (answers attempt) refl)
  where
    same_end : (m n : ℕ) → m + 0 ≡ n → m ≡ n
    same_end m n p = omega arith
rounds-Outcome answers (suc left) attempt last e =
    earlier_attempt answers attempt last (attempt_rounds answers (suc attempt) left)
      (answers attempt) refl (omega (arith, e))
      (rounds-Outcome answers left (suc attempt) last (omega (arith, e)))

-- A request is made at most four times, and again only after an error of the network or a status that is worth it. A
-- response that is given back is the first that is not worth another attempt, or the fourth; the request
-- fails only if the fourth attempt meets an error of the network, and is aborted only if an attempt is.
pub fetch_range_with_retry_lem :
    (answers : ℕ → Attempt)
    → Outcome answers 1 max_request_attempts (fetch_range_with_retry answers)
unfolding fetch_range_with_retry
fetch_range_with_retry_lem answers =
    rounds-Outcome answers (max_request_attempts - 1) 1 max_request_attempts (omega arith)
