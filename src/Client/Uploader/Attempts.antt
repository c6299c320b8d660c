-- ===== src/Client/Uploader/Attempts.antt =====
-- What a part that is reported as sent has met.
use mathlib.Core.Path.{subst}
use anzdrop.Base.{
  by_test, by_option, ℕ, zero, suc, ◌+◌, ◌-◌, ◌<◌, ◌≤◌, true, false, ◌≡◌, ◌≢◌, ◌⊎◌, inl, inr, refl,
  Option, none, some, List, [], ◌∷◌, arith,
}
use anzdrop.Client.Download.{is_retryable}
use anzdrop.Client.Uploader.{
  Round, PartEnd, uploaded, returned, threw, is_ok, after_wait, proxy_round, proxy_rounds,
  upload_part_proxy, PutResponse, PutEnd, has_etag, put_returned, put_threw, normalize_etag,
  accept_etag, put_round, put_rounds, ack_round, ack_rounds, upload_part_direct,
}

-- One of the rounds from the first to the last has an answer with a property.
abbrev pub Meets : {A : Type 0} → (ℕ → Round A) → (A → Type 0) → (first last : ℕ) → Type 0
Meets {A} rounds Good first last =
    (k : ℕ) × (answer : A) × (first ≤ k)
    × (k ≤ last)
    × ((rounds k).answer ≡ some answer)
    × Good answer

abbrev pub IsOk : ℕ → Type 0
IsOk status = is_ok status ≡ true

-- A round ends the loop by an end that is wanted, or the loop's rest does.
abbrev Ends : {A B : Type 0} → (B → Type 0) → (A → Type 0) → Option A → Option B → B → Type 0
Ends {A} {B} Wanted Good answer rest end =
    Wanted end → ((a : A) × (answer ≡ some a) × Good a) ⊎ ((r : B) × (rest ≡ some r) × Wanted r)

waited-Ends :
    {A B : Type 0} (Wanted : B → Type 0) (Good : A → Type 0) (round : Round A) (aborted r : B)
    (rest : Option B)
    → rest ≡ some r
    → (Wanted aborted → ⊥)
    → Ends Wanted Good round.answer rest (after_wait round aborted r)
waited-Ends Wanted Good round aborted r rest e unwanted =
    by_test (Ends Wanted Good round.answer rest) round.wait_aborted aborted r
      (λ _ q. absurd (unwanted q)) (λ _ q. inr (r, e, q))

abbrev IsUploaded : PartEnd → Type 0
IsUploaded end = end ≡ uploaded

not_returned : IsUploaded returned → ⊥
not_returned q = cc (q)

not_threw : IsUploaded threw → ⊥
not_threw q = cc (q)

proxy_round-Ends :
    (round : Round ℕ) (rest : Option PartEnd)
    → Ends IsUploaded IsOk round.answer rest (proxy_round round rest)
proxy_round-Ends round rest =
    let E : PartEnd → Type 0 = Ends IsUploaded IsOk round.answer rest in
    by_test E round.stopped_before returned _ (λ _ q. absurd (not_returned q))
      (λ _.
        by_option E round.answer _ _
          (λ _.
            by_option E rest threw _ (λ _ q. absurd (not_threw q))
              (λ r left.
                by_test E round.stopped_after threw _ (λ _ q. absurd (not_threw q))
                  (λ _. waited-Ends IsUploaded IsOk round threw r rest left not_threw)))
          (λ status answered.
            by_test E round.stopped_after returned _ (λ _ q. absurd (not_returned q))
              (λ _.
                by_test E (is_ok status) uploaded _ (λ ok _. inl (status, answered, ok))
                  (λ _.
                    by_option E rest threw _ (λ _ q. absurd (not_threw q))
                      (λ r left.
                        by_test E (is_retryable status) _ threw
                          (λ _. waited-Ends IsUploaded IsOk round threw r rest left not_threw)
                          (λ _ q. absurd (not_threw q)))))))

module _ {A B : Type 0} (Wanted : B → Type 0) (Good : A → Type 0) (round : Round A → Option B → B)
    (ends : (r : Round A) (rest : Option B) → Ends Wanted Good r.answer rest (round r rest))
    (rounds : ℕ → Round A) (loop : (attempt left : ℕ) → B)
    (at_last : (n : ℕ) → loop n zero ≡ round (rounds n) none)
    (before_last : (n left : ℕ)
      → loop n (suc left) ≡ round (rounds n) (some (loop (suc n) left))) where
  loop-Meets :
      (left attempt : ℕ) → Wanted (loop attempt left) → Meets rounds Good attempt (attempt + left)
  loop-Meets zero attempt h = elim (ends (rounds attempt) none (subst Wanted (at_last attempt) h)) [
    | inl (a, answered, good) ↦ (attempt, a, omega arith, omega arith, answered, good)
    | inr (r, e, q) ↦ absurd (cc (e))
  ]
  loop-Meets (suc left) attempt h =
      elim (ends (rounds attempt) (some (loop (suc attempt) left))
        (subst Wanted (before_last attempt left) h)) [
          | inl (a, answered, good) ↦ (attempt, a, omega arith, omega arith, answered, good)
          | inr (r, e, q) ↦
              let same_rest : r ≡ loop (suc attempt) left = cc (e) in
              let (k, a, low, high, answered, good) =
                loop-Meets left (suc attempt) (subst Wanted same_rest q) in
              (k, a, omega (arith, low), omega (arith, high), answered, good)
        ]

proxy_rounds-Meets :
    (rounds : ℕ → Round ℕ) (left attempt : ℕ)
    → proxy_rounds rounds attempt left ≡ uploaded
    → Meets rounds IsOk attempt (attempt + left)
unfolding proxy_rounds
proxy_rounds-Meets rounds =
    loop-Meets IsUploaded IsOk (λ round rest. proxy_round round rest) proxy_round-Ends rounds
      (λ n left. proxy_rounds rounds n left) (λ n. refl) (λ n left. refl)

ack_round-Ends :
    (round : Round ℕ) (rest : Option PartEnd)
    → Ends IsUploaded IsOk round.answer rest (ack_round round rest)
ack_round-Ends round rest =
    let E : PartEnd → Type 0 = Ends IsUploaded IsOk round.answer rest in
    by_test E round.stopped_before returned _ (λ _ q. absurd (not_returned q))
      (λ _.
        by_test E (elim round.answer [ none ↦ false | some status ↦ is_ok status ]) _ _
          (λ ok.
            by_test E round.stopped_after returned uploaded (λ _ q. absurd (not_returned q))
              (λ _ _. inl (acked round.answer ok)))
          (λ _.
            by_option E rest threw _ (λ _ q. absurd (not_threw q))
              (λ r left.
                by_test E round.stopped_after threw _ (λ _ q. absurd (not_threw q))
                  (λ _. waited-Ends IsUploaded IsOk round threw r rest left not_threw))))
  where
    acked :
        (answer : Option ℕ)
        → elim answer [ none ↦ false | some status ↦ is_ok status ] ≡ true
        → (status : ℕ) × (answer ≡ some status) × IsOk status
    acked none h = absurd (cc (h))
    acked (some status) h = (status, refl, h)

ack_rounds-Meets :
    (rounds : ℕ → Round ℕ) (left attempt : ℕ)
    → ack_rounds rounds attempt left ≡ uploaded
    → Meets rounds IsOk attempt (attempt + left)
unfolding ack_rounds
ack_rounds-Meets rounds =
    loop-Meets IsUploaded IsOk (λ round rest. ack_round round rest) ack_round-Ends rounds
      (λ n left. ack_rounds rounds n left) (λ n. refl) (λ n left. refl)

-- A PUT that succeeded and named an ETag, which is not empty once it has no quotes.
abbrev pub Named : List ℕ → PutResponse → Type 0
Named etag r = (is_ok r.status ≡ true) × (normalize_etag r.etag ≡ some etag) × (etag ≢ [])

accepted :
    (answer : Option (List ℕ)) (etag : List ℕ)
    → accept_etag answer ≡ has_etag etag
    → (answer ≡ some etag) × (etag ≢ [])
accepted none etag h = absurd (cc (h))
accepted (some []) etag h = absurd (cc (h))
accepted (some (c ∷ cs)) etag h = (cc (h), λ q. absurd (cc (h, q)))

put_round-Ends :
    (etag : List ℕ) (round : Round PutResponse) (rest : Option PutEnd)
    → Ends (λ (e : PutEnd). e ≡ has_etag etag) (Named etag) round.answer rest (put_round round rest)
put_round-Ends etag round rest =
    let W : PutEnd → Type 0 = λ e. e ≡ has_etag etag in
    let E : PutEnd → Type 0 = Ends W (Named etag) round.answer rest in
    let stopped : W put_returned → ⊥ = λ q. cc (q) in
    let failed : W put_threw → ⊥ = λ q. cc (q) in
    by_test E round.stopped_before put_returned _ (λ _ q. absurd (stopped q))
      (λ _.
        by_option E round.answer _ _
          (λ _.
            by_option E rest put_threw _ (λ _ q. absurd (failed q))
              (λ r left.
                by_test E round.stopped_after put_threw _ (λ _ q. absurd (failed q))
                  (λ _. waited-Ends W (Named etag) round put_threw r rest left failed)))
          (λ response answered.
            by_test E round.stopped_after put_returned _ (λ _ q. absurd (stopped q))
              (λ _.
                by_test E (is_ok response.status) (accept_etag (normalize_etag response.etag)) _
                  (λ ok q. inl (response, answered, named response ok q))
                  (λ _.
                    by_option E rest put_threw _ (λ _ q. absurd (failed q))
                      (λ r left.
                        by_test E (is_retryable response.status) _ put_threw
                          (λ _. waited-Ends W (Named etag) round put_threw r rest left failed)
                          (λ _ q. absurd (failed q)))))))
  where
    named :
        (r : PutResponse)
        → is_ok r.status ≡ true
        → accept_etag (normalize_etag r.etag) ≡ has_etag etag
        → Named etag r
    named r ok q = let (e, ne) = accepted (normalize_etag r.etag) etag q in (ok, e, ne)

put_rounds-Meets :
    (etag : List ℕ) (rounds : ℕ → Round PutResponse) (left attempt : ℕ)
    → put_rounds rounds attempt left ≡ has_etag etag
    → Meets rounds (Named etag) attempt (attempt + left)
unfolding put_rounds
put_rounds-Meets etag rounds =
    loop-Meets (λ (e : PutEnd). e ≡ has_etag etag) (Named etag) (λ round rest. put_round round rest)
      (put_round-Ends etag) rounds (λ n left. put_rounds rounds n left) (λ n. refl) (λ n left. refl)

-- A part that is sent through the Worker has been answered with a success.
pub upload_part_proxy_lem :
    (max_attempts : ℕ) (rounds : ℕ → Round ℕ)
    → 0 < max_attempts
    → upload_part_proxy max_attempts rounds ≡ uploaded
    → Meets rounds IsOk 1 max_attempts
unfolding upload_part_proxy
upload_part_proxy_lem max_attempts rounds h q =
    let all_rounds : 1 + (max_attempts - 1) ≡ max_attempts = omega arith in
    subst (λ (n : ℕ). Meets rounds IsOk 1 n) all_rounds
      (proxy_rounds-Meets rounds (max_attempts - 1) 1 q)

-- A part that is reported as sent to R2 directly has had, each within the number of attempts, a PUT with
-- a success and an ETag that is not empty without its quotes, and an acknowledgement of that
-- ETag with a success.
pub upload_part_direct_lem :
    (max_attempts : ℕ) (puts : ℕ → Round PutResponse) (acks : List ℕ → ℕ → Round ℕ)
    → 0 < max_attempts
    → upload_part_direct max_attempts puts acks ≡ uploaded
    → (etag : List ℕ) × Meets puts (Named etag) 1 max_attempts
      × Meets (acks etag) IsOk 1 max_attempts
unfolding upload_part_direct
upload_part_direct_lem max_attempts puts acks h =
    from_put (put_rounds puts 1 (max_attempts - 1)) refl
  where
    all_rounds : 1 + (max_attempts - 1) ≡ max_attempts
    all_rounds = omega arith

    from_put :
        (end : PutEnd)
        → put_rounds puts 1 (max_attempts - 1) ≡ end
        → elim end [
          | has_etag etag ↦ ack_rounds (acks etag) 1 (max_attempts - 1)
          | put_returned ↦ returned
          | put_threw ↦ threw
        ]
          ≡ uploaded
        → (etag : List ℕ) × Meets puts (Named etag) 1 max_attempts
          × Meets (acks etag) IsOk 1 max_attempts
    from_put (has_etag etag) p q = (
      etag,
      subst (λ (n : ℕ). Meets puts (Named etag) 1 n) all_rounds
          (put_rounds-Meets etag puts (max_attempts - 1) 1 p),
      subst (λ (n : ℕ). Meets (acks etag) IsOk 1 n) all_rounds
          (ack_rounds-Meets (acks etag) (max_attempts - 1) 1 q),
    )
    from_put put_returned p q = absurd (cc (q))
    from_put put_threw p q = absurd (cc (q))
