-- ===== src/Client/Uploader/GivenUp.antt =====
-- A part is given up only after an error.
use mathlib.Core.Path.{subst}
use anzdrop.Base.{
  by_test, by_option, ℕ, zero, suc, ◌-◌, true, false, ◌≡◌, ◌≢◌, refl, inl, inr, Option, none, some,
  List, [], ◌∷◌,
}
use anzdrop.Client.Download.{is_retryable}
use anzdrop.Client.Uploader.{
  Round, PartEnd, uploaded, returned, threw, is_ok, after_wait, proxy_round, proxy_rounds,
  upload_part_proxy, PutResponse, PutEnd, has_etag, put_returned, put_threw, normalize_etag,
  accept_etag, put_round, put_rounds, ack_round, ack_rounds, upload_part_direct, UploadError,
}
use anzdrop.Client.Uploader.Steps.{HasSeen}

-- If the end is `stopped`, there is an error.
abbrev AfterError : {B : Type 0} → Option UploadError → B → B → Type 0
AfterError error stopped end = end ≡ stopped → error ≢ none

module _ (error : Option UploadError) {A B : Type 0} where
  waited :
      (round : Round A) (stopped aborted rest : B)
      → aborted ≢ stopped
      → AfterError error stopped rest
      → AfterError error stopped (after_wait round aborted rest)
  waited round stopped aborted rest other h =
      by_test (AfterError error stopped) round.wait_aborted aborted rest (λ _ q. absurd (other q))
        (λ _. h)

threw-returned : threw ≢ returned
threw-returned q = cc (q)

uploaded-returned : uploaded ≢ returned
uploaded-returned q = cc (q)

put_threw-returned : put_threw ≢ put_returned
put_threw-returned q = cc (q)

accepted-returned : (etag : Option (List ℕ)) → accept_etag etag ≢ put_returned
accepted-returned none q = cc (q)
accepted-returned (some []) q = cc (q)
accepted-returned (some (c ∷ cs)) q = cc (q)

module _ (error : Option UploadError) where
  proxy_round-AfterError :
      (round : Round ℕ) (rest : Option PartEnd)
      → (round.stopped_before ≡ true → error ≢ none)
      → (round.stopped_after ≡ true → error ≢ none)
      → ((r : PartEnd) → rest ≡ some r → AfterError error returned r)
      → AfterError error returned (proxy_round round rest)
  proxy_round-AfterError round rest before after later =
      let P : PartEnd → Type 0 = AfterError error returned in
      by_test P round.stopped_before returned _ (λ b _. before b)
        (λ _.
          by_option P round.answer _ _
            (λ _.
              by_option P rest threw _ (λ _ q. absurd (threw-returned q))
                (λ r e.
                  by_test P round.stopped_after threw _ (λ _ q. absurd (threw-returned q))
                    (λ _. waited error round returned threw r threw-returned (later r e))))
            (λ status _.
              by_test P round.stopped_after returned _ (λ b _. after b)
                (λ _.
                  by_test P (is_ok status) uploaded _ (λ _ q. absurd (uploaded-returned q))
                    (λ _.
                      by_option P rest threw _ (λ _ q. absurd (threw-returned q))
                        (λ r e.
                          by_test P (is_retryable status) _ threw
                            (λ _. waited error round returned threw r threw-returned (later r e))
                            (λ _ q. absurd (threw-returned q)))))))

  ack_round-AfterError :
      (round : Round ℕ) (rest : Option PartEnd)
      → (round.stopped_before ≡ true → error ≢ none)
      → (round.stopped_after ≡ true → error ≢ none)
      → ((r : PartEnd) → rest ≡ some r → AfterError error returned r)
      → AfterError error returned (ack_round round rest)
  ack_round-AfterError round rest before after later =
      let P : PartEnd → Type 0 = AfterError error returned in
      by_test P round.stopped_before returned _ (λ b _. before b)
        (λ _.
          by_test P (elim round.answer [ none ↦ false | some status ↦ is_ok status ]) _ _
            (λ _.
              by_test P round.stopped_after returned uploaded (λ b _. after b)
                (λ _ q. absurd (uploaded-returned q)))
            (λ _.
              by_option P rest threw _ (λ _ q. absurd (threw-returned q))
                (λ r e.
                  by_test P round.stopped_after threw _ (λ _ q. absurd (threw-returned q))
                    (λ _. waited error round returned threw r threw-returned (later r e)))))

  put_round-AfterError :
      (round : Round PutResponse) (rest : Option PutEnd)
      → (round.stopped_before ≡ true → error ≢ none)
      → (round.stopped_after ≡ true → error ≢ none)
      → ((r : PutEnd) → rest ≡ some r → AfterError error put_returned r)
      → AfterError error put_returned (put_round round rest)
  put_round-AfterError round rest before after later =
      let P : PutEnd → Type 0 = AfterError error put_returned in
      by_test P round.stopped_before put_returned _ (λ b _. before b)
        (λ _.
          by_option P round.answer _ _
            (λ _.
              by_option P rest put_threw _ (λ _ q. absurd (put_threw-returned q))
                (λ r e.
                  by_test P round.stopped_after put_threw _ (λ _ q. absurd (put_threw-returned q))
                    (λ _.
                      waited error round put_returned put_threw r put_threw-returned (later r e))))
            (λ response _.
              by_test P round.stopped_after put_returned _ (λ b _. after b)
                (λ _.
                  by_test P (is_ok response.status) (accept_etag (normalize_etag response.etag)) _
                    (λ _ q. absurd (accepted-returned (normalize_etag response.etag) q))
                    (λ _.
                      by_option P rest put_threw _ (λ _ q. absurd (put_threw-returned q))
                        (λ r e.
                          by_test P (is_retryable response.status) _ put_threw
                            (λ _.
                              waited error round put_returned put_threw r put_threw-returned
                                (later r e))
                            (λ _ q. absurd (put_threw-returned q)))))))

  -- The loops, by the rule for their rounds.
  module _ {A B : Type 0} (stopped : B) (round : Round A → Option B → B)
      (rule : (r : Round A) (rest : Option B)
        → (r.stopped_before ≡ true → error ≢ none)
        → (r.stopped_after ≡ true → error ≢ none)
        → ((x : B) → rest ≡ some x → AfterError error stopped x)
        → AfterError error stopped (round r rest))
      (rounds : ℕ → Round A) (seen : HasSeen error rounds) where
    last-AfterError : (n : ℕ) → AfterError error stopped (round (rounds n) none)
    last-AfterError n =
        rule (rounds n) none (λ b. seen n (inl b)) (λ b. seen n (inr (inl b)))
          (λ r e. absurd (cc (e)))

    next-AfterError :
        (n : ℕ) (rest : B)
        → AfterError error stopped rest
        → AfterError error stopped (round (rounds n) (some rest))
    next-AfterError n rest h =
        rule (rounds n) (some rest) (λ b. seen n (inl b)) (λ b. seen n (inr (inl b)))
          (λ r e. subst (AfterError error stopped) (same_rest r e) h)
      where
        same_rest : (r : B) → some rest ≡ some r → rest ≡ r
        same_rest r e = cc (e)

  proxy_rounds-AfterError :
      (rounds : ℕ → Round ℕ)
      → HasSeen error rounds
      → (left n : ℕ) → AfterError error returned (proxy_rounds rounds n left)
  unfolding proxy_rounds
  proxy_rounds-AfterError rounds seen zero n =
      last-AfterError returned (λ r rest. proxy_round r rest) proxy_round-AfterError rounds seen n
  proxy_rounds-AfterError rounds seen (suc left) n =
      next-AfterError returned (λ r rest. proxy_round r rest) proxy_round-AfterError rounds seen n _
        (proxy_rounds-AfterError rounds seen left (suc n))

  ack_rounds-AfterError :
      (rounds : ℕ → Round ℕ)
      → HasSeen error rounds
      → (left n : ℕ) → AfterError error returned (ack_rounds rounds n left)
  unfolding ack_rounds
  ack_rounds-AfterError rounds seen zero n =
      last-AfterError returned (λ r rest. ack_round r rest) ack_round-AfterError rounds seen n
  ack_rounds-AfterError rounds seen (suc left) n =
      next-AfterError returned (λ r rest. ack_round r rest) ack_round-AfterError rounds seen n _
        (ack_rounds-AfterError rounds seen left (suc n))

  put_rounds-AfterError :
      (rounds : ℕ → Round PutResponse)
      → HasSeen error rounds
      → (left n : ℕ) → AfterError error put_returned (put_rounds rounds n left)
  unfolding put_rounds
  put_rounds-AfterError rounds seen zero n =
      last-AfterError put_returned (λ r rest. put_round r rest) put_round-AfterError rounds seen n
  put_rounds-AfterError rounds seen (suc left) n =
      next-AfterError put_returned (λ r rest. put_round r rest) put_round-AfterError rounds seen n _
        (put_rounds-AfterError rounds seen left (suc n))

  pub proxy_given_up :
      (max_attempts : ℕ) (rounds : ℕ → Round ℕ)
      → HasSeen error rounds
      → upload_part_proxy max_attempts rounds ≡ returned
      → error ≢ none
  unfolding upload_part_proxy
  proxy_given_up max_attempts rounds seen = proxy_rounds-AfterError rounds seen (max_attempts - 1) 1

  pub direct_given_up :
      (max_attempts : ℕ) (puts : ℕ → Round PutResponse) (acks : List ℕ → ℕ → Round ℕ)
      → HasSeen error puts
      → ((etag : List ℕ) → HasSeen error (acks etag))
      → upload_part_direct max_attempts puts acks ≡ returned
      → error ≢ none
  unfolding upload_part_direct
  direct_given_up max_attempts puts acks seen_puts seen_acks =
      from_put (put_rounds puts 1 (max_attempts - 1))
        (put_rounds-AfterError puts seen_puts (max_attempts - 1) 1)
    where
      from_put :
          (end : PutEnd)
          → AfterError error put_returned end
          → AfterError error returned (elim end [
            | has_etag etag ↦ ack_rounds (acks etag) 1 (max_attempts - 1)
            | put_returned ↦ returned
            | put_threw ↦ threw
          ])
      from_put (has_etag etag) h q =
          ack_rounds-AfterError (acks etag) (seen_acks etag) (max_attempts - 1) 1 q
      from_put put_returned h q = h refl
      from_put put_threw h q = absurd (threw-returned q)
