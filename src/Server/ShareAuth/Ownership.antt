-- ===== src/Server/ShareAuth/Ownership.antt =====
-- Who passes for the owner of a share.
use anzdrop.Base.{
  ℕ, ◌<◌, ◌≡◌, refl, String, true, false, Option, none, some, List, leb, truthy, arith,
  if◌then◌else◌, by_test, by_option,
}
use anzdrop.Auth.TimingSafeEqual.{token_matches, token_matches_iff}
use anzdrop.Server.State.{Share, Reply, refused, answered}
use anzdrop.Server.ShareAuth.{
  ShareOwnership, find_share, is_set, check_ownership, verify_share_ownership,
}

-- The share is there, is open, and its token is the one given.
pub record Owns (now : ℕ) (shares : List Share) (id : String) (given : Option String) : Type 0 where
  pub share : Share
  pub found : find_share id shares ≡ some share
  pub token : String
  pub provided : given ≡ some token
  pub stored : share.upload_token ≡ some token
  pub filled : truthy token ≡ true
  pub not_expired : now < share.expires_at
  pub not_suspended : is_set share.suspended_at ≡ false

unfoldable pub Verdict : ℕ → List Share → String → Option String → Reply ShareOwnership → Type 0
Verdict now shares id given (refused status) = Owns now shares id given → ⊥
Verdict now shares id given (answered ownership) =
    (o : Owns now shares id given) × (ownership.expires_at ≡ o.share.expires_at)

-- Ownership is granted, with the share's own expiry, to whoever gives the token of a share that
-- exists, has not expired and is not suspended, and is refused to everyone else.
pub verify_share_ownership_lem :
    (now : ℕ) (shares : List Share) (id : String) (given : Option String)
    → Verdict now shares id given (verify_share_ownership now shares id given)
unfolding verify_share_ownership Verdict
verify_share_ownership_lem now shares id none = λ o. absurd (ground (arith, o.provided))
verify_share_ownership_lem now shares id (some t) =
    by_test P (truthy t)
      (elim (find_share id shares) [
        | none ↦ refused 404
        | some share ↦ check_ownership now t share
      ])
      (refused 400)
      (λ full.
        by_option P (find_share id shares) (refused 404) (check_ownership now t)
          (λ e o. absurd (ground (arith, e, o.found)))
          (λ share found.
            by_test P (token_matches share.upload_token t)
              (if leb share.expires_at now
                then refused 410
                else if is_set share.suspended_at
                then refused 403
                else granted share)
              (refused 403)
              (λ matched.
                by_test P (leb share.expires_at now) (refused 410)
                  (if is_set share.suspended_at then refused 403 else granted share)
                  (λ late o.
                    let e = same_share share found o in
                    let x : now < share.expires_at = rw (← e) o.not_expired in
                    absurd (ground (arith, x, late)))
                  (λ early.
                    by_test P (is_set share.suspended_at) (refused 403) (granted share)
                      (λ suspended o.
                        let e = same_share share found o in
                        let x : is_set share.suspended_at ≡ false = rw (← e) o.not_suspended in
                        absurd (ground (arith, x, suspended)))
                      (λ free. (
                        record {
                          share = share;
                          found = found;
                          token = t;
                          provided = refl;
                          stored = ((token_matches_iff share.upload_token t).0 matched).0;
                          filled = full;
                          not_expired = ground (arith, early);
                          not_suspended = free;
                        },
                        refl,
                      ))))
              (λ unmatched o.
                let e = same_share share found o in
                let u : o.token ≡ t = ground (arith, o.provided) in
                let x : share.upload_token ≡ some t = rw (← e, ← u) o.stored in
                let f : truthy t ≡ true = full in
                let m = (token_matches_iff share.upload_token t).1 (x, f) in
                absurd (ground (arith, m, unmatched)))))
      (λ empty o.
        let u : o.token ≡ t = ground (arith, o.provided) in
        let f : truthy t ≡ true = rw (← u) o.filled in absurd (ground (arith, f, empty)))
  where
    P : Reply ShareOwnership → Type 0
    P = Verdict now shares id (some t)

    granted : Share → Reply ShareOwnership
    granted share =
        answered (record { created_at = share.created_at; expires_at = share.expires_at })

    same_share :
        (share : Share)
        → find_share id shares ≡ some share
        → (o : Owns now shares id (some t)) → o.share ≡ share
    same_share share found o = ground (arith, found, o.found)
