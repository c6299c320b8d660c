-- ===== src/Server/Upload/Start/Chosen.antt =====
-- The share that an upload goes to.
use anzdrop.Base.{
  ℕ, ◌+◌, ◌*◌, ◌<◌, ◌≡◌, refl, sym, ◌⊎◌, inl, inr, String, true, false, not, ◌&&◌, none, some, ◌∷◌,
  find-head, same, same_self, truthy, if◌then◌else◌, arith, by_test, by_option,
}
use anzdrop.Plan.Retention.{calculate_expires_at, day_ms}
use anzdrop.Plan.Limits.{
  is_retention_allowed_for_plan, is_turnstile_required_for_plan, is_preview_allowed_for_plan,
}
use anzdrop.Plan.Limits.Laws.{allowed_retention_expiry}
use anzdrop.Server.State.{Share, Server, Reply, refused, answered, insert_share}
use anzdrop.Server.ShareAuth.{find_share, is_set, ShareOwnership, verify_share_ownership}
use anzdrop.Server.ShareAuth.Ownership.{Owns, Verdict, verify_share_ownership_lem}
use anzdrop.Server.Upload.Start.{
  StartContext, UploadStartRequest, Target, join_share, create_share, choose_share,
}

-- The share that an answer names, in the state after it: its token and expiry are the answer's,
-- and it is open.
pub record IsOpen (now : ℕ) (share : Share) (token : String) (expires_at : ℕ) : Type 0 where
  pub stored : share.upload_token ≡ some token
  pub expires : share.expires_at ≡ expires_at
  pub not_expired : now < share.expires_at
  pub not_suspended : is_set share.suspended_at ≡ false

-- Where it comes from: it was there and the caller owns it, or it is new, after Turnstile if the
-- plan asks for that, and kept for the retention.
unfoldable pub Origin : StartContext → UploadStartRequest → Server → Server → Share → Type 0
Origin c r s after share =
    ((id : String) × (r.share_id ≡ some id)
      × Owns c.now s.shares id r.upload_token
      × (after.shares ≡ s.shares))
    ⊎ ((after.shares ≡ share ∷ s.shares)
        × (is_turnstile_required_for_plan c.plan ≡ true → c.turnstile_ok ≡ true)
        × (calculate_expires_at c.now r.retention ≡ some share.expires_at))

pub record Chosen (c : StartContext) (r : UploadStartRequest) (s after : Server) (t : Target)
    : Type 0 where
  pub share : Share
  pub found : find_share t.share_id after.shares ≡ some share
  pub is_open : IsOpen c.now share t.upload_token t.expires_at
  pub origin : Origin c r s after share
  pub uploads : after.uploads ≡ s.uploads
  pub calls : after.r2_calls ≡ s.r2_calls

unfoldable pub Choice : StartContext → UploadStartRequest → Server → Server × Reply Target → Type 0
Choice c r s (after, refused status) = after ≡ s
Choice c r s (after, answered t) = Chosen c r s after t

module _ (c : StartContext) (r : UploadStartRequest) (s : Server) where
  join_share-Choice : (id : String) → r.share_id ≡ some id → Choice c r s (join_share c r id s)
  unfolding Choice Origin Verdict
  join_share-Choice id asked =
      go (verify_share_ownership c.now s.shares id r.upload_token)
        (verify_share_ownership_lem c.now s.shares id r.upload_token)
    where
      go :
          (v : Reply ShareOwnership)
          → Verdict c.now s.shares id r.upload_token v
          → Choice c r s (elim v [
            | refused status ↦ (s, refused status)
            | answered ownership ↦ (
              s,
              answered (record {
                share_id = id;
                upload_token = elim r.upload_token [ none ↦ "" | some token ↦ token ];
                expires_at = ownership.expires_at;
              }),
            )
          ])
      go (refused status) h = refl
      go (answered ownership) (o, e) = record {
        share = o.share;
        found = o.found;
        is_open = record {
          stored = rw o.provided o.stored;
          expires = sym e;
          not_expired = o.not_expired;
          not_suspended = o.not_suspended;
        };
        origin = inl (id, asked, o, refl);
        uploads = refl;
        calls = refl;
      }

  create_share-Choice :
      is_retention_allowed_for_plan r.retention c.plan ≡ true → Choice c r s (create_share c r s)
  unfolding Choice Origin
  create_share-Choice allowed =
      let (days, known, some_days, bounded) =
        allowed_retention_expiry r.retention c.plan c.now allowed in
      by_test (Choice c r s) (is_turnstile_required_for_plan c.plan && not c.turnstile_ok)
        (s, refused 403)
        (elim (calculate_expires_at c.now r.retention) [
          | none ↦ (s, refused 500)
          | some expires_at ↦ if c.share_stored then made expires_at else (s, refused 500)
        ])
        (λ _. refl)
        (λ b.
          by_option (Choice c r s) (calculate_expires_at c.now r.retention) (s, refused 500)
            (λ expires_at. if c.share_stored then made expires_at else (s, refused 500)) (λ _. refl)
            (λ expires_at e.
              let later : expires_at ≡ c.now + days * day_ms = ground (arith, e, known) in
              by_test (Choice c r s) c.share_stored (made expires_at) (s, refused 500)
                (λ _. record {
                  share = new_share expires_at;
                  found =
                      find-head (λ x. same x.id c.new_share_id) (new_share expires_at) s.shares
                        (same_self c.new_share_id);
                  is_open = record {
                    stored = refl;
                    expires = refl;
                    not_expired = omega (arith, later, some_days);
                    not_suspended = refl;
                  };
                  origin = inr (refl, (λ required. ground (arith, required, b)), e);
                  uploads = refl;
                  calls = refl;
                })
                (λ _. refl)))
    where
      new_share : ℕ → Share
      new_share expires_at = record {
        id = c.new_share_id;
        created_at = c.now;
        expires_at = expires_at;
        upload_token = some c.new_upload_token;
        wrapped_key = r.wrapped_key;
        key_salt = r.key_salt;
        suspended_at = none;
        preview_allowed = if is_preview_allowed_for_plan c.plan then 1 else 0;
      }

      made : ℕ → Server × Reply Target
      made expires_at = (
        insert_share (new_share expires_at) s,
        answered (record {
          share_id = c.new_share_id;
          upload_token = c.new_upload_token;
          expires_at = expires_at;
        }),
      )

  pub choose_share-Choice :
      is_retention_allowed_for_plan r.retention c.plan ≡ true → Choice c r s (choose_share c r s)
  unfolding choose_share
  choose_share-Choice allowed =
      by_option (Choice c r s) r.share_id (create_share c r s)
        (λ id. if truthy id then join_share c r id s else create_share c r s)
        (λ _. create_share-Choice allowed)
        (λ id asked.
          by_test (Choice c r s) (truthy id) (join_share c r id s) (create_share c r s)
            (λ _. join_share-Choice id asked) (λ _. create_share-Choice allowed))
