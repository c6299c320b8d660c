-- ===== src/Server/ShareAuth.antt =====
-- lib/share-auth.ts: who may change a share, and whether it may be read.
pub mod Ownership
use anzdrop.Base.{
  ℕ, String, Bool, true, false, Option, none, some, List, find, same, truthy, leb, if◌then◌else◌,
}
use anzdrop.Auth.TimingSafeEqual.{token_matches}
use anzdrop.Server.State.{Share, Reply, refused, answered}

-- A column's truth value: false of NULL and of the empty text.
abbrev pub is_set : Option String → Bool
is_set none = false
is_set (some text) = truthy text

pub record ShareOwnership : Type 0 where
  pub created_at : ℕ
  pub expires_at : ℕ

abbrev pub find_share : String → List Share → Option Share
find_share id shares = find (λ s. same s.id id) shares

abbrev pub check_ownership : ℕ → String → Share → Reply ShareOwnership
check_ownership now upload_token share =
    if token_matches share.upload_token upload_token
    then if leb share.expires_at now
      then refused 410
      else if is_set share.suspended_at
      then refused 403
      else answered (record { created_at = share.created_at; expires_at = share.expires_at })
    else refused 403

unfoldable pub verify_share_ownership :
    ℕ → List Share → String → Option String → Reply ShareOwnership
verify_share_ownership now shares share_id none = refused 400
verify_share_ownership now shares share_id (some upload_token) =
    if truthy upload_token
    then elim (find_share share_id shares) [
      | none ↦ refused 404
      | some share ↦ check_ownership now upload_token share
    ]
    else refused 400

-- `none` is `{ ok: true }`; otherwise the status of the refusal.
unfoldable pub check_share_accessible : ℕ → (expires_at : ℕ) → Option String → Option ℕ
check_share_accessible now expires_at suspended_at =
    if leb expires_at now then some 410 else if is_set suspended_at then some 403 else none
