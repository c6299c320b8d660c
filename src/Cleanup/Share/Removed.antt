-- ===== src/Cleanup/Share/Removed.antt =====
-- `deleteShare` as a whole, however it ends.
use mathlib.Core.Path.{subst}
use anzdrop.Base.{
  String, true, false, ◌≡◌, refl, sym, ap, ◌∙◌, Option, none, some, List, [], find, length, same,
  inl, inr, arith, Bool-cases, All,
}
use anzdrop.Server.State.{Server, Share, File, Upload}
use anzdrop.Cleanup.World.{Storage, World, ◌>>=◌, query, batch}
use anzdrop.Cleanup.Triple.{
  Triple, Ends, Stored, Triple-pure, Triple-throw, Triple-bind, Triple-query, Triple-batch,
  Triple-imp, Triple-fact,
}
use anzdrop.Cleanup.Share.{
  delete_inspected, refuse_remaining, delete_objects, delete_snapshot, delete_share,
}
use anzdrop.Cleanup.Share.Objects.{Before, IsRetired, abort_uploads-Before}
use anzdrop.Cleanup.Share.Deleted.{Confined, Left, delete_objects-Left}
use anzdrop.Cleanup.Share.Tracked.{
  IsTracked, IsKeyed, named_elsewhere, snapshot_files, snapshot_uploads, snapshot_keys, file_ids,
  upload_ids, Covers, elsewhere-mem, after-IsTracked,
}
use anzdrop.Cleanup.Share.Outcome.{
  removed, has_share, IsEmptyShare, Safe, ShareGone, AllOrNothing, Committed, find-none_exists,
  removed_empty,
}
use anzdrop.Cleanup.Share.References.{references-Before}

module _ (st : Storage) (s₀ : Server) (b₀ : st.Bucket) (share_id : String)
    (tracked : IsTracked st s₀ b₀) (keyed : IsKeyed s₀) where
  -- Before the transaction, with no object added and none touched that another share names.
  unchanged-AllOrNothing :
      (w : World st)
      → w.server ≡ s₀
      → ((key : String) → st.holds b₀ key ≡ false → st.holds w.bucket key ≡ false)
      → ((key : String)
          → named_elsewhere share_id s₀ key ≡ true
          → st.holds w.bucket key ≡ st.holds b₀ key)
      → AllOrNothing st s₀ b₀ share_id w
  unchanged-AllOrNothing w e none_new others = (
    inl e,
    (
      subst (λ (s : Server). IsTracked st s w.bucket) (sym e)
          (λ key held. elim (Bool-cases (st.holds b₀ key)) [
            | inl before ↦ tracked key before
            | inr before ↦ absurd (cc (none_new key before, held))
          ]),
      others,
    ),
  )

  Before-AllOrNothing : (w : World st) → Before st s₀ b₀ w → AllOrNothing st s₀ b₀ share_id w
  Before-AllOrNothing w (e, h) =
      unchanged-AllOrNothing w e (λ key before. h key ∙ before) (λ key _. h key)

  Committed-AllOrNothing :
      (w : World st) → Committed st s₀ b₀ share_id w → AllOrNothing st s₀ b₀ share_id w
  Committed-AllOrNothing w (e, h) =
      (inr e, subst (λ (s : Server). Safe st s₀ b₀ share_id s w.bucket) (sym e) h)

  Confined-AllOrNothing :
      Covers share_id s₀
      → (w : World st) → Confined st s₀ b₀ (snapshot_keys share_id s₀) w.server w.bucket
      → AllOrNothing st s₀ b₀ share_id w
  Confined-AllOrNothing covers w (e, outside, none_new) =
      unchanged-AllOrNothing w e none_new
        (λ key named. outside key (elsewhere-mem share_id s₀ keyed key covers named))

  objects-Left :
      Covers share_id s₀
      → Triple
          (Before st s₀ b₀)
          (delete_objects (length (snapshot_keys share_id s₀)) (snapshot_keys share_id s₀))
          (λ _. Stored st (Left st s₀ b₀ (snapshot_keys share_id s₀) []))
          (λ _. AllOrNothing st s₀ b₀ share_id)
  objects-Left covers =
      Triple-imp (λ w p. ((p.0, (λ j _. p.1 j), (λ j z. p.1 j ∙ z)), λ j h g. absurd (cc (h, g))))
        (λ _ w p. p) (λ _ w p. Confined-AllOrNothing covers w p)
        (delete_objects-Left st s₀ b₀ (snapshot_keys share_id s₀)
          (length (snapshot_keys share_id s₀)) (snapshot_keys share_id s₀) (omega arith) (λ j h. h))

  transaction-Committed :
      Covers share_id s₀
      → All (λ u. IsRetired st s₀ b₀ u.storage_key) (snapshot_uploads share_id s₀)
      → Triple
          (Stored st (Left st s₀ b₀ (snapshot_keys share_id s₀) []))
          (batch 4 (delete_inspected share_id (file_ids share_id s₀) (upload_ids share_id s₀)))
          (λ _. Committed st s₀ b₀ share_id)
          (λ _. AllOrNothing st s₀ b₀ share_id)
  transaction-Committed covers retired =
      Triple-imp (λ w p. p) (λ _ w p. p) (λ _ w p. Confined-AllOrNothing covers w p.0)
        (Triple-batch (Left st s₀ b₀ (snapshot_keys share_id s₀) []) 4 _
          (λ s b. (s ≡ removed share_id s₀) × Safe st s₀ b₀ share_id (removed share_id s₀) b)
          λ s b h. (
            ap (delete_inspected share_id (file_ids share_id s₀) (upload_ids share_id s₀)) h.0.0,
            (
              after-IsTracked share_id s₀ keyed st b₀ b tracked retired h.0.2
                  (λ j named. h.1 j named refl),
              λ key named. h.0.1 key (elsewhere-mem share_id s₀ keyed key covers named),
            ),
          ))

  refuse_remaining-ShareGone :
      (row : Option Share)
      → row ≡ find (λ (share : Share). same share.id share_id) (removed share_id s₀).shares
      → Triple
          (Committed st s₀ b₀ share_id)
          (refuse_remaining row)
          (λ _. ShareGone st s₀ b₀ share_id)
          (λ _. AllOrNothing st s₀ b₀ share_id)
  refuse_remaining-ShareGone none e =
      Triple-imp
        (λ w p. (
          p.0,
          subst (λ (s : Server). has_share share_id s ≡ false) (sym p.0)
              (find-none_exists _ (removed share_id s₀).shares (sym e)),
          (λ present.
              subst (λ (s : Server). IsEmptyShare share_id s) (sym p.0)
                (removed_empty share_id s₀ (sym e) present)),
          subst (λ (s : Server). Safe st s₀ b₀ share_id s w.bucket) (sym p.0) p.1,
        ))
        (λ _ w p. p) (λ _ w p. p)
        (Triple-pure {E = λ _. AllOrNothing st s₀ b₀ share_id} (λ _. ShareGone st s₀ b₀ share_id)
          tt)
  refuse_remaining-ShareGone (some row) e =
      Triple-imp Committed-AllOrNothing (λ _ w p. p) (λ _ w p. p)
        (Triple-throw {E = λ _. AllOrNothing st s₀ b₀ share_id} (λ _. ShareGone st s₀ b₀ share_id)
          _)

  finish-ShareGone :
      Triple
        (Committed st s₀ b₀ share_id)
        (query (λ s. find (λ (share : Share). same share.id share_id) s.shares)
          >>= refuse_remaining)
        (λ _. ShareGone st s₀ b₀ share_id)
        (λ _. AllOrNothing st s₀ b₀ share_id)
  finish-ShareGone =
      Triple-bind (Committed st s₀ b₀ share_id)
        (λ row w.
          Committed st s₀ b₀ share_id w
          × (row ≡ find (λ (share : Share). same share.id share_id) (removed share_id s₀).shares))
        _ _ _
        (Triple-imp (λ w p. p)
          (λ row w p. (
            p.0,
            p.1
                ∙ ap (λ (s : Server). find (λ (share : Share). same share.id share_id) s.shares)
                    p.0.0,
          ))
          (λ _ w p. Committed-AllOrNothing w p)
          (Triple-query
            (λ s b. (s ≡ removed share_id s₀) × Safe st s₀ b₀ share_id (removed share_id s₀) b) _))
        λ row. Triple-fact (Committed st s₀ b₀ share_id) _ _ _ _ (refuse_remaining-ShareGone row)

  snapshot-ShareGone :
      (files : List File) (uploads : List Upload)
      → files ≡ snapshot_files share_id s₀
      → uploads ≡ snapshot_uploads share_id s₀
      → Triple
          (Before st s₀ b₀)
          (delete_snapshot share_id files uploads)
          (λ _. ShareGone st s₀ b₀ share_id)
          (λ _. AllOrNothing st s₀ b₀ share_id)
  snapshot-ShareGone files uploads ef eu =
      rw (ef, eu)
        (Triple-bind _ _ _ _ _
          (Triple-imp (λ w p. p) (λ _ w p. p) (λ _ w p. Before-AllOrNothing w p)
            (references-Before st s₀ b₀ share_id (snapshot_keys share_id s₀) refl))
          λ _. Triple-fact (Before st s₀ b₀) _ _ _ _ λ covers.
            Triple-bind _ _ _ _ _
              (Triple-imp (λ w p. p) (λ _ w p. p) (λ _ w p. Before-AllOrNothing w p)
                (abort_uploads-Before st s₀ b₀ (snapshot_uploads share_id s₀)))
              λ _. Triple-fact (Before st s₀ b₀) _ _ _ _ λ retired.
                Triple-bind _ _ _ _ _ (objects-Left covers) λ _.
                  Triple-bind _ _ _ _ _ (transaction-Committed covers retired)
                    λ _. finish-ShareGone)

  share-ShareGone :
      Triple
        (Before st s₀ b₀)
        (delete_share share_id)
        (λ _. ShareGone st s₀ b₀ share_id)
        (λ _. AllOrNothing st s₀ b₀ share_id)
  unfolding delete_share
  share-ShareGone =
      Triple-bind (Before st s₀ b₀)
        (λ files w. Before st s₀ b₀ w × (files ≡ snapshot_files share_id s₀)) _ _ _
        (Triple-imp (λ w p. p)
          (λ files w p. (p.0, p.1 ∙ ap (λ (s : Server). snapshot_files share_id s) p.0.0))
          (λ _ w p. Before-AllOrNothing w p)
          (Triple-query (λ s b. (s ≡ s₀) × ((j : String) → st.holds b j ≡ st.holds b₀ j)) _))
        λ files. Triple-fact (Before st s₀ b₀) _ _ _ _ λ ef.
          Triple-bind (Before st s₀ b₀)
            (λ uploads w. Before st s₀ b₀ w × (uploads ≡ snapshot_uploads share_id s₀)) _ _ _
            (Triple-imp (λ w p. p)
              (λ uploads w p. (p.0, p.1 ∙ ap (λ (s : Server). snapshot_uploads share_id s) p.0.0))
              (λ _ w p. Before-AllOrNothing w p)
              (Triple-query (λ s b. (s ≡ s₀) × ((j : String) → st.holds b j ≡ st.holds b₀ j)) _))
            λ uploads.
              Triple-fact (Before st s₀ b₀) _ _ _ _ λ eu. snapshot-ShareGone files uploads ef eu

-- If every object has a row that names it and ids are primary keys, then however `deleteShare` ends,
-- with D1 and R2 failing at any call or a ceiling reached, every object that is left still has a row
-- that names it, and the object of a key that a file of another share has is as it was.
-- If it returns, the snapshot's rows are removed, no row has the share's id, and if one had, neither a file nor
-- an upload session of the share is left. If it throws, either the tables are as they were or the
-- snapshot's rows are removed, all of them.
pub delete_share_lem :
    (st : Storage) (share_id : String) (w : World st)
    → IsTracked st w.server w.bucket
    → IsKeyed w.server
    → Ends
        (λ _. ShareGone st w.server w.bucket share_id)
        (λ _. AllOrNothing st w.server w.bucket share_id)
        (delete_share share_id w)
delete_share_lem st share_id w tracked keyed =
    (share-ShareGone st w.server w.bucket share_id tracked keyed).at w (refl, λ j. refl)
