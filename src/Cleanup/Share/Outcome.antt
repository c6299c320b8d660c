-- ===== src/Cleanup/Share/Outcome.antt =====
-- How `deleteShare` may end.
use anzdrop.Base.{
  String, Bool, true, false, not, ◌&&◌, ◌≡◌, ◌⊎◌, refl, sym, ◌∙◌, none, List, [], ◌∷◌, exists, find,
  find-head, find-tail, find-keep, if◌then◌else◌, same, inl, inr, arith, Bool-cases,
}
use anzdrop.Server.State.{Server, Share}
use anzdrop.Cleanup.World.{Storage, World}
use anzdrop.Cleanup.Triple.{Stored}
use anzdrop.Cleanup.Share.{of_share, upload_of_share, delete_inspected}
use anzdrop.Cleanup.Share.Tracked.{IsTracked, named_elsewhere, file_ids, upload_ids}

abbrev pub removed : String → Server → Server
removed share_id s = delete_inspected share_id (file_ids share_id s) (upload_ids share_id s) s

abbrev pub has_share : String → Server → Bool
has_share share_id s = exists (λ share. same share.id share_id) s.shares

-- Neither a file nor an upload session of the share.
abbrev pub IsEmptyShare : String → Server → Type 0
IsEmptyShare share_id s =
    (exists (of_share share_id) s.files ≡ false)
    × (exists (upload_of_share share_id) s.uploads ≡ false)

pub find-none_exists {ℓ} :
    {A : Type ℓ} (p : A → Bool) (xs : List A) → find p xs ≡ none → exists p xs ≡ false
find-none_exists p [] h = refl
find-none_exists p (x ∷ xs) h = elim (Bool-cases (p x)) [
  | inl e ↦ absurd (cc (find-head p x xs e, h))
  | inr e ↦ rw (exists, e) (find-none_exists p xs (sym (find-tail p x xs e) ∙ h))
]

exists-find-none {ℓ} :
    {A : Type ℓ} (p : A → Bool) (xs : List A) → exists p xs ≡ true → find p xs ≡ none → ⊥
exists-find-none p xs h g = cc (find-none_exists p xs g, h)

in_use-false : (a b : Bool) → not (if a then true else b) ≡ true → (a ≡ false) × (b ≡ false)
in_use-false a b h = ground arith

spares : (a b : Bool) → b ≡ false → not (a && b) ≡ true
spares a b h = ground arith

-- If the row of the share is not found after the transaction, nothing of the share is there.
pub removed_empty :
    (share_id : String) (s : Server)
    → find (λ (share : Share). same share.id share_id) (removed share_id s).shares ≡ none
    → has_share share_id s ≡ true
    → IsEmptyShare share_id (removed share_id s)
unfolding delete_inspected
removed_empty share_id s h present =
    let files : Bool = exists (of_share share_id) (removed share_id s).files in
    let uploads : Bool = exists (upload_of_share share_id) (removed share_id s).uploads in
    elim (Bool-cases (not (if files then true else uploads))) [
      | inl e ↦ in_use-false files uploads e
      | inr e ↦ absurd (
          exists-find-none (λ (share : Share). same share.id share_id) s.shares present
            (sym (
                find-keep (λ (share : Share). same share.id share_id)
                  (λ (share : Share).
                    not (same share.id share_id && not (if files then true else uploads)))
                  (λ share _. spares (same share.id share_id) _ e) s.shares)
              ∙ h))
    ]

module _ (st : Storage) (s₀ : Server) (b₀ : st.Bucket) (share_id : String) where
  -- No object is left that no row names, and no object that a file of another share names is touched.
  abbrev pub Safe : Server → st.Bucket → Type 0
  Safe s b =
      IsTracked st s b
      × ((key : String) → named_elsewhere share_id s₀ key ≡ true → st.holds b key ≡ st.holds b₀ key)

  -- Of the snapshot no row is left. The share is gone, and if it was there, its last rows went with it.
  abbrev pub ShareGone : World st → Type 0
  ShareGone w =
      (w.server ≡ removed share_id s₀)
      × (has_share share_id w.server ≡ false)
      × (has_share share_id s₀ ≡ true → IsEmptyShare share_id w.server)
      × Safe w.server w.bucket

  -- The tables are as they were, or all of the snapshot's rows are removed.
  abbrev pub AllOrNothing : World st → Type 0
  AllOrNothing w = ((w.server ≡ s₀) ⊎ (w.server ≡ removed share_id s₀)) × Safe w.server w.bucket

  -- After the transaction.
  abbrev pub Committed : World st → Type 0
  Committed = Stored st (λ s b. (s ≡ removed share_id s₀) × Safe (removed share_id s₀) b)
