-- ===== src/Cleanup/Schedule/Tracked.antt =====
-- What is stored after a scheduled run: every object that is left is on record.
use mathlib.Core.Path.{subst}
use mathlib.Core.List.{Memᴰ}
use anzdrop.Base.{
  or_left, or_right, or_other, String, true, not, ◌||◌, ◌≡◌, refl, sym, ap, ◌∙◌, inl, inr, same,
  same_iff, Bool-cases,
}
use anzdrop.Base.Member.{keep-Memᴰ, exists-Memᴰ, Memᴰ-exists, Memᴰ-keep}
use anzdrop.Server.State.{Server, Upload, delete_session}
use anzdrop.Cleanup.World.{Storage, World, Result, done, thrown}
use anzdrop.Cleanup.Triple.{
  Triple, Ends, Keeps, Stored, Triple-bind, Triple-batch, Triple-imp, Triple-fact,
}
use anzdrop.Cleanup.Share.{delete_inspected, delete_share, delete_stale_upload}
use anzdrop.Cleanup.Share.Objects.{Before, IsRetired, has_file, abort_multipart_upload-Before}
use anzdrop.Cleanup.Share.Tracked.{IsTracked, IsKeyed, has_upload}
use anzdrop.Cleanup.Share.Outcome.{removed, ShareGone, AllOrNothing}
use anzdrop.Cleanup.Share.Removed.{delete_share_lem}

-- The upload sessions are among those of the start, whose ids are keys.
abbrev pub FewerUploads : Server → Server → Type 0
FewerUploads start s = (u : Upload) → Memᴰ u s.uploads → Memᴰ u start.uploads

abbrev pub Sound : (st : Storage) → Server → Server → st.Bucket → Type 0
Sound st start s b = IsTracked st s b × IsKeyed s × FewerUploads start s

removed-IsKeyed : (share_id : String) (s : Server) → IsKeyed s → IsKeyed (removed share_id s)
unfolding delete_inspected
removed-IsKeyed share_id s k = record {
  files_by_id =
      λ f g m n. k.files_by_id f g (keep-Memᴰ _ f s.files m).0 (keep-Memᴰ _ g s.files n).0;
  uploads_by_id =
      λ u v m n. k.uploads_by_id u v (keep-Memᴰ _ u s.uploads m).0 (keep-Memᴰ _ v s.uploads n).0;
}

session-IsKeyed : (id : String) (s : Server) → IsKeyed s → IsKeyed (delete_session id s)
session-IsKeyed id s k = record {
  files_by_id = k.files_by_id;
  uploads_by_id =
      λ u v m n. k.uploads_by_id u v (keep-Memᴰ _ u s.uploads m).0 (keep-Memᴰ _ v s.uploads n).0;
}

removed-FewerUploads :
    (share_id : String) (start s : Server)
    → FewerUploads start s
    → FewerUploads start (removed share_id s)
unfolding delete_inspected
removed-FewerUploads share_id start s few u m = few u (keep-Memᴰ _ u s.uploads m).0

module _ (st : Storage) (start : Server) where
  gone-Sound :
      (share_id : String) (w w' : World st)
      → Stored st (Sound st start) w
      → ShareGone st w.server w.bucket share_id w'
      → Stored st (Sound st start) w'
  gone-Sound share_id w w' (t, k, few) (e, _, _, safe) = (
    safe.0,
    subst IsKeyed (sym e) (removed-IsKeyed share_id w.server k),
    subst (FewerUploads start) (sym e) (removed-FewerUploads share_id start w.server few),
  )

  AllOrNothing-Sound :
      (share_id : String) (w w' : World st)
      → Stored st (Sound st start) w
      → AllOrNothing st w.server w.bucket share_id w'
      → Stored st (Sound st start) w'
  AllOrNothing-Sound share_id w w' (t, k, few) (inl e, safe) =
      (safe.0, subst IsKeyed (sym e) k, subst (FewerUploads start) (sym e) few)
  AllOrNothing-Sound share_id w w' (t, k, few) (inr e, safe) = (
    safe.0,
    subst IsKeyed (sym e) (removed-IsKeyed share_id w.server k),
    subst (FewerUploads start) (sym e) (removed-FewerUploads share_id start w.server few),
  )

  pub delete_share-Sound :
      (share_id : String) → Keeps (Stored st (Sound st start)) (delete_share share_id)
  delete_share-Sound share_id = record {
    at = λ w h. ends w h (delete_share share_id w) (delete_share_lem st share_id w h.0 h.1);
  }
    where
      ends :
          (w : World st)
          → Stored st (Sound st start) w
          → (r : Result (Unit {0}) × World st)
          → Ends
              (λ _. ShareGone st w.server w.bucket share_id)
              (λ _. AllOrNothing st w.server w.bucket share_id)
              r
          → Ends (λ _. Stored st (Sound st start)) (λ _. Stored st (Sound st start)) r
      ends w h (done _, w') g = gone-Sound share_id w w' h g
      ends w h (thrown e, w') g = AllOrNothing-Sound share_id w w' h g

  -- The rows of a session are removed once R2 holds nothing that only they name.
  session-IsTracked :
      (u : Upload) (s : Server) (b : st.Bucket)
      → IsKeyed start
      → Memᴰ u start.uploads
      → FewerUploads start s
      → IsTracked st s b
      → IsRetired st s b u.storage_key
      → IsTracked st (delete_session u.id s) b
  session-IsTracked u s b keyed known few tracked retired key held =
      elim (Bool-cases (has_file s key)) [
        | inl f ↦ or_left (has_file s key) _ f
        | inr f ↦ by_upload (exists-Memᴰ _ s.uploads (or_other _ _ (tracked key held) f))
      ]
    where
      by_upload :
          ((v : Upload) × Memᴰ v s.uploads × (same v.storage_key key ≡ true))
          → (has_file s key || has_upload (delete_session u.id s) key) ≡ true
      by_upload (v, m, p) = elim (Bool-cases (same v.id u.id)) [
        | inl e ↦
            let same_row : v ≡ u =
              keyed.uploads_by_id v u (few v m) known ((same_iff v.id u.id).0 e) in
            let at_key : u.storage_key ≡ key =
              ap (λ (x : Upload). x.storage_key) (sym same_row)
              ∙ (same_iff v.storage_key key).0 p in
            or_left (has_file s key) _ (
              subst (λ (k : String). has_file s k ≡ true) at_key
                (retired (subst (λ (k : String). st.holds b k ≡ true) (sym at_key) held)))
        | inr e ↦ or_right (has_file s key) _ (
            Memᴰ-exists (λ x. same x.storage_key key) v _
              (Memᴰ-keep (λ x. not (same x.id u.id)) v s.uploads m (rw e refl)) p)
      ]

  Before-Sound :
      (w₀ w : World st)
      → Stored st (Sound st start) w₀
      → Before st w₀.server w₀.bucket w
      → Stored st (Sound st start) w
  Before-Sound w₀ w (t, k, few) (e, same_objects) = (
    (λ key held.
        subst (λ (s : Server). (has_file s key || has_upload s key) ≡ true) (sym e)
          (t key (sym (same_objects key) ∙ held))),
    subst IsKeyed (sym e) k,
    subst (FewerUploads start) (sym e) few,
  )

  pub delete_stale_upload-Sound :
      IsKeyed start
      → (u : Upload) → Memᴰ u start.uploads
      → Keeps (Stored st (Sound st start)) (delete_stale_upload u)
  unfolding delete_stale_upload
  delete_stale_upload-Sound keyed u known = record { at = λ w h. (from w h).at w (refl, λ j. refl) }
    where
      session :
          (w : World st)
          → Stored st (Sound st start) w
          → IsRetired st w.server w.bucket u.storage_key
          → (s : Server) (b : st.Bucket)
          → (s ≡ w.server) × ((j : String) → st.holds b j ≡ st.holds w.bucket j)
          → Sound st start (delete_session u.id s) b
      session w h retired s b (e, objects) =
          let sound : Sound st start s b =
            Before-Sound w (record w { server = s; bucket = b }) h (e, objects) in
          let clean : IsRetired st s b u.storage_key = λ held.
            subst (λ (x : Server). has_file x u.storage_key ≡ true) (sym e)
              (retired (sym (objects u.storage_key) ∙ held)) in
          (
            session-IsTracked u s b keyed known sound.2 sound.0 clean,
            session-IsKeyed u.id s sound.1,
            λ v m. sound.2 v (keep-Memᴰ _ v s.uploads m).0,
          )

      from :
          (w : World st)
          → Stored st (Sound st start) w
          → Triple
              (Before st w.server w.bucket)
              (delete_stale_upload u)
              (λ _. Stored st (Sound st start))
              (λ _. Stored st (Sound st start))
      from w h =
          Triple-bind _ _ _ _ _
            (Triple-imp (λ w p. p) (λ _ w p. p) (λ _ w' p. Before-Sound w w' h p)
              (abort_multipart_upload-Before st w.server w.bucket u.storage_key u.upload_id))
            λ _. Triple-fact (Before st w.server w.bucket) _ _ _ _ λ retired.
              Triple-imp (λ w p. p) (λ _ w p. p) (λ _ w' p. Before-Sound w w' h p)
                (Triple-batch
                  (λ s b. (s ≡ w.server) × ((j : String) → st.holds b j ≡ st.holds w.bucket j)) 2
                  (delete_session u.id) (Sound st start) (session w h retired))
