-- ===== src/Cleanup/Share/Tracked.antt =====
-- What is on record: the objects that some row names, and the rows that a deletion inspects.
use mathlib.Core.Path.{subst}
use mathlib.Core.List.{Memᴰ}
use anzdrop.Base.{
  and_left, and_right, not-true, or_left, or_right, String, Bool, true, false, not, ◌&&◌, ◌||◌, ◌≡◌,
  refl, sym, ◌∙◌, List, map, keep, exists, take, same, same_iff, same_self, inl, inr, arith,
  Bool-cases, All,
}
use anzdrop.Base.Member.{
  exists-Memᴰ, Memᴰ-exists, keep-Memᴰ, Memᴰ-keep, take-Memᴰ, Memᴰ-map, map-Memᴰ, All-Memᴰ,
}
use anzdrop.Server.State.{Server, File, Upload}
use anzdrop.Cleanup.World.{Storage, mem}
use anzdrop.Cleanup.Share.{
  distinct, of_share, upload_of_share, delete_inspected, inspected_file, inspected_upload,
  share_file_batch_size, share_upload_batch_size,
}
use anzdrop.Cleanup.Share.Objects.{has_file, IsRetired}
use anzdrop.Cleanup.Share.Deleted.{mem-distinct}

abbrev pub has_upload : Server → String → Bool
has_upload s key = exists (λ u. same u.storage_key key) s.uploads

-- Every object of the bucket has a file or an upload session that names it.
abbrev pub IsTracked : (st : Storage) → Server → st.Bucket → Type 0
IsTracked st s b =
    (key : String) → st.holds b key ≡ true → (has_file s key || has_upload s key) ≡ true

-- Ids are primary keys.
pub record IsKeyed (s : Server) : Type 0 where
  pub files_by_id : (f g : File) → Memᴰ f s.files → Memᴰ g s.files → f.id ≡ g.id → f ≡ g
  pub uploads_by_id : (u v : Upload) → Memᴰ u s.uploads → Memᴰ v s.uploads → u.id ≡ v.id → u ≡ v

-- A file of another share has this key.
abbrev pub named_elsewhere : String → Server → String → Bool
named_elsewhere share_id s key =
    exists (λ f. same f.storage_key key && not (of_share share_id f)) s.files

abbrev pub snapshot_files : String → Server → List File
snapshot_files share_id s = take share_file_batch_size (keep (of_share share_id) s.files)

abbrev pub snapshot_uploads : String → Server → List Upload
snapshot_uploads share_id s =
    take share_upload_batch_size (keep (upload_of_share share_id) s.uploads)

abbrev pub snapshot_keys : String → Server → List String
snapshot_keys share_id s = distinct (map (λ f. f.storage_key) (snapshot_files share_id s))

abbrev pub file_ids : String → Server → List String
file_ids share_id s = map (λ f. f.id) (snapshot_files share_id s)

abbrev pub upload_ids : String → Server → List String
upload_ids share_id s = map (λ u. u.id) (snapshot_uploads share_id s)

-- Whatever names an object of the snapshot is in it.
abbrev pub Covers : String → Server → Type 0
Covers share_id s =
    (f : File)
    → Memᴰ f s.files
    → mem f.storage_key (snapshot_keys share_id s) ≡ true
    → mem f.id (file_ids share_id s) ≡ true

module _ (share_id : String) (s : Server) (keyed : IsKeyed s) where
  inspected-Memᴰ :
      (f : File)
      → Memᴰ f s.files
      → mem f.id (file_ids share_id s) ≡ true
      → Memᴰ f (snapshot_files share_id s)
  inspected-Memᴰ f m h =
      let (id, in_ids, e) = exists-Memᴰ _ _ h in
      let (g, in_files, e') = map-Memᴰ (λ (f : File). f.id) id (snapshot_files share_id s) in_ids in
      let (n, _) =
        keep-Memᴰ (of_share share_id) g s.files (take-Memᴰ share_file_batch_size g _ in_files) in
      let same_row : g ≡ f = keyed.files_by_id g f n m (e' ∙ (same_iff id f.id).0 e) in
      subst (λ (x : File). Memᴰ x (snapshot_files share_id s)) same_row in_files

  inspected_upload-Memᴰ :
      (u : Upload)
      → Memᴰ u s.uploads
      → mem u.id (upload_ids share_id s) ≡ true
      → Memᴰ u (snapshot_uploads share_id s)
  inspected_upload-Memᴰ u m h =
      let (id, in_ids, e) = exists-Memᴰ _ _ h in
      let (v, in_uploads, e') =
        map-Memᴰ (λ (u : Upload). u.id) id (snapshot_uploads share_id s) in_ids in
      let (n, _) =
        keep-Memᴰ (upload_of_share share_id) v s.uploads
          (take-Memᴰ share_upload_batch_size v _ in_uploads) in
      let same_row : v ≡ u = keyed.uploads_by_id v u n m (e' ∙ (same_iff id u.id).0 e) in
      subst (λ (x : Upload). Memᴰ x (snapshot_uploads share_id s)) same_row in_uploads

  inspected-key :
      (f : File)
      → Memᴰ f (snapshot_files share_id s)
      → mem f.storage_key (snapshot_keys share_id s) ≡ true
  inspected-key f m =
      mem-distinct f.storage_key _
      ∙ Memᴰ-exists (λ k. same k f.storage_key) f.storage_key _
          (Memᴰ-map (λ (f : File). f.storage_key) f (snapshot_files share_id s) m)
          (same_self f.storage_key)

  -- No key of the snapshot is named by another share's file.
  pub elsewhere-mem :
      (key : String)
      → Covers share_id s
      → named_elsewhere share_id s key ≡ true
      → mem key (snapshot_keys share_id s) ≡ false
  elsewhere-mem key covers h = elim (Bool-cases (mem key (snapshot_keys share_id s))) [
    | inr e ↦ e
    | inl e ↦
        let (f, m, p) =
          exists-Memᴰ (λ (f : File). same f.storage_key key && not (of_share share_id f)) s.files
            h in
        let k : same f.storage_key key ≡ true = and_left _ (not (of_share share_id f)) p in
        let other : of_share share_id f ≡ false =
          not-true _ (and_right (same f.storage_key key) _ p) in
        let named : mem f.storage_key (snapshot_keys share_id s) ≡ true =
          subst (λ (x : String). mem x (snapshot_keys share_id s) ≡ true)
            (sym ((same_iff f.storage_key key).0 k)) e in
        let (_, ours) =
          keep-Memᴰ (of_share share_id) f s.files
            (take-Memᴰ share_file_batch_size f _ (inspected-Memᴰ f m (covers f m named))) in
        absurd (cc (ours, other))
  ]

  abbrev after : Server
  after = delete_inspected share_id (file_ids share_id s) (upload_ids share_id s) s

  -- A file whose object is not among the snapshot's stays.
  file-stays :
      (f : File)
      → Memᴰ f s.files
      → mem f.storage_key (snapshot_keys share_id s) ≡ false
      → has_file after f.storage_key ≡ true
  unfolding delete_inspected
  file-stays f m out =
      let kept : inspected_file share_id (file_ids share_id s) f ≡ false =
        elim (Bool-cases (mem f.id (file_ids share_id s))) [
          | inr e ↦ ground (arith, e)
          | inl e ↦ absurd (cc (inspected-key f (inspected-Memᴰ f m e), out))
        ] in
      Memᴰ-exists (λ g. same g.storage_key f.storage_key) f _
        (Memᴰ-keep (λ g. not (inspected_file share_id (file_ids share_id s) g)) f s.files m
          (rw kept refl))
        (same_self f.storage_key)

  -- After the transaction every object that is left has its row.
  module _ (st : Storage) (b₀ b : st.Bucket) (tracked : IsTracked st s b₀) where
    from_file :
        (key : String)
        → mem key (snapshot_keys share_id s) ≡ false
        → has_file s key ≡ true
        → has_file after key ≡ true
    from_file key out h =
        let (f, m, p) = exists-Memᴰ _ _ h in
        let e : f.storage_key ≡ key = (same_iff f.storage_key key).0 p in
        subst (λ (k : String). has_file after k ≡ true) e
          (file-stays f m
            (subst (λ (k : String). mem k (snapshot_keys share_id s) ≡ false) (sym e) out))

    from_upload :
        (key : String)
        → mem key (snapshot_keys share_id s) ≡ false
        → All (λ u. IsRetired st s b₀ u.storage_key) (snapshot_uploads share_id s)
        → st.holds b₀ key ≡ true
        → has_upload s key ≡ true
        → (has_file after key || has_upload after key) ≡ true
    unfolding delete_inspected
    from_upload key out retired held h =
        let (u, m, p) = exists-Memᴰ (λ (u : Upload). same u.storage_key key) s.uploads h in
        let e : u.storage_key ≡ key = (same_iff u.storage_key key).0 p in
        elim (Bool-cases (inspected_upload share_id (upload_ids share_id s) u)) [
          | inl gone ↦
              let in_ids : mem u.id (upload_ids share_id s) ≡ true =
                and_right (upload_of_share share_id u) _ gone in
              let clean : IsRetired st s b₀ u.storage_key =
                All-Memᴰ (λ v. IsRetired st s b₀ v.storage_key) u (snapshot_uploads share_id s)
                  retired (inspected_upload-Memᴰ u m in_ids) in
              let has : has_file s key ≡ true =
                subst (λ (k : String). has_file s k ≡ true) e
                  (clean (subst (λ (k : String). st.holds b₀ k ≡ true) (sym e) held)) in
              let kept : has_file after key ≡ true = from_file key out has in or_left _ _ kept
          | inr stays ↦
              let there : has_upload after key ≡ true =
                Memᴰ-exists (λ v. same v.storage_key key) u _
                  (Memᴰ-keep (λ v. not (inspected_upload share_id (upload_ids share_id s) v)) u
                    s.uploads m (rw stays refl))
                  p in
              or_right _ _ there
        ]

    pub after-IsTracked :
        All (λ u. IsRetired st s b₀ u.storage_key) (snapshot_uploads share_id s)
        → ((j : String) → st.holds b₀ j ≡ false → st.holds b j ≡ false)
        → ((j : String) → mem j (snapshot_keys share_id s) ≡ true → st.holds b j ≡ false)
        → IsTracked st after b
    after-IsTracked retired none_new gone key held =
        let out : mem key (snapshot_keys share_id s) ≡ false =
          elim (Bool-cases (mem key (snapshot_keys share_id s))) [
            | inl e ↦ absurd (cc (gone key e, held))
            | inr e ↦ e
          ] in
        let held₀ : st.holds b₀ key ≡ true = elim (Bool-cases (st.holds b₀ key)) [
          | inl e ↦ e
          | inr e ↦ absurd (cc (none_new key e, held))
        ] in
        elim (Bool-cases (has_file s key)) [
          | inl f ↦ or_left _ _ (from_file key out f)
          | inr f ↦ from_upload key out retired held₀ (ground (arith, tracked key held₀, f))
        ]
