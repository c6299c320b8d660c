-- ===== src/Cleanup/Share/Objects.antt =====
-- What `deleteShare` does to the bucket before it touches a row.
use anzdrop.Base.{
  ℕ, zero, suc, String, Bool, true, false, ◌≡◌, refl, sym, ap, ◌∙◌, ◌≢◌, Option, none, some, List,
  [], ◌∷◌, exists, find, take, drop, same, inl, inr, arith, Bool-cases, All,
}
use anzdrop.Server.State.{Server, File, Upload}
use anzdrop.Cleanup.World.{
  count_call, Storage, World, AbortAnswer, aborted, missing_upload, abort_failed, HeadAnswer,
  head_failed, object_found, mem,
}
use anzdrop.Cleanup.Triple.{
  Triple, Ends, Keeps, Stored, Triple-pure, Triple-throw, Triple-bind, Triple-query, Triple-imp,
  Triple-fact, spend-Stored,
}
use anzdrop.Cleanup.Share.{
  abort_call, aborted_with, head_call, head_with, abort_multipart_upload, abort_uploads,
  require_tracked, require_file,
}

pub mem-drop :
    (n : ℕ) (j : String) (ks : List String)
    → mem j ks ≡ true
    → mem j (drop n ks) ≡ false
    → mem j (take n ks) ≡ true
mem-drop zero j ks h g = ground (arith, h, g)
mem-drop (suc n) j [] h g = h
mem-drop (suc n) j (k ∷ ks) h g = elim (Bool-cases (same k j)) [
  | inl e ↦ rw (exists, e) refl
  | inr e ↦ rw (exists, e) (mem-drop n j ks (ground (arith, h, e)) g)
]

pub mem-take :
    (n : ℕ) (j : String) (ks : List String) → mem j ks ≡ false → mem j (take n ks) ≡ false
mem-take zero j ks h = refl
mem-take (suc n) j [] h = refl
mem-take (suc n) j (k ∷ ks) h = elim (Bool-cases (same k j)) [
  | inl e ↦ absurd (ground (arith, h, e))
  | inr e ↦ rw (exists, e) (mem-take n j ks (ground (arith, h, e)))
]

pub mem-drop-false :
    (n : ℕ) (j : String) (ks : List String) → mem j ks ≡ false → mem j (drop n ks) ≡ false
mem-drop-false zero j ks h = h
mem-drop-false (suc n) j [] h = refl
mem-drop-false (suc n) j (k ∷ ks) h = elim (Bool-cases (same k j)) [
  | inl e ↦ absurd (ground (arith, h, e))
  | inr e ↦ mem-drop-false n j ks (ground (arith, h, e))
]

-- A file row with this key.
abbrev pub has_file : Server → String → Bool
has_file s key = exists (λ f. same f.storage_key key) s.files

has_file-find :
    (key : String) (files : List File)
    → find (λ f. same f.storage_key key) files ≢ none
    → exists (λ f. same f.storage_key key) files ≡ true
has_file-find key [] h = absurd (h refl)
has_file-find key (f ∷ files) h = elim (Bool-cases (same f.storage_key key)) [
  | inl e ↦ rw (exists, e) refl
  | inr e ↦ rw (exists, e) (has_file-find key files (rw (find, e) at h))
]

module _ (st : Storage) (s₀ : Server) (b₀ : st.Bucket) where
  -- The tables are as they were, and so are the objects.
  abbrev pub Before : World st → Type 0
  Before = Stored st (λ s b. (s ≡ s₀) × ((j : String) → st.holds b j ≡ st.holds b₀ j))

  -- If an object is there, a file names it.
  abbrev pub IsRetired : String → Type 0
  IsRetired key = st.holds b₀ key ≡ true → has_file s₀ key ≡ true

  abort_call-Before : (k u : String) → Keeps Before (abort_call k u)
  unfolding abort_call
  abort_call-Before k u = record {
    at = λ w h.
        ends (st.abort k u w.bucket) (count_call w) h.0
          (λ j. st.holds-abort k u w.bucket j ∙ h.1 j);
  }
    where
      ends :
          (r : AbortAnswer × st.Bucket) (w : World st)
          → w.server ≡ s₀
          → ((j : String) → st.holds r.1 j ≡ st.holds b₀ j)
          → Ends (λ _. Before) (λ _. Before) (aborted_with r w)
      ends (abort_failed, b) w e h = (e, h)
      ends (aborted, b) w e h = (e, h)
      ends (missing_upload, b) w e h = (e, h)

  head_call-Before :
      (k : String)
      → Triple Before (head_call k) (λ x w. Before w × (st.holds b₀ k ≡ x)) (λ _. Before)
  unfolding head_call
  head_call-Before k = record {
    at = λ w h.
        ends (st.head k w.bucket) (count_call w) h.0 (λ j. st.holds-head k w.bucket j ∙ h.1 j)
          (λ x e. sym (h.1 k) ∙ st.head_true k w.bucket x e);
  }
    where
      ends :
          (r : HeadAnswer × st.Bucket) (w : World st)
          → w.server ≡ s₀
          → ((j : String) → st.holds r.1 j ≡ st.holds b₀ j)
          → ((x : Bool) → r.0 ≡ object_found x → st.holds b₀ k ≡ x)
          → Ends (λ x w. Before w × (st.holds b₀ k ≡ x)) (λ _. Before) (head_with r w)
      ends (head_failed, b) w e h t = (e, h)
      ends (object_found x, b) w e h t = ((e, h), t x refl)

  require_file-Before :
      (k : String) (row : Option File)
      → (row ≢ none → has_file s₀ k ≡ true)
      → Triple Before (require_file row) (λ _ w. Before w × IsRetired k) (λ _. Before)
  require_file-Before k none h = Triple-throw (λ _ w. Before w × IsRetired k) _
  require_file-Before k (some f) h =
      Triple-imp (λ w p. (p, λ _. h (λ e. cc))) (λ _ w p. p) (λ _ w p. p)
        (Triple-pure {E = λ _. Before} (λ _ w. Before w × IsRetired k) tt)

  require_tracked-Before :
      (k : String) (x : Bool)
      → st.holds b₀ k ≡ x
      → Triple Before (require_tracked k x) (λ _ w. Before w × IsRetired k) (λ _. Before)
  require_tracked-Before k false h =
      Triple-imp (λ w p. (p, λ e. absurd (cc (h, e)))) (λ _ w p. p) (λ _ w p. p)
        (Triple-pure {E = λ _. Before} (λ _ w. Before w × IsRetired k) tt)
  require_tracked-Before k true h =
      Triple-bind Before (λ row w. Before w × (row ≢ none → has_file s₀ k ≡ true)) _ _ _
        (Triple-imp (λ w p. p)
          (λ row w p. (
            p.0,
            λ found. has_file-find k s₀.files (λ e.
                found
                  (p.1 ∙ ap (λ (s : Server). find (λ f. same f.storage_key k) s.files) p.0.0 ∙ e)),
          ))
          (λ _ w p. p)
          (Triple-query (λ s b. (s ≡ s₀) × ((j : String) → st.holds b j ≡ st.holds b₀ j)) _))
        λ row. Triple-fact Before _ _ _ _ (require_file-Before k row)

  -- An abort that returns leaves no object behind that only the upload names.
  pub abort_multipart_upload-Before :
      (k u : String)
      → Triple Before (abort_multipart_upload k u) (λ _ w. Before w × IsRetired k) (λ _. Before)
  unfolding abort_multipart_upload
  abort_multipart_upload-Before k u =
      Triple-bind _ (λ _. Before) _ _ _ (spend-Stored _)
        λ _.
          Triple-bind _ (λ _. Before) _ _ _ (abort_call-Before k u)
            λ _.
              Triple-bind _ (λ _. Before) _ _ _ (spend-Stored _)
                λ _.
                  Triple-bind _ _ _ _ _ (head_call-Before k)
                    λ x. Triple-fact Before _ _ _ _ (require_tracked-Before k x)

  pub abort_uploads-Before :
      (us : List Upload)
      → Triple Before
          (abort_uploads us)
          (λ _ w. Before w × All (λ u. IsRetired u.storage_key) us)
          (λ _. Before)
  unfolding abort_uploads
  abort_uploads-Before [] =
      Triple-imp (λ w p. (p, tt)) (λ _ w p. p) (λ _ w p. p)
        (Triple-pure {E = λ _. Before} (λ _ w. Before w × Unit {0}) tt)
  abort_uploads-Before (u ∷ us) =
      Triple-bind _ _ _ _ _ (abort_multipart_upload-Before u.storage_key u.upload_id) λ _.
        Triple-fact Before _ _ _ _ λ retired.
          Triple-imp (λ w p. p) (λ _ w p. (p.0, (retired, p.1))) (λ _ w p. p)
            (abort_uploads-Before us)
