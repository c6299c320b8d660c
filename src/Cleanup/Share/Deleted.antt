-- ===== src/Cleanup/Share/Deleted.antt =====
-- The loop of `deleteShare` that removes the objects, slice by slice.
use anzdrop.Base.{
  ℕ, zero, suc, ◌≤◌, String, Bool, true, false, not, ◌≡◌, refl, ap, ◌∙◌, List, [], ◌∷◌, keep,
  keep-true, keep-false, exists, length, take, drop, length-drop, same, same_iff, inl, inr, arith,
  Bool-cases,
}
use anzdrop.Server.State.{Server}
use anzdrop.Cleanup.World.{count_call, Storage, World, mem}
use anzdrop.Cleanup.Triple.{
  Triple, Ends, Stored, Triple-pure, Triple-bind, Triple-imp, spend-Stored,
}
use anzdrop.Cleanup.Share.{distinct, delete_call, delete_with, delete_objects, r2_delete_batch_size}
use anzdrop.Cleanup.Share.Objects.{mem-drop, mem-take, mem-drop-false}

module _ (st : Storage) (s₀ : Server) (b₀ : st.Bucket) (keys : List String) where
  -- Objects under other keys are as they were, and none is new.
  abbrev pub Confined : Server → st.Bucket → Type 0
  Confined s b =
      (s ≡ s₀)
      × ((j : String) → mem j keys ≡ false → st.holds b j ≡ st.holds b₀ j)
      × ((j : String) → st.holds b₀ j ≡ false → st.holds b j ≡ false)

  -- Of the keys, at most those of `rest` have their objects.
  abbrev pub Left : List String → Server → st.Bucket → Type 0
  Left rest s b =
      Confined s b × ((j : String) → mem j keys ≡ true → mem j rest ≡ false → st.holds b j ≡ false)

  delete_call-Left :
      (n : ℕ) (rest : List String)
      → ((j : String) → mem j keys ≡ false → mem j rest ≡ false)
      → Triple
          (Stored st (Left rest))
          (delete_call (take n rest))
          (λ _. Stored st (Left (drop n rest)))
          (λ _. Stored st Confined)
  unfolding delete_call
  delete_call-Left n rest inside = record {
    at = λ w h.
        ends (st.delete (take n rest) w.bucket) (count_call w) h.0.0
          (λ j out.
            st.delete_leaves (take n rest) w.bucket j (mem-take n j rest (inside j out))
            ∙ h.0.1 j out)
          (λ j e. st.delete_adds_none (take n rest) w.bucket j (h.0.2 j e))
          (λ all j named out. elim (Bool-cases (mem j rest)) [
            | inl e ↦ st.delete_removes (take n rest) w.bucket j all (mem-drop n j rest e out)
            | inr e ↦ st.delete_adds_none (take n rest) w.bucket j (h.1 j named e)
          ]);
  }
    where
      ends :
          (r : Bool × st.Bucket) (w : World st)
          → w.server ≡ s₀
          → ((j : String) → mem j keys ≡ false → st.holds r.1 j ≡ st.holds b₀ j)
          → ((j : String) → st.holds b₀ j ≡ false → st.holds r.1 j ≡ false)
          → (r.0 ≡ true
              → (j : String) → mem j keys ≡ true
              → mem j (drop n rest) ≡ false
              → st.holds r.1 j ≡ false)
          → Ends (λ _. Stored st (Left (drop n rest))) (λ _. Stored st Confined) (delete_with r w)
      ends (true, b) w e out none_new gone = ((e, out, none_new), gone refl)
      ends (false, b) w e out none_new gone = (e, out, none_new)

  pub delete_objects-Left :
      (rounds : ℕ) (rest : List String)
      → length rest ≤ rounds
      → ((j : String) → mem j keys ≡ false → mem j rest ≡ false)
      → Triple
          (Stored st (Left rest))
          (delete_objects rounds rest)
          (λ _. Stored st (Left []))
          (λ _. Stored st Confined)
  unfolding delete_objects
  delete_objects-Left zero [] enough inside = Triple-pure (λ _. Stored st (Left [])) tt
  delete_objects-Left (suc rounds) [] enough inside = Triple-pure (λ _. Stored st (Left [])) tt
  delete_objects-Left zero (key ∷ rest) enough inside = absurd (omega arith)
  delete_objects-Left (suc rounds) (key ∷ rest) enough inside =
      Triple-bind _ (λ _. Stored st (Left (key ∷ rest))) _ _ _
        (Triple-imp (λ w h. h) (λ _ w h. h) (λ _ w h. h.0) (spend-Stored (Left (key ∷ rest))))
        λ _. Triple-bind _ _ _ _ _ (delete_call-Left r2_delete_batch_size (key ∷ rest) inside) λ _.
          delete_objects-Left rounds (drop r2_delete_batch_size (key ∷ rest))
            (omega (arith, length-drop r2_delete_batch_size (key ∷ rest)))
            (λ j out. mem-drop-false r2_delete_batch_size j (key ∷ rest) (inside j out))

mem-keep_ne :
    (j k : String) (ks : List String)
    → same k j ≡ false
    → mem j (keep (λ x. not (same x k)) ks) ≡ mem j ks
mem-keep_ne j k [] h = refl
mem-keep_ne j k (x ∷ ks) h = elim (Bool-cases (same x k)) [
  | inl e ↦
      let f : x ≡ k = (same_iff x k).0 e in
      let g : same x j ≡ false = rw f h in
      rw (keep-false (λ y. not (same y k)) x ks (rw e refl), exists, g) (mem-keep_ne j k ks h)
  | inr e ↦ rw (keep-true (λ y. not (same y k)) x ks (rw e refl)) (
      ap (λ (t : Bool). elim (same x j) as (λ _. Bool) [ true ↦ true | false ↦ t ])
        (mem-keep_ne j k ks h))
]

-- Dropping duplicates loses no key.
pub mem-distinct : (j : String) (ks : List String) → mem j (distinct ks) ≡ mem j ks
unfolding distinct
mem-distinct j [] = refl
mem-distinct j (k ∷ ks) = elim (Bool-cases (same k j)) [
  | inl e ↦ rw (exists, e) refl
  | inr e ↦ rw (exists, e) (mem-keep_ne j k (distinct ks) e ∙ mem-distinct j ks)
]
