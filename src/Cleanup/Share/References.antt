-- ===== src/Cleanup/Share/References.antt =====
-- The query of `deleteShare` for files outside the snapshot that name its objects.
use mathlib.Core.Path.{subst}
use anzdrop.Base.{
  String, Bool, true, false, not, ◌&&◌, ◌≡◌, refl, sym, ap, ◌∙◌, Option, none, some, List, [], ◌∷◌,
  find, arith,
}
use anzdrop.Base.Member.{find-none}
use anzdrop.Server.State.{Server, File}
use anzdrop.Cleanup.World.{Storage, mem}
use anzdrop.Cleanup.Triple.{
  Triple, Triple-pure, Triple-throw, Triple-bind, Triple-query, Triple-imp, Triple-fact,
}
use anzdrop.Cleanup.Share.{check_references, refuse_reference}
use anzdrop.Cleanup.Share.Objects.{Before}
use anzdrop.Cleanup.Share.Tracked.{snapshot_keys, file_ids, Covers}

and_not-false : (a b : Bool) → a ≡ true → (a && not b) ≡ false → b ≡ true
and_not-false a b h g = ground arith

module _ (st : Storage) (s₀ : Server) (b₀ : st.Bucket) (share_id : String) where
  Covers-of_none :
      (keys : List String)
      → keys ≡ snapshot_keys share_id s₀
      → find (λ f. mem f.storage_key keys && not (mem f.id (file_ids share_id s₀))) s₀.files ≡ none
      → Covers share_id s₀
  Covers-of_none keys e h f m named =
      and_not-false (mem f.storage_key keys) (mem f.id (file_ids share_id s₀))
        (subst (λ (ks : List String). mem f.storage_key ks ≡ true) (sym e) named)
        (find-none (λ (f : File). mem f.storage_key keys && not (mem f.id (file_ids share_id s₀))) f
          s₀.files h m)

  refuse_reference-Before :
      (row : Option File)
      → (row ≡ none → Covers share_id s₀)
      → Triple
          (Before st s₀ b₀)
          (refuse_reference row)
          (λ _ w. Before st s₀ b₀ w × Covers share_id s₀)
          (λ _. Before st s₀ b₀)
  refuse_reference-Before none h =
      Triple-imp (λ w p. (p, h refl)) (λ _ w p. p) (λ _ w p. p)
        (Triple-pure {E = λ _. Before st s₀ b₀} (λ _ w. Before st s₀ b₀ w × Covers share_id s₀) tt)
  refuse_reference-Before (some f) h =
      Triple-throw (λ _ w. Before st s₀ b₀ w × Covers share_id s₀) _

  pub references-Before :
      (keys : List String)
      → keys ≡ snapshot_keys share_id s₀
      → Triple
          (Before st s₀ b₀)
          (check_references keys (file_ids share_id s₀))
          (λ _ w. Before st s₀ b₀ w × Covers share_id s₀)
          (λ _. Before st s₀ b₀)
  unfolding check_references
  references-Before [] e =
      Triple-imp
        (λ w p. (
          p,
          λ f m h.
              absurd (cc (subst (λ (ks : List String). mem f.storage_key ks ≡ true) (sym e) h)),
        ))
        (λ _ w p. p) (λ _ w p. p)
        (Triple-pure {E = λ _. Before st s₀ b₀} (λ _ w. Before st s₀ b₀ w × Covers share_id s₀) tt)
  references-Before (key ∷ keys) e =
      Triple-bind (Before st s₀ b₀) (λ row w. Before st s₀ b₀ w × (row ≡ none → Covers share_id s₀))
        _ _ _
        (Triple-imp (λ w p. p)
          (λ row w p. (
            p.0,
            λ missing. Covers-of_none (key ∷ keys) e (
                ap
                  (λ (s : Server).
                    find
                      (λ f. mem f.storage_key (key ∷ keys) && not (mem f.id (file_ids share_id s₀)))
                      s.files)
                  (sym p.0.0)
                ∙ sym p.1
                ∙ missing),
          ))
          (λ _ w p. p)
          (Triple-query (λ s b. (s ≡ s₀) × ((j : String) → st.holds b j ≡ st.holds b₀ j)) _))
        λ row. Triple-fact (Before st s₀ b₀) _ _ _ _ (refuse_reference-Before row)
