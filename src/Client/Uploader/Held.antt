-- ===== src/Client/Uploader/Held.antt =====
-- The parts that the workers have, when one of them changes.
use mathlib.Core.Path.{subst}
use mathlib.Core.List.{Perm, perm_middle, perm_append_comm}
use mathlib.Core.List.Perm
use anzdrop.Base.{
  Option, none, some, Bool, true, false, ◌≢◌, ℕ, zero, suc, ◌≡◌, ◌⊎◌, inl, inr, refl, List, [], ◌∷◌,
  ◌++◌, append_assoc,
}
use anzdrop.Client.Repartition.{Part}
use anzdrop.Client.Uploader.{
  finished, direct, proxy, UploadMode, UploadError, loop_top, route, Worker, worker_at, set_worker,
}
use anzdrop.Client.Uploader.Steps.{held, all_held}

-- The parts that the other workers have.
unfoldable pub others : ℕ → List Worker → List Part
others i [] = []
others zero (v ∷ workers) = all_held workers
others (suc i) (v ∷ workers) = held v ++ others i workers

-- The order of two lists at the front does not matter.
front : (xs ys zs rest : List Part) → Perm rest (ys ++ zs) → Perm (xs ++ rest) (ys ++ (xs ++ zs))
front xs ys zs rest p = Perm.trans (Perm.append_left xs p) (
    subst (λ (l : List Part). Perm l (ys ++ (xs ++ zs))) (append_assoc xs ys zs)
      (subst (λ (l : List Part). Perm ((xs ++ ys) ++ zs) l) (append_assoc ys xs zs)
        (Perm.append_right zs (perm_append_comm xs ys))))

pub held_at :
    (i : ℕ) (workers : List Worker) (u : Worker)
    → worker_at i workers ≡ some u
    → Perm (all_held workers) (held u ++ others i workers)
unfolding worker_at all_held others
held_at i [] u e = absurd (cc (e))
held_at zero (v ∷ workers) u e =
    let q : v ≡ u = cc (e) in
    subst (λ (x : Worker). Perm (held v ++ all_held workers) (held x ++ all_held workers)) q
      Perm.rfl
held_at (suc i) (v ∷ workers) u e =
    front (held v) (held u) (others i workers) (all_held workers) (held_at i workers u e)

pub held_set :
    (i : ℕ) (workers : List Worker) (u v : Worker)
    → worker_at i workers ≡ some u
    → Perm (all_held (set_worker i v workers)) (held v ++ others i workers)
unfolding worker_at set_worker all_held others
held_set i [] u v e = absurd (cc (e))
held_set zero (x ∷ workers) u v e = Perm.rfl
held_set (suc i) (x ∷ workers) u v e =
    front (held x) (held v) (others i workers) (all_held (set_worker i v workers))
      (held_set i workers u v e)

pub at_set :
    (i j : ℕ) (workers : List Worker) (v x : Worker)
    → worker_at j (set_worker i v workers) ≡ some x
    → (v ≡ x) ⊎ (worker_at j workers ≡ some x)
unfolding worker_at set_worker
at_set i j [] v x e = absurd (cc (e))
at_set zero zero (y ∷ workers) v x e = inl (cc (e))
at_set zero (suc j) (y ∷ workers) v x e = inr e
at_set (suc i) zero (y ∷ workers) v x e = inr e
at_set (suc i) (suc j) (y ∷ workers) v x e = at_set i j workers v x e

abbrev pub all_parts : (sent h remaining lost : List Part) → List Part
all_parts sent h remaining lost = sent ++ (h ++ (remaining ++ lost))

pub with_held : (s h k r l : List Part) → Perm h k → Perm (all_parts s h r l) (all_parts s k r l)
with_held s h k r l p = Perm.append_left s (Perm.append_right (r ++ l) p)

pub in_held :
    (p : Part) (s h r l : List Part) → Perm (all_parts s (p ∷ h) r l) (p ∷ all_parts s h r l)
in_held p s h r l = perm_middle s (h ++ (r ++ l))

pub in_remaining :
    (p : Part) (s h r l : List Part) → Perm (all_parts s h (p ∷ r) l) (p ∷ all_parts s h r l)
in_remaining p s h r l =
    Perm.trans (Perm.append_left s (perm_middle h (r ++ l))) (perm_middle s (h ++ (r ++ l)))

pub in_lost :
    (p : Part) (s h r l : List Part) → Perm (all_parts s h r (p ∷ l)) (p ∷ all_parts s h r l)
in_lost p s h r l =
    Perm.trans (Perm.append_left s (Perm.append_left h (perm_middle r l))) (in_remaining p s h r l)

pub none_at_set :
    (i j : ℕ) (workers : List Worker) (v : Worker)
    → worker_at j (set_worker i v workers) ≡ none
    → worker_at j workers ≡ none
unfolding worker_at set_worker
none_at_set i j [] v e = refl
none_at_set zero zero (y ∷ workers) v e = absurd (cc (e))
none_at_set zero (suc j) (y ∷ workers) v e = e
none_at_set (suc i) zero (y ∷ workers) v e = absurd (cc (e))
none_at_set (suc i) (suc j) (y ∷ workers) v e = none_at_set i j workers v e

pub held-loop_top : (e : Option UploadError) → held (loop_top e) ≡ []
held-loop_top none = refl
held-loop_top (some e) = refl

pub loop_top_open : (e : Option UploadError) → e ≡ none → loop_top e ≢ finished
loop_top_open none q f = cc (f)
loop_top_open (some e) q f = cc (q)

pub held-route : (mode : UploadMode) (d : Bool) (p : Part) → held (route mode d p) ≡ p ∷ []
held-route proxy d p = refl
held-route direct true p = refl
held-route direct false p = refl

pub route_open : (mode : UploadMode) (d : Bool) (p : Part) → route mode d p ≢ finished
route_open proxy d p f = cc (f)
route_open direct true p f = cc (f)
route_open direct false p f = cc (f)

pub some_error : (e : UploadError) → some e ≢ none
some_error e q = cc (q)
