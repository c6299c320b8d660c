-- ===== src/Client/Uploader/Replaced.antt =====
-- One worker changes, and each part stays accounted for.
use mathlib.Core.Path.{subst}
use mathlib.Core.List.{Perm}
use mathlib.Core.List.Perm
use anzdrop.Base.{ℕ, Bool, ◌≡◌, ◌≢◌, inl, inr, sym, Option, none, some, List, [], ◌∷◌, ◌++◌}
use anzdrop.Client.Repartition.{Part}
use anzdrop.Client.Uploader.{
  UploadError, Worker, reading, sending_direct, sending_proxy, finished, Pool, worker_at,
  set_worker, loop_top,
}
use anzdrop.Client.Uploader.Steps.{held, Accounts}
use anzdrop.Client.Uploader.Held.{
  held-loop_top, loop_top_open, others, held_at, held_set, at_set, none_at_set, all_parts,
  with_held, in_held, in_lost,
}

module _ (parts : List Part) where
  -- A worker's place is taken by another state of it, and the shared variables change.
  pub replaced :
      (w : Pool) (i : ℕ) (u v : Worker) (s r l : List Part) (e : Option UploadError) (d : Bool)
      (o : Accounts parts w)
      → worker_at i w.workers ≡ some u
      → Perm
          (all_parts s (held v ++ others i w.workers) r l)
          (all_parts w.sent (held u ++ others i w.workers) w.remaining o.lost)
      → (e ≡ none → (w.first_error ≡ none) × (l ≡ []))
      → (e ≡ none → v ≡ finished → r ≡ [])
      → (e ≡ none → w.remaining ≡ [] → r ≡ [])
      → Accounts parts (record {
        remaining = r;
        workers = set_worker i v w.workers;
        first_error = e;
        direct_unavailable = d;
        sent = s;
      })
  replaced w i u v s r l e d o at p clean done stays = record {
    lost = l;
    each_part = Perm.trans (with_held s _ _ r l (held_set i w.workers u v at)) (
        Perm.trans p (
          Perm.trans
            (Perm.symm (with_held w.sent _ _ w.remaining o.lost (held_at i w.workers u at)))
            o.each_part));
    none_lost = λ q. (clean q).1;
    read_out = λ j f q. elim (at_set i j w.workers v finished f) [
      | inl same ↦ done q same
      | inr old ↦ stays q (o.read_out j old ((clean q).0))
    ];
    staffed = λ q. o.staffed (none_at_set i 0 w.workers v q);
  }

  pub to_others :
      (w : Pool) (i : ℕ) (u v : Worker) (e : Option UploadError) (d : Bool) (o : Accounts parts w)
      → worker_at i w.workers ≡ some u
      → Perm (held v) (held u)
      → (e ≡ none → w.first_error ≡ none)
      → (e ≡ none → v ≢ finished)
      → Accounts parts (record {
        remaining = w.remaining;
        workers = set_worker i v w.workers;
        first_error = e;
        direct_unavailable = d;
        sent = w.sent;
      })
  to_others w i u v e d o at p clean open_yet =
      replaced w i u v w.sent w.remaining o.lost e d o at
        (with_held w.sent _ _ w.remaining o.lost (Perm.append_right (others i w.workers) p))
        (λ q. (clean q, o.none_lost (clean q))) (λ q f. absurd (open_yet q f)) (λ _ r. r)

  -- A worker leaves after an error, and the part that it has is lost.
  pub leaves :
      (w : Pool) (i : ℕ) (u v : Worker) (e : Option UploadError) (o : Accounts parts w)
      → worker_at i w.workers ≡ some u
      → held v ≡ []
      → e ≢ none
      → Accounts parts (record {
        remaining = w.remaining;
        workers = set_worker i v w.workers;
        first_error = e;
        direct_unavailable = w.direct_unavailable;
        sent = w.sent;
      })
  leaves w i u v e o at none_held failed =
      replaced w i u v w.sent w.remaining (held u ++ o.lost) e w.direct_unavailable o at
        (subst
          (λ (h : List Part).
            Perm (all_parts w.sent (h ++ others i w.workers) w.remaining (held u ++ o.lost))
              (all_parts w.sent (held u ++ others i w.workers) w.remaining o.lost))
          (sym none_held) (dropped u))
        (λ q. absurd (failed q)) (λ q. absurd (failed q)) (λ q. absurd (failed q))
    where
      dropped :
          (x : Worker)
          → Perm
              (all_parts w.sent (others i w.workers) w.remaining (held x ++ o.lost))
              (all_parts w.sent (held x ++ others i w.workers) w.remaining o.lost)
      dropped reading = Perm.rfl
      dropped finished = Perm.rfl
      dropped (sending_direct p) =
          Perm.trans (in_lost p w.sent (others i w.workers) w.remaining o.lost)
            (Perm.symm (in_held p w.sent (others i w.workers) w.remaining o.lost))
      dropped (sending_proxy p) =
          Perm.trans (in_lost p w.sent (others i w.workers) w.remaining o.lost)
            (Perm.symm (in_held p w.sent (others i w.workers) w.remaining o.lost))

  pub reported :
      (w : Pool) (i : ℕ) (u : Worker) (p : Part) (o : Accounts parts w)
      → worker_at i w.workers ≡ some u
      → held u ≡ p ∷ []
      → Accounts parts (record {
        remaining = w.remaining;
        workers = set_worker i (loop_top w.first_error) w.workers;
        first_error = w.first_error;
        direct_unavailable = w.direct_unavailable;
        sent = p ∷ w.sent;
      })
  reported w i u p o at has =
      replaced w i u (loop_top w.first_error) (p ∷ w.sent) w.remaining o.lost w.first_error
        w.direct_unavailable o at
        (subst
          (λ (h : List Part).
            Perm (all_parts (p ∷ w.sent) (h ++ others i w.workers) w.remaining o.lost)
              (all_parts w.sent (held u ++ others i w.workers) w.remaining o.lost))
          (sym (held-loop_top w.first_error))
          (subst
            (λ (h : List Part).
              Perm (all_parts (p ∷ w.sent) (others i w.workers) w.remaining o.lost)
                (all_parts w.sent (h ++ others i w.workers) w.remaining o.lost))
            (sym has) (Perm.symm (in_held p w.sent (others i w.workers) w.remaining o.lost))))
        (λ q. (q, o.none_lost q)) (λ q f. absurd (loop_top_open w.first_error q f)) (λ _ r. r)
