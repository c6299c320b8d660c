-- ===== src/Client/Uploader/Accounted.antt =====
-- Whatever the workers do, each part is accounted for.
use mathlib.Core.Path.{subst}
use mathlib.Core.List.{Perm}
use mathlib.Core.List.Perm
use anzdrop.Base.{◌≢◌, by_option, ℕ, true, ◌≡◌, refl, sym, none, some, List, [], ◌∷◌, ◌++◌}
use anzdrop.Client.Repartition.{Part}
use anzdrop.Client.Uploader.{
  PartEnd, uploaded, returned, threw, UploadMode, reading, sending_direct, sending_proxy, finished,
  Pool, worker_at, set_worker, loop_top, route, part_read, read_failed, direct_ended, proxy_ended,
}
use anzdrop.Client.Uploader.Steps.{
  Step, was_read, was_not_read, was_put, was_sent, Reaches, here, next, Accounts,
}
use anzdrop.Client.Uploader.Held.{
  held-loop_top, held-route, route_open, some_error, others, all_parts, in_held, in_remaining,
  in_lost,
}
use anzdrop.Client.Uploader.GivenUp.{proxy_given_up, direct_given_up}
use anzdrop.Client.Uploader.Replaced.{replaced, to_others, leaves, reported}

module _ (parts : List Part) where
  direct_ended-Accounts :
      (w : Pool) (i : ℕ) (p : Part) (end : PartEnd)
      → worker_at i w.workers ≡ some (sending_direct p)
      → (end ≡ returned → w.first_error ≢ none)
      → Accounts parts w
      → Accounts parts (direct_ended i p end w)
  unfolding direct_ended
  direct_ended-Accounts w i p uploaded at _ o = reported parts w i (sending_direct p) p o at refl
  direct_ended-Accounts w i p returned at failed o =
      leaves parts w i (sending_direct p) (loop_top w.first_error) w.first_error o at
        (held-loop_top w.first_error) (failed refl)
  direct_ended-Accounts w i p threw at _ o =
      by_option (Accounts parts) w.first_error _ _
        (λ clean.
          to_others parts w i (sending_direct p) (sending_proxy p) w.first_error true o at Perm.rfl
            (λ q. q) (λ _ f. cc (f)))
        (λ e known.
          leaves parts w i (sending_direct p) finished w.first_error o at refl (λ q. cc (known, q)))

  proxy_ended-Accounts :
      (w : Pool) (i : ℕ) (p : Part) (end : PartEnd)
      → worker_at i w.workers ≡ some (sending_proxy p)
      → (end ≡ returned → w.first_error ≢ none)
      → Accounts parts w
      → Accounts parts (proxy_ended i p end w)
  unfolding proxy_ended
  proxy_ended-Accounts w i p uploaded at _ o = reported parts w i (sending_proxy p) p o at refl
  proxy_ended-Accounts w i p returned at failed o =
      leaves parts w i (sending_proxy p) (loop_top w.first_error) w.first_error o at
        (held-loop_top w.first_error) (failed refl)
  proxy_ended-Accounts w i p threw at _ o =
      leaves parts w i (sending_proxy p) finished _ o at refl (some_error _)

  part_read-Accounts :
      (mode : UploadMode) (w : Pool) (i : ℕ)
      → worker_at i w.workers ≡ some reading
      → Accounts parts w
      → Accounts parts (part_read mode i w)
  unfolding part_read
  part_read-Accounts mode w i at o = from_remaining w.remaining refl
    where
      from_remaining :
          (remaining : List Part)
          → w.remaining ≡ remaining
          → Accounts parts (elim remaining [
            | [] ↦ record {
              remaining = w.remaining;
              workers = set_worker i finished w.workers;
              first_error = w.first_error;
              direct_unavailable = w.direct_unavailable;
              sent = w.sent;
            }
            | p ∷ rest ↦ elim w.first_error [
              | some e ↦ record {
                remaining = rest;
                workers = set_worker i finished w.workers;
                first_error = w.first_error;
                direct_unavailable = w.direct_unavailable;
                sent = w.sent;
              }
              | none ↦ record {
                remaining = rest;
                workers = set_worker i (route mode w.direct_unavailable p) w.workers;
                first_error = w.first_error;
                direct_unavailable = w.direct_unavailable;
                sent = w.sent;
              }
            ]
          ])
      from_remaining [] empty =
          replaced parts w i reading finished w.sent w.remaining o.lost w.first_error
            w.direct_unavailable o at Perm.rfl (λ q. (q, o.none_lost q)) (λ _ _. empty) (λ _ r. r)
      from_remaining (p ∷ rest) first =
          by_option (Accounts parts) w.first_error _ _
            (λ clean.
              replaced parts w i reading (route mode w.direct_unavailable p) w.sent rest o.lost
                w.first_error w.direct_unavailable o at
                (subst
                  (λ (h : List Part).
                    Perm (all_parts w.sent (h ++ others i w.workers) rest o.lost)
                      (all_parts w.sent (others i w.workers) w.remaining o.lost))
                  (sym (held-route mode w.direct_unavailable p))
                  (Perm.trans (in_held p w.sent (others i w.workers) rest o.lost)
                    (taken p rest first)))
                (λ q. (q, o.none_lost q)) (λ _ f. absurd (route_open mode w.direct_unavailable p f))
                (λ _ r. absurd (cc (r, first))))
            (λ e known.
              replaced parts w i reading finished w.sent rest (p ∷ o.lost) w.first_error
                w.direct_unavailable o at
                (Perm.trans (in_lost p w.sent (others i w.workers) rest o.lost)
                  (taken p rest first))
                (λ q. absurd (cc (known, q))) (λ q. absurd (cc (known, q)))
                (λ q. absurd (cc (known, q))))
        where
          taken :
              (p : Part) (rest : List Part)
              → w.remaining ≡ p ∷ rest
              → Perm
                  (p ∷ all_parts w.sent (others i w.workers) rest o.lost)
                  (all_parts w.sent (others i w.workers) w.remaining o.lost)
          taken p rest e =
              subst
                (λ (r : List Part).
                  Perm (p ∷ all_parts w.sent (others i w.workers) rest o.lost)
                    (all_parts w.sent (others i w.workers) r o.lost))
                (sym e) (Perm.symm (in_remaining p w.sent (others i w.workers) rest o.lost))

  read_failed-Accounts :
      (w : Pool) (i : ℕ)
      → worker_at i w.workers ≡ some reading
      → Accounts parts w
      → Accounts parts (read_failed i w)
  unfolding read_failed
  read_failed-Accounts w i at o = leaves parts w i reading finished _ o at refl (some_error _)

  module _ (mode : UploadMode) (max_attempts : ℕ) where
    Step-Accounts : {v w : Pool} → Step mode max_attempts v w → Accounts parts v → Accounts parts w
    Step-Accounts (was_read w i at) o = part_read-Accounts mode w i at o
    Step-Accounts (was_not_read w i at) o = read_failed-Accounts w i at o
    Step-Accounts (was_put w i p puts acks at seen_puts seen_acks) o =
        direct_ended-Accounts w i p _ at
          (direct_given_up w.first_error max_attempts puts acks seen_puts seen_acks) o
    Step-Accounts (was_sent w i p rounds at seen) o =
        proxy_ended-Accounts w i p _ at (proxy_given_up w.first_error max_attempts rounds seen) o

    pub Reaches-Accounts :
        {v w : Pool} → Reaches mode max_attempts v w → Accounts parts v → Accounts parts w
    Reaches-Accounts here o = o
    Reaches-Accounts (next r s) o = Step-Accounts s (Reaches-Accounts r o)
