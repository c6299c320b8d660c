-- ===== src/Client/Uploader/Steps.antt =====
-- The workers in any order, as a relation of steps, and what becomes of the parts.
use mathlib.Core.List.{Perm}
use anzdrop.Base.{ℕ, true, ◌⊎◌, ◌≡◌, ◌≢◌, Option, none, some, List, [], ◌∷◌, ◌++◌}
use anzdrop.Client.Repartition.{Part}
use anzdrop.Client.Uploader.{
  Round, PutResponse, upload_part_proxy, upload_part_direct, UploadMode, UploadError, Worker,
  reading, sending_direct, sending_proxy, finished, Pool, worker_at, part_read, read_failed,
  direct_ended, proxy_ended,
}

-- What the rounds of a part have seen of the shared variables, by what these are when the part ends: an
-- error that was seen is still there, since none is taken back, and waits are aborted by `stop` alone.
abbrev pub HasSeen : {A : Type 0} → Option UploadError → (ℕ → Round A) → Type 0
HasSeen error rounds =
    (k : ℕ)
    → ((rounds k).stopped_before ≡ true)
      ⊎ ((rounds k).stopped_after ≡ true)
      ⊎ ((rounds k).wait_aborted ≡ true)
    → error ≢ none

pub data Step (mode : UploadMode) (max_attempts : ℕ) : Pool → Pool → Type 0 where
  was_read :
      (w : Pool) (i : ℕ)
      → worker_at i w.workers ≡ some reading
      → Step mode max_attempts w (part_read mode i w)
  was_not_read :
      (w : Pool) (i : ℕ)
      → worker_at i w.workers ≡ some reading
      → Step mode max_attempts w (read_failed i w)
  was_put :
      (w : Pool) (i : ℕ) (p : Part) (puts : ℕ → Round PutResponse) (acks : List ℕ → ℕ → Round ℕ)
      → worker_at i w.workers ≡ some (sending_direct p)
      → HasSeen w.first_error puts
      → ((etag : List ℕ) → HasSeen w.first_error (acks etag))
      → Step mode max_attempts w (direct_ended i p (upload_part_direct max_attempts puts acks) w)
  was_sent :
      (w : Pool) (i : ℕ) (p : Part) (rounds : ℕ → Round ℕ)
      → worker_at i w.workers ≡ some (sending_proxy p)
      → HasSeen w.first_error rounds
      → Step mode max_attempts w (proxy_ended i p (upload_part_proxy max_attempts rounds) w)

pub data Reaches (mode : UploadMode) (max_attempts : ℕ) (w : Pool) : Pool → Type 0 where
  here : Reaches mode max_attempts w w
  next :
      {u v : Pool}
      → Reaches mode max_attempts w u
      → Step mode max_attempts u v
      → Reaches mode max_attempts w v

-- The parts that a worker has, and those that all have.
abbrev pub held : Worker → List Part
held reading = []
held (sending_direct p) = p ∷ []
held (sending_proxy p) = p ∷ []
held finished = []

unfoldable pub all_held : List Worker → List Part
all_held [] = []
all_held (v ∷ workers) = held v ++ all_held workers

-- Each part is sent, with a worker, still to come, or lost, and none is lost without an error.
pub record Accounts (parts : List Part) (w : Pool) : Type 0 where
  pub lost : List Part
  pub each_part : Perm (w.sent ++ (all_held w.workers ++ (w.remaining ++ lost))) parts
  pub none_lost : w.first_error ≡ none → lost ≡ []
  pub read_out :
      (i : ℕ) → worker_at i w.workers ≡ some finished → w.first_error ≡ none → w.remaining ≡ []
  pub staffed : worker_at 0 w.workers ≢ none
