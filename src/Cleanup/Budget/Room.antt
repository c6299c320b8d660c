-- ===== src/Cleanup/Budget/Room.antt =====
-- What remains of a ceiling, under each way to build a job.
use anzdrop.Base.{ℕ, zero, suc, ◌+◌, ◌≤◌, Bool, true, false, List, [], ◌∷◌, arith}
use anzdrop.Server.State.{Server}
use anzdrop.Cleanup.World.{
  Storage, World, CleanupError, Job, consume, counted, spend, after_fault, call_database, read,
  write, query, prepare_call, prepare, prepare_times, batch, pure, throw, ◌>>=◌,
}
use anzdrop.Cleanup.Triple.{Ends, Keeps, Triple, Triple-pure, Triple-throw, Triple-bind}

-- The calls made and those that the ceiling at a depth still allows are at most `limit`.
abbrev pub HasRoom : (limit depth calls : ℕ) → List ℕ → Type 0
HasRoom limit depth calls [] = ⊥
HasRoom limit zero calls (n ∷ outer) = calls + n ≤ limit
HasRoom limit (suc depth) calls (n ∷ outer) = HasRoom limit depth calls outer

-- What `consume` leaves, by whether it allows the call.
abbrev calls_after : ℕ → Bool → ℕ
calls_after calls true = suc calls
calls_after calls false = calls

HasRoom-consume :
    (limit depth calls : ℕ) (budgets : List ℕ)
    → HasRoom limit depth calls budgets
    → HasRoom limit depth (calls_after calls (consume budgets).0) (consume budgets).1
unfolding consume
HasRoom-consume limit depth calls [] h = h
HasRoom-consume limit zero calls (zero ∷ outer) h = h
HasRoom-consume limit (suc depth) calls (zero ∷ outer) h = h
HasRoom-consume limit zero calls (suc n ∷ outer) h = at_depth (consume outer)
  where
    at_depth : (r : Bool × List ℕ) → calls_after calls r.0 + n ≤ limit
    at_depth (true, left) = omega arith
    at_depth (false, left) = omega arith
HasRoom-consume limit (suc depth) calls (suc n ∷ outer) h =
    HasRoom-consume limit depth calls outer h

module _ {st : Storage} (limit depth : ℕ) where
  abbrev pub Room : World st → Type 0
  Room w = HasRoom limit depth w.calls w.budgets

  -- One call is paid for and not made.
  abbrev pub Paid : World st → Type 0
  Paid w = HasRoom limit depth (suc w.calls) w.budgets

  counted-Ends :
      (r : Bool × List ℕ) (w : World st)
      → HasRoom limit depth (calls_after w.calls r.0) r.1
      → Ends (λ _. Paid) (λ _. Room) (counted r w)
  counted-Ends (true, budgets) w h = h
  counted-Ends (false, budgets) w h = h

  pub spend-Paid : Triple Room spend (λ _. Paid) (λ _. Room)
  unfolding spend
  spend-Paid = record {
    at =
        λ w h. counted-Ends (consume w.budgets) w (HasRoom-consume limit depth w.calls w.budgets h);
  }

  after_fault-Ends :
      (faults : List Bool) (w : World st)
      → Room w
      → Ends (λ _. Room) (λ _. Room) (after_fault faults w)
  after_fault-Ends [] w h = h
  after_fault-Ends (true ∷ faults) w h = h
  after_fault-Ends (false ∷ faults) w h = h

  call_database-Room : Keeps Room call_database
  unfolding call_database
  call_database-Room = record { at = λ w h. after_fault-Ends w.faults w h }

  pub pure-Room : {A : Type 0} (a : A) → Keeps Room (pure a)
  pure-Room a = Triple-pure (λ _. Room) a

  pub throw-Room : {A : Type 0} (e : CleanupError) → Keeps Room (throw {A = A} e)
  throw-Room e = Triple-throw (λ _. Room) e

  pub bind-Room :
      {A B : Type 0} (m : Job st A) (f : A → Job st B)
      → Keeps Room m
      → ((a : A) → Keeps Room (f a))
      → Keeps Room (m >>= f)
  bind-Room m f km kf = Triple-bind Room (λ _. Room) (λ _. Room) m f km kf

  pub prepare-Room : Keeps Room prepare
  unfolding prepare prepare_call
  prepare-Room =
      Triple-bind Room (λ _. Paid) (λ _. Room) _ _ spend-Paid (λ _. record { at = λ w h. h })

  read-Room : {A : Type 0} (f : Server → A) → Keeps Room (read f)
  unfolding read
  read-Room f = record { at = λ w h. h }

  write-Room : (f : Server → Server) → Keeps Room (write f)
  unfolding write
  write-Room f = record { at = λ w h. h }

  pub query-Room : {A : Type 0} (f : Server → A) → Keeps Room (query f)
  unfolding query
  query-Room f =
      bind-Room _ _ prepare-Room (λ _. bind-Room _ _ call_database-Room (λ _. read-Room f))

  prepare_times-Room : (n : ℕ) → Keeps Room (prepare_times n)
  unfolding prepare_times
  prepare_times-Room zero = pure-Room tt
  prepare_times-Room (suc n) = bind-Room _ _ prepare-Room (λ _. prepare_times-Room n)

  pub batch-Room : (n : ℕ) (f : Server → Server) → Keeps Room (batch n f)
  unfolding batch
  batch-Room n f =
      bind-Room _ _ (prepare_times-Room n)
        (λ _. bind-Room _ _ call_database-Room (λ _. write-Room f))
