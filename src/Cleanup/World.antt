-- ===== src/Cleanup/World.antt =====
-- What a clean-up runs on: the tables, the bucket, the ceilings of lib/storage/cleanupBudget.ts, and the
-- failures of D1 that are to come. R2 is a parameter. No other request runs during one clean-up.
use anzdrop.Base.{
  ℕ, zero, suc, String, Bool, true, false, ◌≡◌, Option, List, [], ◌∷◌, drop, exists, ltb, ◌||◌,
  same, if◌then◌else◌,
}
use anzdrop.Server.State.{Server}

abbrev pub mem : String → List String → Bool
mem key keys = exists (λ k. same k key) keys

pub data CleanupError : Type 0 where
  work_limit_reached deletion_deferred needs_reconciliation invalid_limits : CleanupError
  storage_failure database_failure : CleanupError

-- How R2 answers an abort; an error that ends in its code 10024 says that the upload is not there.
pub data AbortAnswer : Type 0 where
  aborted missing_upload abort_failed : AbortAnswer

pub data HeadAnswer : Type 0 where
  head_failed : HeadAnswer
  object_found : Bool → HeadAnswer

-- R2. An abort touches no object, a look changes nothing and tells the truth, a deletion removes
-- the objects that it is given and no others; a deletion that fails may have removed some.
pub record Storage : Type 1 where
  pub Bucket : Type 0
  pub holds : Bucket → String → Bool
  pub abort : (storage_key upload_id : String) → Bucket → AbortAnswer × Bucket
  pub head : (storage_key : String) → Bucket → HeadAnswer × Bucket
  pub delete : List String → Bucket → Bool × Bucket
  pub holds-abort : (k u : String) (b : Bucket) (j : String) → holds (abort k u b).1 j ≡ holds b j
  pub holds-head : (k : String) (b : Bucket) (j : String) → holds (head k b).1 j ≡ holds b j
  pub head_true :
      (k : String) (b : Bucket) (x : Bool) → (head k b).0 ≡ object_found x → holds b k ≡ x
  pub delete_removes :
      (ks : List String) (b : Bucket) (j : String)
      → (delete ks b).0 ≡ true
      → mem j ks ≡ true
      → holds (delete ks b).1 j ≡ false
  pub delete_leaves :
      (ks : List String) (b : Bucket) (j : String)
      → mem j ks ≡ false
      → holds (delete ks b).1 j ≡ holds b j
  pub delete_adds_none :
      (ks : List String) (b : Bucket) (j : String)
      → holds b j ≡ false
      → holds (delete ks b).1 j ≡ false

-- `faults` says of each of the next calls of D1 whether it throws; past its end none does.
-- `budgets` holds what remains of the ceilings in force, the innermost first, and `calls` counts the
-- statements prepared and the operations made of R2, where they are made.
pub record World (st : Storage) : Type 0 where
  pub server : Server
  pub bucket : st.Bucket
  pub faults : List Bool
  pub budgets : List ℕ
  pub calls : ℕ

-- What an async function does: it returns or throws.
pub data Result {ℓ} (A : Type ℓ) : Type ℓ where
  done : A → Result A
  thrown : CleanupError → Result A

-- `consume` of each ceiling, the innermost first.
unfoldable pub consume : List ℕ → Bool × List ℕ
consume [] = (true, [])
consume (zero ∷ outer) = (false, zero ∷ outer)
consume (suc n ∷ outer) = let (room, left) = consume outer in (room, n ∷ left)

abbrev pub default_work_limit : ℕ
default_work_limit = 900

abbrev pub work_limit_of : Option ℕ → ℕ
work_limit_of Option.none = default_work_limit
work_limit_of (Option.some n) = n

abbrev pub Job : Storage → Type 0 → Type 0
Job st A = World st → Result A × World st

module _ {st : Storage} where
  abbrev pub set_server : Server → World st → World st
  set_server s w = record {
    server = s;
    bucket = w.bucket;
    faults = w.faults;
    budgets = w.budgets;
    calls = w.calls;
  }

  abbrev pub set_bucket : st.Bucket → World st → World st
  set_bucket b w = record {
    server = w.server;
    bucket = b;
    faults = w.faults;
    budgets = w.budgets;
    calls = w.calls;
  }

  abbrev pub set_budgets : List ℕ → World st → World st
  set_budgets budgets w = record {
    server = w.server;
    bucket = w.bucket;
    faults = w.faults;
    budgets = budgets;
    calls = w.calls;
  }

  abbrev pub set_faults : List Bool → World st → World st
  set_faults faults w = record {
    server = w.server;
    bucket = w.bucket;
    faults = faults;
    budgets = w.budgets;
    calls = w.calls;
  }

  abbrev pub count_call : World st → World st
  count_call w = record {
    server = w.server;
    bucket = w.bucket;
    faults = w.faults;
    budgets = w.budgets;
    calls = suc w.calls;
  }

  unfoldable pub pure : {A : Type 0} → A → Job st A
  pure a w = (done a, w)

  unfoldable pub throw : {A : Type 0} → CleanupError → Job st A
  throw e w = (thrown e, w)

  abbrev pub continue : {A B : Type 0} → (A → Job st B) → Result A × World st → Result B × World st
  continue f (done a, w) = f a w
  continue f (thrown e, w) = (thrown e, w)

  infixl 5 ◌>>=◌ ◌>>◌
  unfoldable pub ◌>>=◌ : {A B : Type 0} → Job st A → (A → Job st B) → Job st B
  ◌>>=◌ m f w = continue f (m w)

  abbrev pub ◌>>◌ : {B : Type 0} → Job st (Unit {0}) → Job st B → Job st B
  m >> k = m >>= λ _. k

  abbrev pub counted : Bool × List ℕ → World st → Result (Unit {0}) × World st
  counted (true, budgets) w = (done tt, set_budgets budgets w)
  counted (false, budgets) w = (thrown work_limit_reached, set_budgets budgets w)

  -- The ceilings' `consume`, before a statement is prepared or an operation of R2 starts.
  unfoldable pub spend : Job st (Unit {0})
  spend w = counted (consume w.budgets) w

  abbrev pub after_fault : List Bool → World st → Result (Unit {0}) × World st
  after_fault [] w = (done tt, w)
  after_fault (true ∷ faults) w = (thrown database_failure, set_faults faults w)
  after_fault (false ∷ faults) w = (done tt, set_faults faults w)

  -- A call of D1, which may throw before it has done anything.
  unfoldable pub call_database : Job st (Unit {0})
  call_database w = after_fault w.faults w

  unfoldable pub read : {A : Type 0} → (Server → A) → Job st A
  read f w = (done (f w.server), w)

  unfoldable pub write : (Server → Server) → Job st (Unit {0})
  write f w = (done tt, set_server (f w.server) w)

  -- A statement that is prepared in the database behind the ceilings.
  unfoldable pub prepare_call : Job st (Unit {0})
  prepare_call w = (done tt, count_call w)

  -- `prepare` of the budgeted database.
  unfoldable pub prepare : Job st (Unit {0})
  prepare = do spend; prepare_call

  -- `prepare(...).bind(...).all()` or `.first()`.
  unfoldable pub query : {A : Type 0} → (Server → A) → Job st A
  query f = do prepare; call_database; read f

  -- A `batch` of so many statements, which D1 makes as one transaction.
  unfoldable pub prepare_times : ℕ → Job st (Unit {0})
  prepare_times zero = pure tt
  prepare_times (suc n) = do prepare; prepare_times n

  unfoldable pub batch : ℕ → (Server → Server) → Job st (Unit {0})
  batch n f = do prepare_times n; call_database; write f

  abbrev pub close_budget : {A : Type 0} → Result A × World st → Result A × World st
  close_budget (r, w) = (r, set_budgets (drop 1 w.budgets) w)

  -- `budgetCleanup` for the rest of a function.
  unfoldable pub within_budget : {A : Type 0} → Option ℕ → Job st A → Job st A
  within_budget limit m w =
      if ltb (work_limit_of limit) 1 || ltb 900 (work_limit_of limit)
      then (thrown invalid_limits, w)
      else close_budget (m (set_budgets (work_limit_of limit ∷ w.budgets) w))
