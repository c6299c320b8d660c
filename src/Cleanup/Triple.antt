-- ===== src/Cleanup/Triple.antt =====
-- What a job does to the world, by how it ends: one rule for each way to build one.
use anzdrop.Base.{◌≡◌, refl, Bool, true, false, List, [], ◌∷◌, if◌then◌else◌, ℕ, zero, suc}
use anzdrop.Server.State.{Server}
use anzdrop.Cleanup.World.{
  Storage, World, CleanupError, Result, done, thrown, Job, pure, throw, ◌>>=◌, spend, call_database,
  read, write, query, prepare_call, prepare, prepare_times, batch, counted, consume, continue,
  after_fault,
}

module _ {st : Storage} {A : Type 0} where
  abbrev pub Ends :
      (A → World st → Type 0) → (CleanupError → World st → Type 0) → Result A × World st → Type 0
  Ends Q E (done a, w) = Q a w
  Ends Q E (thrown e, w) = E e w

  -- From a world with `P`, the job returns with `Q` or throws with `E`.
  pub record Triple (P : World st → Type 0) (m : Job st A) (Q : A → World st → Type 0)
      (E : CleanupError → World st → Type 0) : Type 0 where
    pub at : (w : World st) → P w → Ends Q E (m w)

  abbrev pub Keeps : (World st → Type 0) → Job st A → Type 0
  Keeps P m = Triple P m (λ _. P) (λ _. P)

-- A property of the tables and the bucket alone.
abbrev pub Stored : (st : Storage) → (Server → st.Bucket → Type 0) → World st → Type 0
Stored st Q w = Q w.server w.bucket

module _ {st : Storage} {A : Type 0} {E : CleanupError → World st → Type 0} where
  pub Triple-pure : (Q : A → World st → Type 0) (a : A) → Triple (Q a) (pure {st = st} a) Q E
  unfolding pure
  Triple-pure Q a = record { at = λ w h. h }

  pub Triple-throw :
      (Q : A → World st → Type 0) (e : CleanupError) → Triple (E e) (throw {st = st} {A = A} e) Q E
  unfolding throw
  Triple-throw Q e = record { at = λ w h. h }

  pub Triple-if :
      (P : World st → Type 0) (Q : A → World st → Type 0) (b : Bool) (m n : Job st A)
      → (b ≡ true → Triple P m Q E)
      → (b ≡ false → Triple P n Q E)
      → Triple P (if b then m else n) Q E
  Triple-if P Q true m n km kn = km refl
  Triple-if P Q false m n km kn = kn refl

module _ {st : Storage} {A B : Type 0} {E : CleanupError → World st → Type 0} where
  continue-Ends :
      (Q : A → World st → Type 0) (R : B → World st → Type 0) (r : Result A × World st)
      (f : A → Job st B)
      → Ends Q E r
      → ((a : A) → Triple (Q a) (f a) R E)
      → Ends R E (continue f r)
  continue-Ends Q R (done a, w) f h kf = (kf a).at w h
  continue-Ends Q R (thrown e, w) f h kf = h

  pub Triple-bind :
      (P : World st → Type 0) (Q : A → World st → Type 0) (R : B → World st → Type 0) (m : Job st A)
      (f : A → Job st B)
      → Triple P m Q E
      → ((a : A) → Triple (Q a) (f a) R E)
      → Triple P (m >>= f) R E
  unfolding ◌>>=◌
  Triple-bind P Q R m f km kf = record { at = λ w h. continue-Ends Q R (m w) f (km.at w h) kf }

-- Ceilings and failures of D1 are no part of what is stored.
module _ {st : Storage} (Q : Server → st.Bucket → Type 0) where
  counted-Ends :
      (r : Bool × List ℕ) (w : World st)
      → Stored st Q w
      → Ends (λ _. Stored st Q) (λ _. Stored st Q) (counted r w)
  counted-Ends (true, budgets) w h = h
  counted-Ends (false, budgets) w h = h

  pub spend-Stored : Keeps (Stored st Q) spend
  unfolding spend
  spend-Stored = record { at = λ w h. counted-Ends (consume w.budgets) w h }

  after_fault-Ends :
      (faults : List Bool) (w : World st)
      → Stored st Q w
      → Ends (λ _. Stored st Q) (λ _. Stored st Q) (after_fault faults w)
  after_fault-Ends [] w h = h
  after_fault-Ends (true ∷ faults) w h = h
  after_fault-Ends (false ∷ faults) w h = h

  pub call_database-Stored : Keeps (Stored st Q) call_database
  unfolding call_database
  call_database-Stored = record { at = λ w h. after_fault-Ends w.faults w h }

  pub prepare-Stored : Keeps (Stored st Q) prepare
  unfolding prepare prepare_call
  prepare-Stored =
      Triple-bind _ (λ _. Stored st Q) _ _ _ spend-Stored (λ _. record { at = λ w h. h })

  pub prepare_times-Stored : (n : ℕ) → Keeps (Stored st Q) (prepare_times n)
  unfolding prepare_times
  prepare_times-Stored zero = Triple-pure (λ _. Stored st Q) tt
  prepare_times-Stored (suc n) =
      Triple-bind _ (λ _. Stored st Q) _ _ _ prepare-Stored (λ _. prepare_times-Stored n)

-- A query returns what it computes of the tables, and what is stored stays as it is.
module _ {st : Storage} (Q : Server → st.Bucket → Type 0) where
  pub Triple-query :
      {A : Type 0} (f : Server → A)
      → Triple
          (Stored st Q)
          (query {st = st} f)
          (λ a. Stored st (λ s b. Q s b × (a ≡ f s)))
          (λ _. Stored st Q)
  unfolding query read
  Triple-query f =
      Triple-bind _ (λ _. Stored st Q) _ _ _ (prepare-Stored Q)
        λ _.
          Triple-bind _ (λ _. Stored st Q) _ _ _ (call_database-Stored Q)
            λ _. record { at = λ w h. (h, refl) }

  pub Triple-batch :
      (n : ℕ) (f : Server → Server) (R : Server → st.Bucket → Type 0)
      → ((s : Server) (b : st.Bucket) → Q s b → R (f s) b)
      → Triple (Stored st Q) (batch {st = st} n f) (λ _. Stored st R) (λ _. Stored st Q)
  unfolding batch write
  Triple-batch n f R step =
      Triple-bind _ (λ _. Stored st Q) _ _ _ (prepare_times-Stored Q n)
        λ _.
          Triple-bind _ (λ _. Stored st Q) _ _ _ (call_database-Stored Q)
            λ _. record { at = λ w h. step w.server w.bucket h }

module _ {st : Storage} {A : Type 0} where
  -- The rule of consequence.
  pub Triple-imp :
      {P P' : World st → Type 0} {Q Q' : A → World st → Type 0}
      {E E' : CleanupError → World st → Type 0} {m : Job st A}
      → ((w : World st) → P' w → P w)
      → ((a : A) (w : World st) → Q a w → Q' a w)
      → ((e : CleanupError) (w : World st) → E e w → E' e w)
      → Triple P m Q E
      → Triple P' m Q' E'
  Triple-imp {Q} {Q'} {E} {E'} {m} before after failed t = record {
    at = λ w h. ends (m w) (t.at w (before w h));
  }
    where
      ends : (r : Result A × World st) → Ends Q E r → Ends Q' E' r
      ends (done a, w) = after a w
      ends (thrown e, w) = failed e w

  -- What does not depend on the world may be used in the proof.
  pub Triple-fact :
      (P : World st → Type 0) (F : Type 0) (Q : A → World st → Type 0)
      (E : CleanupError → World st → Type 0) (m : Job st A)
      → (F → Triple P m Q E)
      → Triple (λ w. P w × F) m Q E
  Triple-fact P F Q E m t = record { at = λ w h. (t h.1).at w h.0 }
