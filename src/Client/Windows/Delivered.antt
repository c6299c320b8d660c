-- ===== src/Client/Windows/Delivered.antt =====
-- What the consumer gets: the object's bytes in order, and no more is fetched ahead than the limits allow.
use anzdrop.Base.{
  ℕ, zero, suc, ◌+◌, ◌-◌, ◌*◌, ◌≤◌, ◌<◌, false, ◌≡◌, refl, sym, ap, ◌∙◌, List, [], ◌∷◌, ◌++◌,
  append-nil, concat, concat-append, length, take, drop, take_all, min, arith, leb, Bool-cases, inl,
  inr, length-drop,
}
use anzdrop.Crypto.Bytes.{Bytes}
use anzdrop.Client.Windows.{
  OrderedArgs, ReaderState, WindowStream, max_ahead, start_stream, window_range,
}
use anzdrop.Client.Windows.Steps.{Reaches, windows, Awaited}
use anzdrop.Client.Windows.Started.{Reaches-IsOrdered}
use native.Mathlib.Nat.{suc-mul}

take-add : {A : Type 0} (m n : ℕ) (xs : List A) → take (m + n) xs ≡ take m xs ++ take n (drop m xs)
take-add zero n xs = let e : 0 + n ≡ n = omega arith in rw e refl
take-add {A} (suc m) n [] = let e : suc m + n ≡ suc (m + n) = omega arith in rw e (nothing n)
  where
    nothing : (k : ℕ) → ◌≡◌ {A = List A} [] (take k [])
    nothing zero = refl
    nothing (suc k) = refl
take-add (suc m) n (x ∷ xs) =
    let e : suc m + n ≡ suc (m + n) = omega arith in rw e (ap (λ r. x ∷ r) (take-add m n xs))

-- The bytes from the first position to before the second.
abbrev pub bytes_between : ℕ × ℕ → Bytes → Bytes
bytes_between (from, to) object = take (to - from) (drop from object)

-- Each request is answered with the range of the object that it asks for.
abbrev pub IsWindow : OrderedArgs → Bytes → (ℕ → Bytes) → Type 0
IsWindow a object answers =
    (i : ℕ) → i < a.window_count → answers i ≡ bytes_between (window_range a i) object

-- The last window is cut at the end of the object.
range-full :
    (from size : ℕ) (object : Bytes)
    → take (min (from + size) (length object) - from) (drop from object)
      ≡ take size (drop from object)
range-full from size object = elim (Bool-cases (leb (from + size) (length object))) [
  | inl e ↦
      let whole : min (from + size) (length object) - from ≡ size = ground (arith, e) in
      ap (λ (k : ℕ). take k (drop from object)) whole
  | inr e ↦
      take_all _ (drop from object) (ground (arith, e, length-drop from object))
      ∙ sym (take_all size (drop from object) (ground (arith, e, length-drop from object)))
]

module _ (a : OrderedArgs) (object : Bytes) (answers : ℕ → Bytes) (size : a.total ≡ length object)
    (ranges : IsWindow a object answers) where
  one_window :
      (n : ℕ)
      → bytes_between (window_range a n) object
        ≡ take a.window_size (drop (n * a.window_size) object)
  unfolding window_range
  one_window n =
      ap
        (λ (t : ℕ).
          take (min (n * a.window_size + a.window_size) t - n * a.window_size)
            (drop (n * a.window_size) object))
        size
      ∙ range-full (n * a.window_size) a.window_size object

  windows-concat :
      (n : ℕ) → n ≤ a.window_count → concat (windows answers n) ≡ take (n * a.window_size) object
  unfolding windows
  windows-concat zero le = let e : 0 * a.window_size ≡ 0 = omega arith in rw e refl
  windows-concat (suc n) le =
      concat-append (windows answers n) (answers n ∷ [])
      ∙ ap (λ (xs : Bytes). xs ++ (answers n ++ [])) (windows-concat n (omega arith))
      ∙ ap (λ (xs : Bytes). take (n * a.window_size) object ++ xs)
          (append-nil (answers n) ∙ ranges n (omega arith) ∙ one_window n)
      ∙ sym (take-add (n * a.window_size) a.window_size object)
      ∙ ap (λ (k : ℕ). take k object) (sym (suc-mul n a.window_size))

-- What the consumer has of an object, and what is fetched ahead of it.
pub record Delivers (a : OrderedArgs) (object : Bytes) (w : WindowStream) : Type 0 where
  pub in_order : concat w.enqueued ≡ take (w.next_to_enqueue * a.window_size) object
  pub few_requests : length w.in_flight ≤ a.concurrency
  pub few_windows : length w.buffers + length w.in_flight ≤ max_ahead a
  pub awaits : w.aborted ≡ false → w.next_to_enqueue < a.window_count → Awaited w w.next_to_enqueue
  pub complete : w.reader ≡ ReaderState.closed → concat w.enqueued ≡ object

-- Of an object in as many windows as it takes, whatever order the requests end in.
pub reached-Delivers :
    (a : OrderedArgs) (object : Bytes) (answers : ℕ → Bytes) (w : WindowStream)
    → a.total ≡ length object
    → IsWindow a object answers
    → a.total ≤ a.window_count * a.window_size
    → 0 < a.window_count
    → 0 < a.concurrency
    → Reaches a answers (start_stream a (answers 0)) w
    → Delivers a object w
reached-Delivers a object answers w size ranges covers some_window some_request r =
    let (o, s) = Reaches-IsOrdered a answers some_request (answers 0) refl some_window r in
    let so_far : concat w.enqueued ≡ take (w.next_to_enqueue * a.window_size) object =
      ap (λ (bs : List Bytes). concat bs) o.delivered
      ∙ windows-concat a object answers size ranges w.next_to_enqueue
          (omega (arith, o.ahead, o.within)) in
    record {
      in_order = so_far;
      few_requests = o.parallel;
      few_windows = omega (arith, o.ahead, o.bounded);
      awaits = λ running lt. o.awaited running w.next_to_enqueue (omega arith) (s running lt);
      complete = λ closed_now.
          so_far
          ∙ ap (λ (n : ℕ). take (n * a.window_size) object) (o.finished closed_now)
          ∙ take_all (a.window_count * a.window_size) object (omega (arith, covers, size));
    }
