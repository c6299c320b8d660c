-- ===== src/Client/Repartition/Parts.antt =====
-- The parts hold the stream's bytes in order, numbered from 1, all but the last of the same size.
use anzdrop.Base.{
  ℕ, zero, suc, ◌+◌, ◌-◌, ◌≤◌, ◌<◌, ◌≡◌, refl, sym, ap, ◌∙◌, inl, inr, List, [], ◌∷◌, ◌++◌, map,
  length, take, drop, concat, ltb, leb, ◌==◌, arith, Bool-cases, by_test, append_assoc, append-nil,
  length-append, length-take, take-append-drop, concat-append, eq-nil_of_length,
}
use anzdrop.Crypto.Bytes.{Bytes}
use anzdrop.Client.Repartition.{
  Part, Pending, take_pieces, take_part, after_part, push_piece, drain, repartition_from,
  repartition,
}

-- Taking no more than there is splits the bytes.
take_pieces_lem :
    (pieces : List Bytes) (n : ℕ)
    → n ≤ length (concat pieces)
    → (length (take_pieces pieces n).0 ≡ n)
      × ((take_pieces pieces n).0 ++ concat (take_pieces pieces n).1 ≡ concat pieces)
unfolding take_pieces
take_pieces_lem [] n h = let e : n ≡ 0 = omega arith in rw e (refl, refl)
take_pieces_lem (piece ∷ pieces) n h = elim (Bool-cases (ltb 0 n)) [
  | inr b ↦ rw b (ground (arith, b), refl)
  | inl b ↦ elim (Bool-cases (leb (length piece) n)) [
    | inl c ↦
        let (size, joined) =
          take_pieces_lem pieces (n - length piece)
            (omega (arith, length-append piece (concat pieces))) in
        let fits : length piece ≤ n = ground (arith, c) in
        rw (b, c)
          (
            omega (arith, length-append piece (take_pieces pieces (n - length piece)).0, size),
            append_assoc piece (take_pieces pieces (n - length piece)).0
                  (concat (take_pieces pieces (n - length piece)).1)
                ∙ ap (λ ys. piece ++ ys) joined,
          )
    | inr c ↦
        let short : n < length piece = ground (arith, c) in
        rw (b, c)
          (
            omega (arith, length-take n piece),
            sym (append_assoc (take n piece) (drop n piece) (concat pieces))
                ∙ ap (λ ys. ys ++ concat pieces) (take-append-drop n piece),
          )
  ]
]

abbrev pub bodies : List Part → List Bytes
bodies parts = map (λ p. p.body) parts

-- Parts numbered from `n`, all of `size` bytes but the last, which has at most that and is not empty.
unfoldable pub IsPartition : (size n : ℕ) → List Part → Type 0
IsPartition size n [] = Unit
IsPartition size n (p ∷ []) = (p.part_number ≡ n) × (0 < length p.body) × (length p.body ≤ size)
IsPartition size n (p ∷ q ∷ ps) =
    (p.part_number ≡ n) × (length p.body ≡ size) × IsPartition size (n + 1) (q ∷ ps)

IsPartition-cons :
    (size n : ℕ) (p : Part) (ps : List Part)
    → 0 < size
    → p.part_number ≡ n
    → length p.body ≡ size
    → IsPartition size (n + 1) ps
    → IsPartition size n (p ∷ ps)
unfolding IsPartition
IsPartition-cons size n p [] wide e full h = (e, omega arith, omega arith)
IsPartition-cons size n p (q ∷ ps) wide e full h = (e, full, h)

module _ (size : ℕ) (wide : 0 < size) where
  IsSound : Pending → Type 0
  IsSound p = p.pending_length ≡ length (concat p.pieces)

  -- What follows a state, if `tail` are its parts and `more` the bytes still to come.
  Follows : Pending → Bytes → List Part → Type 0
  Follows p more tail =
      IsPartition size p.part_number tail × (concat (bodies tail) ≡ concat p.pieces ++ more)

  after_part-IsSound :
      (p : Pending) → IsSound p → size ≤ p.pending_length → IsSound (after_part size p)
  unfolding IsSound
  after_part-IsSound p s h =
      let (n, joined) = take_pieces_lem p.pieces size (omega (arith, s)) in
      omega (
        arith,
        n,
        s,
        ap length joined,
        length-append (take_pieces p.pieces size).0 (concat (take_pieces p.pieces size).1),
      )

  drain-IsSound :
      (fuel : ℕ) (p : Pending)
      → p.pending_length ≤ fuel
      → IsSound p
      → IsSound (drain size fuel p).1 × ((drain size fuel p).1.pending_length < size)
  unfolding drain
  drain-IsSound zero p enough s = (s, omega arith)
  drain-IsSound (suc fuel) p enough s = elim (Bool-cases (leb size p.pending_length)) [
    | inl b ↦
        let large : size ≤ p.pending_length = ground (arith, b) in
        rw b (drain-IsSound fuel (after_part size p) (omega arith) (after_part-IsSound p s large))
    | inr b ↦ rw b (s, ground (arith, b))
  ]

  take_part-Follows :
      (p : Pending) (more : Bytes) (tail : List Part)
      → IsSound p
      → size ≤ p.pending_length
      → Follows (after_part size p) more tail
      → Follows p more (take_part size p ∷ tail)
  unfolding Follows IsSound
  take_part-Follows p more tail s large (numbered, rest) =
      let (full, joined) = take_pieces_lem p.pieces size (omega (arith, s)) in
      let body : Bytes = (take_pieces p.pieces size).0 in
      let left : List Bytes = (take_pieces p.pieces size).1 in
      (
        IsPartition-cons size p.part_number (take_part size p) tail wide refl full numbered,
        ap (λ ys. body ++ ys) rest
            ∙ sym (append_assoc body (concat left) more)
            ∙ ap (λ ys. ys ++ more) joined,
      )

  drain-Follows :
      (fuel : ℕ) (p : Pending) (more : Bytes) (tail : List Part)
      → IsSound p
      → Follows (drain size fuel p).1 more tail
      → Follows p more ((drain size fuel p).0 ++ tail)
  unfolding drain Follows IsSound
  drain-Follows zero p more tail s h = h
  drain-Follows (suc fuel) p more tail s h =
      by_test {A = List Part × Pending} (λ d. Follows d.1 more tail → Follows p more (d.0 ++ tail))
        (leb size p.pending_length)
        (
          take_part size p ∷ (drain size fuel (after_part size p)).0,
          (drain size fuel (after_part size p)).1,
        )
        ([], p)
        (λ b next.
          let large : size ≤ p.pending_length = ground (arith, b) in
          take_part-Follows p more ((drain size fuel (after_part size p)).0 ++ tail) s large
            (drain-Follows fuel (after_part size p) more tail (after_part-IsSound p s large) next))
        (λ b next. next) h

  last-Follows :
      (p : Pending)
      → IsSound p
      → p.pending_length < size
      → Follows p [] (repartition_from size [] p)
  unfolding repartition_from Follows IsSound IsPartition
  last-Follows p s h =
      by_test (Follows p []) (ltb 0 p.pending_length) (take_part p.pending_length p ∷ []) []
        (λ b.
          let (full, joined) = take_pieces_lem p.pieces p.pending_length (omega (arith, s)) in
          let body : Bytes = (take_pieces p.pieces p.pending_length).0 in
          let left : List Bytes = (take_pieces p.pieces p.pending_length).1 in
          let none_left : concat left ≡ [] =
            eq-nil_of_length (concat left)
              (omega (arith, s, full, ap length joined, length-append body (concat left))) in
          (
            (refl, ground (arith, b, full), omega (arith, full, h)),
            ap (λ ys. body ++ ys) (sym none_left) ∙ joined ∙ sym (append-nil (concat p.pieces)),
          ))
        (λ b.
          let empty : concat p.pieces ≡ [] =
            eq-nil_of_length (concat p.pieces) (ground (arith, b, s)) in
          (tt, sym (ap (λ ys. ys ++ []) empty)))

  push-concat :
      (pieces : List Bytes) (piece more : Bytes)
      → concat (pieces ++ piece ∷ []) ++ more ≡ concat pieces ++ (piece ++ more)
  push-concat pieces piece more = simp (concat-append, append_assoc, append-nil)

  push_piece-IsSound : (p : Pending) (piece : Bytes) → IsSound p → IsSound (push_piece piece p)
  unfolding IsSound
  push_piece-IsSound p piece s = omega (
    arith,
    s,
    ap length (concat-append p.pieces (piece ∷ [])),
    length-append (concat p.pieces) (piece ++ []),
    length-append piece [],
  )

  cons-Follows :
      (source : List Bytes) (piece : Bytes) (p : Pending)
      → IsSound p
      → p.pending_length < size
      → ((q : Pending)
          → IsSound q
          → q.pending_length < size
          → Follows q (concat source) (repartition_from size source q))
      → Follows p (piece ++ concat source) (repartition_from size (piece ∷ source) p)
  unfolding repartition_from Follows
  cons-Follows source piece p s h later =
      let pushed : Pending = push_piece piece p in
      let ok = push_piece-IsSound p piece s in
      let drained : List Part × Pending = drain size pushed.pending_length pushed in
      let (sound, small) = drain-IsSound pushed.pending_length pushed (omega arith) ok in
      let rest = later drained.1 sound small in
      let (numbered, joined) =
        drain-Follows pushed.pending_length pushed (concat source)
          (repartition_from size source drained.1) ok rest in
      by_test (Follows p (piece ++ concat source)) (length piece == 0)
        (repartition_from size source p) (drained.0 ++ repartition_from size source drained.1)
        (λ b.
          let empty : piece ≡ [] = eq-nil_of_length piece (ground (arith, b)) in
          let (same_numbers, same_bytes) = later p s h in (same_numbers, rw empty same_bytes))
        (λ b. (numbered, joined ∙ push-concat p.pieces piece (concat source)))

  from-Follows :
      (source : List Bytes) (p : Pending)
      → IsSound p
      → p.pending_length < size
      → Follows p (concat source) (repartition_from size source p)
  from-Follows [] p s h = last-Follows p s h
  from-Follows (piece ∷ source) p s h = cons-Follows source piece p s h (from-Follows source)

-- Whatever the pieces are: the parts' bytes, joined, are the stream's, the parts are numbered from 1
-- on, and all have the part size, which is above 0, but the last, which is not empty or larger.
pub repartition-IsPartition :
    (size : ℕ) (source : List Bytes)
    → 0 < size
    → IsPartition size 1 (repartition size source)
      × (concat (bodies (repartition size source)) ≡ concat source)
unfolding repartition Follows IsSound
repartition-IsPartition size source wide =
    from-Follows size wide source (record { pieces = []; pending_length = 0; part_number = 1 }) refl
      (omega arith)
