-- ===== src/Crypto/Stream/Encrypt/Chunks.antt =====
-- How `iterateFileChunks` cuts a file.
use anzdrop.Base.{
  ℕ, zero, suc, ◌+◌, ◌-◌, ◌*◌, ◌/◌, ◌≤◌, ◌<◌, ◌≡◌, refl, sym, ap, ◌∙◌, List, [], ◌∷◌, ◌++◌, arith,
  length, drop, concat, min, ltb, Bool-cases, inl, inr, take-append-drop, length-take, length-drop,
  drop_all, ltb→lt, le→ltb_false, ◌⊎◌,
}
use native.Mathlib.Numerals.{add-one}
use native.Mathlib.Nat.{div-eq_of_lt-le}
use anzdrop.Crypto.Bytes.{Bytes}
use anzdrop.Crypto.Stream.Encrypt.{slice, file_chunks_from, iterate_file_chunks, total_chunks}

drop-drop : (a b : ℕ) (xs : Bytes) → drop b (drop a xs) ≡ drop (a + b) xs
drop-drop zero b xs = let e : 0 + b ≡ b = omega arith in rw e
drop-drop (suc a) zero [] = let e : suc a + zero ≡ suc a = omega arith in rw e
drop-drop (suc a) (suc b) [] = let e : suc a + suc b ≡ suc (a + suc b) = omega arith in rw e
drop-drop (suc a) b (x ∷ xs) =
    let e : suc a + b ≡ suc (a + b) = omega arith in rw e (drop-drop a b xs)

times_suc : (n c : ℕ) → suc n * c ≡ n * c + c
times_suc n c = grind arith

pos_of_times : (n c m : ℕ) → 0 < m → m ≤ n * c → 0 < n
pos_of_times zero c m h k = grind arith
pos_of_times (suc n) c m h k = omega arith

module _ (chunk_size : ℕ) where
  -- All chunks are full but the last, which is not empty.
  abbrev pub IsChunked : List Bytes → Type 0
  IsChunked [] = Unit
  IsChunked (x ∷ []) = (0 < length x) × (length x ≤ chunk_size)
  IsChunked (x ∷ y ∷ ys) = (length x ≡ chunk_size) × IsChunked (y ∷ ys)

  module _ (positive : 0 < chunk_size) where
    file_chunks_from-concat :
        (fuel : ℕ) (file : Bytes) (offset : ℕ)
        → offset ≤ length file
        → length file ≤ offset + fuel
        → concat (file_chunks_from chunk_size fuel file offset) ≡ drop offset file
    unfolding file_chunks_from
    file_chunks_from-concat zero file offset h k = sym (drop_all offset file (omega arith))
    file_chunks_from-concat (suc fuel) file offset h k =
        elim (Bool-cases (ltb offset (length file))) [
          | inl more ↦
              let end = min (offset + chunk_size) (length file) in
              let ahead : offset < length file = ltb→lt _ _ more in
              let sum : offset + (end - offset) ≡ end = omega arith in
              let tail = file_chunks_from-concat fuel file end (omega arith) (omega arith) in
              rw (more, tail)
                (ap (λ z. slice file offset end ++ drop z file) (sym sum)
                  ∙ ap (λ z. slice file offset end ++ z)
                      (sym (drop-drop offset (end - offset) file))
                  ∙ take-append-drop (end - offset) (drop offset file))
          | inr stop ↦ rw stop (sym (drop_all offset file (ground arith)))
        ]

    file_chunks_from_end :
        (fuel : ℕ) (file : Bytes) (offset : ℕ)
        → length file ≤ offset
        → file_chunks_from chunk_size fuel file offset ≡ []
    unfolding file_chunks_from
    file_chunks_from_end zero file offset h = refl
    file_chunks_from_end (suc fuel) file offset h = rw (le→ltb_false offset (length file) h)

    -- The number of chunks, by what it determines.
    file_chunks_from-length :
        (fuel : ℕ) (file : Bytes) (offset : ℕ)
        → offset ≤ length file
        → length file ≤ offset + fuel
        → (length file - offset
            ≤ length (file_chunks_from chunk_size fuel file offset) * chunk_size)
          × (length (file_chunks_from chunk_size fuel file offset) * chunk_size
              < length file - offset + chunk_size)
    unfolding file_chunks_from
    file_chunks_from-length zero file offset h k = (omega arith, omega arith)
    file_chunks_from-length (suc fuel) file offset h k =
        elim (Bool-cases (ltb offset (length file))) [
          | inl more ↦
              let ih =
                file_chunks_from-length fuel file (min (offset + chunk_size) (length file))
                  (omega arith) (omega (arith, ltb→lt _ _ more)) in
              let n =
                length (
                  file_chunks_from chunk_size fuel file
                    (min (offset + chunk_size) (length file))) in
              let ahead : offset < length file = ltb→lt _ _ more in
              rw (more, times_suc n chunk_size)
                (elim (Bool-cases (ltb (offset + chunk_size) (length file))) [
                  | inl inside ↦
                      let far : offset + chunk_size < length file = ltb→lt _ _ inside in
                      (omega (arith, ih), omega (arith, ih))
                  | inr last ↦
                      let near : length file ≤ min (offset + chunk_size) (length file) =
                        ground arith in
                      let none_left : n ≡ 0 = ap length (file_chunks_from_end fuel file _ near) in
                      let product : n * chunk_size ≡ 0 = rw none_left (omega arith) in
                      (omega arith, omega arith)
                ])
          | inr stop ↦
              (let past : length file ≤ offset = ground arith in rw stop (omega arith, omega arith))
        ]

    IsChunked-cons :
        (x : Bytes) (xs : List Bytes)
        → 0 < length x
        → length x ≤ chunk_size
        → (length x ≡ chunk_size) ⊎ (xs ≡ [])
        → IsChunked xs
        → IsChunked (x ∷ xs)
    IsChunked-cons x [] h k _ t = (h, k)
    IsChunked-cons x (y ∷ ys) h k (inl e) t = (e, t)
    IsChunked-cons x (y ∷ ys) h k (inr e) t = cc

    file_chunks_from-IsChunked :
        (fuel : ℕ) (file : Bytes) (offset : ℕ)
        → offset ≤ length file
        → length file ≤ offset + fuel
        → IsChunked (file_chunks_from chunk_size fuel file offset)
    unfolding file_chunks_from
    file_chunks_from-IsChunked zero file offset h k = tt
    file_chunks_from-IsChunked (suc fuel) file offset h k =
        elim (Bool-cases (ltb offset (length file))) [
          | inl more ↦
              let end = min (offset + chunk_size) (length file) in
              let ahead : offset < length file = ltb→lt _ _ more in
              let size : length (slice file offset end)
                  ≡ min (end - offset) (length file - offset) =
                length-take (end - offset) (drop offset file)
                ∙ ap (min (end - offset)) (length-drop offset file) in
              let rest = file_chunks_from-IsChunked fuel file end (omega arith) (omega arith) in
              let full : (length (slice file offset end) ≡ chunk_size)
                  ⊎ (file_chunks_from chunk_size fuel file end ≡ []) =
                (elim (Bool-cases (ltb (offset + chunk_size) (length file))) [
                  | inl inside ↦ inl (omega (arith, size, ltb→lt _ _ inside))
                  | inr last ↦ inr (file_chunks_from_end fuel file end (ground arith))
                ]) in
              rw more (
                IsChunked-cons (slice file offset end) (file_chunks_from chunk_size fuel file end)
                  (omega arith) (omega arith) full rest)
          | inr stop ↦ rw stop tt
        ]

    -- The chunks of a file, for a chunk size above 0, join to the file.
    pub iterate_file_chunks-concat :
        (file : Bytes) → concat (iterate_file_chunks chunk_size file) ≡ file
    unfolding iterate_file_chunks
    iterate_file_chunks-concat file =
        file_chunks_from-concat (length file) file 0 (omega arith) (omega arith)

    -- All chunks of a file but the last are full, and the last is not empty.
    pub iterate_file_chunks-IsChunked :
        (file : Bytes) → IsChunked (iterate_file_chunks chunk_size file)
    unfolding iterate_file_chunks
    iterate_file_chunks-IsChunked file =
        file_chunks_from-IsChunked (length file) file 0 (omega arith) (omega arith)

    -- The total that is computed from the size of a file that is not empty is its number of chunks.
    pub total_chunks-length :
        (file : Bytes)
        → 0 < length file
        → total_chunks chunk_size (length file) ≡ length (iterate_file_chunks chunk_size file)
    unfolding iterate_file_chunks total_chunks
    total_chunks-length file h =
        let n = length (file_chunks_from chunk_size (length file) file 0) in
        let b = file_chunks_from-length (length file) file 0 (omega arith) (omega arith) in
        let count : (length file + chunk_size - 1) / chunk_size ≡ n =
          div-eq_of_lt-le chunk_size {m = length file + chunk_size - 1} (omega arith)
            (rw (add-one n, times_suc n chunk_size) (omega arith)) in
        rw count (omega (arith, pos_of_times n chunk_size (length file) h (omega arith)))
