-- ===== src/Crypto/Stream/Reader/Laws.antt =====
-- The buffered reader of `iterateDecryptedChunks` reads its stream as one run of bytes, whatever
-- pieces the stream delivers.
use anzdrop.Base.{
  ℕ, zero, suc, Bool-cases, ◌+◌, ◌-◌, ◌≤◌, ◌≡◌, refl, sym, ap, ◌∙◌, ◌⊎◌, inl, inr, true, false, not,
  ◌&&◌, List, [], ◌∷◌, ◌++◌, arith, length, take, drop, concat, min, ltb, leb, append_assoc,
  append-nil, length-append, length-drop, concat-append, take-append, drop-append, lt→ltb, drop_all,
  leb→le, take-append_of_le, drop-append_of_le,
}
use anzdrop.Crypto.Bytes.{Bytes}
use anzdrop.Crypto.Stream.Reader.{
  Reader, receive, fill_from, fill_to, peek, drop_pieces, consume, content,
}

-- `done` is reported only at the end.
pub record IsSound (r : Reader) : Type 0 where
  pub counted : r.pending_length ≡ length (concat r.pending)
  pub ended : r.stream_done ≡ true → r.input ≡ []

push-concat :
    (pending rest : List Bytes) (value : Bytes)
    → concat (pending ++ value ∷ []) ++ concat rest ≡ concat pending ++ concat (value ∷ rest)
push-concat pending rest value = simp (concat-append, append_assoc, append-nil)

push-length :
    (pending : List Bytes) (value : Bytes)
    → length (concat (pending ++ value ∷ [])) ≡ length (concat pending) + length value
push-length pending value =
    rw (concat-append pending (value ∷ []), append-nil value) (length-append (concat pending) value)

receive-cons :
    (r : Reader) (x : ℕ) (value : Bytes) (rest : List Bytes)
    → receive r (x ∷ value) rest ≡ record r {
      input = rest;
      pending = r.pending ++ (x ∷ value) ∷ [];
      pending_length = r.pending_length + length (x ∷ value);
    }
receive-cons r x value rest = rw (lt→ltb 0 (length (x ∷ value)) (omega arith))

receive-input :
    (r : Reader) (value : Bytes) (rest : List Bytes) → (receive r value rest).input ≡ rest
receive-input r [] rest = refl
receive-input r (x ∷ value) rest = rw (receive-cons r x value rest)

receive-content :
    (r : Reader) (value : Bytes) (rest : List Bytes)
    → r.input ≡ value ∷ rest
    → content (receive r value rest) ≡ content r
receive-content r [] rest e = ap (λ i. concat r.pending ++ concat i) (sym e)
receive-content r (x ∷ value) rest e =
    rw (receive-cons r x value rest)
      (push-concat r.pending rest (x ∷ value) ∙ ap (λ i. concat r.pending ++ concat i) (sym e))

receive-IsSound :
    (r : Reader) (value : Bytes) (rest : List Bytes)
    → r.stream_done ≡ false
    → IsSound r
    → IsSound (receive r value rest)
receive-IsSound r [] rest e s = record { counted = s.counted; ended = λ d. cc }
receive-IsSound r (x ∷ value) rest e s = rw (receive-cons r x value rest) (record {
  counted = omega (arith, s.counted, push-length r.pending (x ∷ value));
  ended = λ d. cc;
})

record Filled (min_bytes : ℕ) (r s : Reader) : Type 0 where
  same_content : content s ≡ content r
  sound : IsSound s
  enough : (min_bytes ≤ s.pending_length) ⊎ (s.input ≡ [])

Filled-refl :
    (m : ℕ) (r : Reader) → IsSound r → (m ≤ r.pending_length) ⊎ (r.input ≡ []) → Filled m r r
Filled-refl m r s h = record { same_content = refl; sound = s; enough = h }

fill_from-Filled :
    (min_bytes : ℕ) (input : List Bytes) (r : Reader)
    → r.input ≡ input
    → IsSound r
    → Filled min_bytes r (fill_from min_bytes input r)
unfolding fill_from
fill_from-Filled m [] r e s = elim (Bool-cases (ltb r.pending_length m && not r.stream_done)) [
  | inl more ↦ rw more (record {
    same_content = ap (λ i. concat r.pending ++ concat i) (sym e);
    sound = record { counted = s.counted; ended = λ d. refl };
    enough = inr refl;
  })
  | inr stop ↦ rw stop (record {
    same_content = ap (λ i. concat r.pending ++ concat i) (sym e);
    sound = record { counted = s.counted; ended = λ d. refl };
    enough = inr refl;
  })
]
fill_from-Filled m (value ∷ rest) r e s =
    elim (Bool-cases (ltb r.pending_length m && not r.stream_done)) [
      | inl more ↦
          let open_ : r.stream_done ≡ false = ground arith in
          let ih =
            fill_from-Filled m rest (receive r value rest) (receive-input r value rest)
              (receive-IsSound r value rest open_ s) in
          rw more (record {
            same_content = ih.same_content ∙ receive-content r value rest e;
            sound = ih.sound;
            enough = ih.enough;
          })
      | inr stop ↦ rw stop (record {
        same_content = ap (λ i. concat r.pending ++ concat i) (sym e);
        sound = record { counted = s.counted; ended = λ d. sym e ∙ s.ended d };
        enough = inl (ground (arith, s.ended));
      })
    ]

peek-take : (ps : List Bytes) (n : ℕ) → n ≤ length (concat ps) → peek ps n ≡ take n (concat ps)
unfolding peek
peek-take [] zero h = refl
peek-take [] (suc n) h = absurd (omega arith)
peek-take (p ∷ ps) n h =
    rw (peek-take ps (n - min (length p) n) (omega (arith, length-append p (concat ps))))
      (sym (take-append n p (concat ps)))

concat-drop_pieces :
    (ps : List Bytes) (n : ℕ)
    → n ≤ length (concat ps)
    → concat (drop_pieces ps n) ≡ drop n (concat ps)
unfolding drop_pieces
concat-drop_pieces [] zero h = refl
concat-drop_pieces [] (suc n) h = absurd (omega arith)
concat-drop_pieces (p ∷ ps) zero h = refl
concat-drop_pieces (p ∷ ps) (suc n) h =
    rw (drop-append (suc n) p (concat ps), lt→ltb 0 (suc n) (omega arith))
      (elim (Bool-cases (leb (length p) (suc n))) [
        | inl whole ↦
            let fits : length p ≤ suc n = leb→le _ _ whole in
            rw (whole, drop_all (suc n) p fits)
              (concat-drop_pieces ps (suc n - length p)
                (omega (arith, length-append p (concat ps))))
        | inr part ↦ let short : suc n - length p ≡ 0 = ground arith in rw (part, short)
      ])

-- What `fillTo` promises: nothing is lost, and the bytes are there unless the stream has ended.
pub fill_to-content : (m : ℕ) (r : Reader) → IsSound r → content (fill_to m r) ≡ content r
unfolding fill_to
fill_to-content m r s = (fill_from-Filled m r.input r refl s).same_content

pub fill_to-IsSound : (m : ℕ) (r : Reader) → IsSound r → IsSound (fill_to m r)
unfolding fill_to
fill_to-IsSound m r s = (fill_from-Filled m r.input r refl s).sound

pub fill_to_enough :
    (m : ℕ) (r : Reader)
    → IsSound r
    → (m ≤ (fill_to m r).pending_length) ⊎ ((fill_to m r).input ≡ [])
unfolding fill_to
fill_to_enough m r s = (fill_from-Filled m r.input r refl s).enough

-- The pending bytes are all that is left, or more than were asked for.
pub fill_to_length :
    (m : ℕ) (r : Reader)
    → IsSound r
    → (fill_to m r).pending_length ≤ length (content r)
      × (min m (length (content r)) ≤ (fill_to m r).pending_length)
fill_to_length m r s =
    let f = fill_to m r in
    let sound = fill_to-IsSound m r s in
    let total = length-append (concat f.pending) (concat f.input) in
    let same = ap length (fill_to-content m r s) in
    elim (fill_to_enough m r s) [
      | inl more ↦ (omega (arith, sound.counted, total, same), omega (arith, more))
      | inr none_left ↦
          let empty : length (concat f.input) ≡ 0 = ap (λ i. length (concat i)) none_left in
          (
            omega (arith, sound.counted, total, same),
            omega (arith, sound.counted, total, same, empty),
          )
    ]

-- Up to the pending length, reading and dropping pending bytes is reading and dropping the content.
pub peek-content :
    (r : Reader) (n : ℕ) → IsSound r → n ≤ r.pending_length → peek r.pending n ≡ take n (content r)
peek-content r n s h =
    peek-take r.pending n (omega (arith, s.counted))
    ∙ sym (take-append_of_le n (concat r.pending) (concat r.input) (omega (arith, s.counted)))

pub consume-content :
    (r : Reader) (n : ℕ)
    → IsSound r
    → n ≤ r.pending_length
    → content (consume r n) ≡ drop n (content r)
unfolding consume
consume-content r n s h =
    rw (concat-drop_pieces r.pending n (omega (arith, s.counted)))
      (sym (drop-append_of_le n (concat r.pending) (concat r.input) (omega (arith, s.counted))))

pub consume-IsSound :
    (r : Reader) (n : ℕ) → IsSound r → n ≤ r.pending_length → IsSound (consume r n)
unfolding consume
consume-IsSound r n s h = record {
  counted = omega (
    arith,
    s.counted,
    length-drop n (concat r.pending),
    ap length (concat-drop_pieces r.pending n (omega (arith, s.counted))),
  );
  ended = s.ended;
}
