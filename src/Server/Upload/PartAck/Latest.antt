-- ===== src/Server/Upload/PartAck/Latest.antt =====
-- Which ETag of a part number is stored after an acknowledgement.
use anzdrop.Base.{
  ℕ, ◌≡◌, refl, sym, ap, ◌∙◌, String, Bool, true, false, not, ◌&&◌, Option, none, some, List, [],
  ◌∷◌, ◌++◌, map, exists, find, find-head, find-tail, find-keep, keep, ◌==◌, same, same_self,
  same_beside, if◌then◌else◌, arith, Bool-cases, inl, inr, by_test, by_option,
}
use anzdrop.Server.State.{UploadPart, Server, Reply, refused, answered}
use anzdrop.Server.Upload.Session.{
  UploadSessionRow, load_upload_session, verify_upload_session_token,
}
use anzdrop.Server.Upload.Chunk.{put_part}
use anzdrop.Server.Upload.PartAck.{
  Part, UploadPartAckRequest, has_number, set_latest, latest_by_part, store_parts, part_ack,
  acknowledge, all_allowed,
}

abbrev or_else : Option String → Option String → Option String
or_else none other = other
or_else (some a) other = some a

-- The ETag that the request gives last for a part number.
abbrev pub last_etag : ℕ → List Part → Option String
last_etag n [] = none
last_etag n (p ∷ ps) = or_else (last_etag n ps) (if has_number n p then some p.etag else none)

abbrev etag_of : Option UploadPart → Option String
etag_of none = none
etag_of (some p) = some p.etag

abbrev is_part : String → ℕ → UploadPart → Bool
is_part session_id n p = same p.upload_session_id session_id && (p.part_number == n)

-- The ETag that the table holds for a part number of a session.
abbrev pub stored_etag : String → ℕ → List UploadPart → Option String
stored_etag session_id n table = etag_of (find (is_part session_id n) table)

or_else_assoc : (a b c : Option String) → or_else (or_else a b) c ≡ or_else a (or_else b c)
or_else_assoc none b c = refl
or_else_assoc (some a) b c = refl

or_else-none : (a : Option String) → or_else a none ≡ a
or_else-none none = refl
or_else-none (some a) = refl

last_etag-append :
    (n : ℕ) (ps qs : List Part) → last_etag n (ps ++ qs) ≡ or_else (last_etag n qs) (last_etag n ps)
last_etag-append n [] qs = sym (or_else-none (last_etag n qs))
last_etag-append n (p ∷ ps) qs =
    ap (λ o. or_else o (if has_number n p then some p.etag else none)) (last_etag-append n ps qs)
    ∙ or_else_assoc (last_etag n qs) (last_etag n ps) (if has_number n p then some p.etag else none)

abbrev replace : Part → List Part → List Part
replace part entries = map (λ p. if has_number part.part_number p then part else p) entries

last_etag-replace_other :
    (n : ℕ) (part : Part) (entries : List Part)
    → has_number n part ≡ false
    → last_etag n (replace part entries) ≡ last_etag n entries
last_etag-replace_other n part [] h = refl
last_etag-replace_other n part (q ∷ qs) h =
    rw (last_etag-replace_other n part qs h) (ap (or_else (last_etag n qs)) (head_other part q h))
  where
    head_other :
        (part q : Part)
        → has_number n part ≡ false
        → (if has_number n (if has_number part.part_number q then part else q)
            then some (if has_number part.part_number q then part else q).etag
            else none)
          ≡ (if has_number n q then some q.etag else none)
    head_other part q h = elim (Bool-cases (has_number part.part_number q)) [
      | inl b ↦ let other : has_number n q ≡ false = ground (arith, b, h) in rw (b, h, other) refl
      | inr b ↦ rw b refl
    ]

last_etag-replace :
    (n : ℕ) (part : Part) (entries : List Part)
    → has_number n part ≡ true
    → last_etag n (replace part entries)
      ≡ (if exists (has_number part.part_number) entries then some part.etag else none)
last_etag-replace n part [] h = refl
last_etag-replace n part (q ∷ qs) h = elim (Bool-cases (has_number part.part_number q)) [
  | inl b ↦
      let there : exists (has_number part.part_number) (q ∷ qs) ≡ true = rw (b, exists) refl in
      rw (last_etag-replace n part qs h, b, h, there)
        (by_test (λ o. or_else o (some part.etag) ≡ some part.etag)
          (exists (has_number part.part_number) qs) (some part.etag) none (λ _. refl) (λ _. refl))
  | inr b ↦
      let other : has_number n q ≡ false = ground (arith, b, h) in
      let rest : exists (has_number part.part_number) (q ∷ qs)
          ≡ exists (has_number part.part_number) qs =
        rw (b, exists) refl in
      rw (last_etag-replace n part qs h, b, other, rest)
        (or_else-none (if exists (has_number part.part_number) qs then some part.etag else none))
]

last_etag-set_latest :
    (n : ℕ) (p : Part) (entries : List Part)
    → last_etag n (set_latest p entries)
      ≡ or_else (if has_number n p then some p.etag else none) (last_etag n entries)
unfolding set_latest
last_etag-set_latest n p entries = elim (Bool-cases (exists (has_number p.part_number) entries)) [
  | inl there ↦ elim (Bool-cases (has_number n p)) [
    | inl mine ↦ rw (there, last_etag-replace n p entries mine, there, mine) refl
    | inr other ↦ rw (there, last_etag-replace_other n p entries other, other) refl
  ]
  | inr new ↦ rw new (last_etag-append n entries (p ∷ []))
]

last_etag-latest_by_part :
    (n : ℕ) (entries parts : List Part)
    → last_etag n (latest_by_part entries parts) ≡ or_else (last_etag n parts) (last_etag n entries)
unfolding latest_by_part
last_etag-latest_by_part n entries [] = refl
last_etag-latest_by_part n entries (p ∷ ps) =
    last_etag-latest_by_part n (set_latest p entries) ps
    ∙ ap (or_else (last_etag n ps)) (last_etag-set_latest n p entries)
    ∙ sym (
        or_else_assoc (last_etag n ps) (if has_number n p then some p.etag else none)
          (last_etag n entries))

-- A row of the same part is one of the rows that the insertion replaces.
part_kept :
    (session_id : String) (n : ℕ) (p q : UploadPart)
    → is_part session_id n p ≡ false
    → is_part session_id n q ≡ true
    → not (same q.upload_session_id p.upload_session_id && (q.part_number == p.part_number)) ≡ true
part_kept session_id n p q other mine =
    let here : same q.upload_session_id session_id ≡ true = ground (arith, mine) in
    let same_session : same p.upload_session_id session_id
        ≡ same q.upload_session_id p.upload_session_id =
      same_beside q.upload_session_id session_id p.upload_session_id here in
    ground (arith, mine, other, same_session)

stored_etag-put_part :
    (session_id : String) (n : ℕ) (p : UploadPart) (table : List UploadPart)
    → stored_etag session_id n (put_part p table)
      ≡ (if is_part session_id n p then some p.etag else stored_etag session_id n table)
stored_etag-put_part session_id n p table =
    let kept : UploadPart → Bool =
      λ q. not (same q.upload_session_id p.upload_session_id && (q.part_number == p.part_number)) in
    elim (Bool-cases (is_part session_id n p)) [
      | inl mine ↦
          ap etag_of (find-head (is_part session_id n) p (keep kept table) mine) ∙ rw mine refl
      | inr other ↦
          ap etag_of (find-tail (is_part session_id n) p (keep kept table) other)
          ∙ ap etag_of (
              find-keep (is_part session_id n) kept
                (λ q mine. part_kept session_id n p q other mine) table)
          ∙ rw other refl
    ]

stored_etag-store_parts :
    (session_id : String) (n : ℕ) (parts : List Part) (table : List UploadPart)
    → stored_etag session_id n (store_parts session_id parts table)
      ≡ or_else (last_etag n parts) (stored_etag session_id n table)
unfolding store_parts
stored_etag-store_parts session_id n [] table = refl
stored_etag-store_parts session_id n (p ∷ ps) table =
    let row : UploadPart = record {
      upload_session_id = session_id;
      part_number = p.part_number;
      etag = p.etag;
    } in
    let named : is_part session_id n row ≡ has_number n p = rw (same_self session_id) refl in
    stored_etag-store_parts session_id n ps (put_part row table)
    ∙ ap (or_else (last_etag n ps)) (
        stored_etag-put_part session_id n row table
        ∙ ap (λ b. if b then some p.etag else stored_etag session_id n table) named
        ∙ if_or_else (has_number n p) p.etag (stored_etag session_id n table))
    ∙ sym (
        or_else_assoc (last_etag n ps) (if has_number n p then some p.etag else none)
          (stored_etag session_id n table))
  where
    if_or_else :
        (b : Bool) (e : String) (o : Option String)
        → (if b then some e else o) ≡ or_else (if b then some e else none) o
    if_or_else true e o = refl
    if_or_else false e o = refl

-- What an acknowledgement does to the stored parts: nothing if it is refused; else each part number
-- of the session has the ETag that the request gives last for it, or the one it had.
pub Acknowledged : UploadPartAckRequest → Server → Server × Reply ℕ → Type 0
Acknowledged r s (after, refused status) = after ≡ s
Acknowledged r s (after, answered accepted) =
    (n : ℕ)
    → stored_etag r.upload_session_id n after.upload_parts
      ≡ or_else (last_etag n r.parts) (stored_etag r.upload_session_id n s.upload_parts)

acknowledge-Acknowledged :
    (r : UploadPartAckRequest) (s : Server) → Acknowledged r s (acknowledge r s)
unfolding Acknowledged
acknowledge-Acknowledged r s = λ n.
    stored_etag-store_parts r.upload_session_id n (latest_by_part [] r.parts) s.upload_parts
    ∙ ap (λ o. or_else o (stored_etag r.upload_session_id n s.upload_parts))
        (last_etag-latest_by_part n [] r.parts ∙ or_else-none (last_etag n r.parts))

-- A refused acknowledgement leaves the state alone. After one that is answered, each part number of
-- the session has the ETag that the request gives last for it, and without one the ETag it had.
pub part_ack_lem :
    (within_rate : Bool) (r : UploadPartAckRequest) (s : Server)
    → Acknowledged r s (part_ack within_rate r s)
unfolding part_ack Acknowledged
part_ack_lem within_rate r s =
    by_test (Acknowledged r s) within_rate
      (elim (load_upload_session s r.upload_session_id) [
        | none ↦ (s, refused 404)
        | some row ↦ checked row
      ])
      (s, refused 429)
      (λ _.
        by_option (Acknowledged r s) (load_upload_session s r.upload_session_id) (s, refused 404)
          checked (λ _. refl)
          (λ row _.
            by_test (Acknowledged r s) (verify_upload_session_token row.upload_token r.upload_token)
              (allowed row) (s, refused 403)
              (λ _.
                by_test (Acknowledged r s)
                  (all_allowed r.parts (elim row.file_size [ none ↦ 0 | some n ↦ n ]))
                  (acknowledge r s) (s, refused 400) (λ _. acknowledge-Acknowledged r s)
                  (λ _. refl))
              (λ _. refl)))
      (λ _. refl)
  where
    allowed : UploadSessionRow → Server × Reply ℕ
    allowed row =
        if all_allowed r.parts (elim row.file_size [ none ↦ 0 | some n ↦ n ])
        then acknowledge r s
        else (s, refused 400)

    checked : UploadSessionRow → Server × Reply ℕ
    checked row =
        if verify_upload_session_token row.upload_token r.upload_token
        then allowed row
        else (s, refused 403)
