-- ===== src/Server/Upload/Chunk/Accepted.antt =====
-- What an accepted part had, and what a refused one leaves.
use anzdrop.Base.{
  ℕ, ◌≤◌, ◌<◌, ◌≡◌, refl, sym, ap, ◌∙◌, String, Bool, true, false, ◌&&◌, Option, none, some, [],
  ◌∷◌, length, concat, ltb, if◌then◌else◌, truthy, arith, Option-cases, inl, inr, by_test,
  by_option, ◌⊎◌,
}
use anzdrop.Auth.TimingSafeEqual.{token_matches, token_matches_iff}
use anzdrop.Crypto.Bytes.{Bytes}
use anzdrop.Server.State.{Server, Reply, refused, answered, upload_part, call_r2, set_upload_parts}
use anzdrop.Server.Upload.Session.{
  UploadSessionRow, load_upload_session, verify_upload_session_token, is_part_number_allowed,
  upload_part_size,
}
use anzdrop.Server.Upload.Chunk.{
  ChunkContext, ChunkRequest, read_body_within_limit, upload_chunk, header, put_part, store_part,
  accept_part, read_part,
}
use anzdrop.Server.Upload.Chunk.Body.{read_body_within_limit_lem}

abbrev pub declared : UploadSessionRow → ℕ
declared row = elim row.file_size [ none ↦ 0 | some n ↦ n ]

-- A part that was stored: its session and token, its number, its body, and its row.
pub record Accepted (r : ChunkRequest) (s after : Server) (n : ℕ) : Type 0 where
  pub row : UploadSessionRow
  pub etag : String
  pub session : load_upload_session s (header r.upload_session_id) ≡ some row
  pub token : row.upload_token ≡ some (header r.upload_token)
  pub number : r.part_number ≡ some n
  pub allowed : is_part_number_allowed (some n) (declared row) ≡ true
  pub filled : 0 < length (concat r.pieces)
  pub fits : length (concat r.pieces) ≤ upload_part_size
  pub stored :
      after.upload_parts
      ≡ put_part
          (record { upload_session_id = header r.upload_session_id; part_number = n; etag = etag })
          s.upload_parts
  pub sent :
      after.r2_calls ≡ upload_part row.storage_key row.upload_id n (concat r.pieces) ∷ s.r2_calls

unfoldable pub Outcome : ChunkRequest → Server → Server × Reply ℕ → Type 0
Outcome r s (after, refused status) =
    (after.upload_parts ≡ s.upload_parts) × ((status ≡ 500) ⊎ (after ≡ s))
Outcome r s (after, answered n) = Accepted r s after n

unchanged : (r : ChunkRequest) (s : Server) (status : ℕ) → Outcome r s (s, refused status)
unfolding Outcome
unchanged r s status = (refl, inr refl)

-- A body that was read and is not empty.
body_fits :
    (r : ChunkRequest) (byte : ℕ) (bytes : Bytes)
    → read_body_within_limit r.content_length r.pieces upload_part_size ≡ some (byte ∷ bytes)
    → (0 < length (concat r.pieces))
      × (length (concat r.pieces) ≤ upload_part_size)
      × (concat r.pieces ≡ byte ∷ bytes)
body_fits r byte bytes e =
    let read = sym (read_body_within_limit_lem r.content_length r.pieces upload_part_size) ∙ e in
    let small : ltb upload_part_size (length (concat r.pieces)) ≡ false = ground (arith, read) in
    let whole : concat r.pieces ≡ byte ∷ bytes = ground (arith, read) in
    (rw whole (omega arith), ground (arith, small), whole)

by_body {ℓ κ} :
    {B : Type ℓ} (P : B → Type κ) (o : Option Bytes) (x y : B) (z : ℕ → Bytes → B)
    → P x
    → P y
    → ((byte : ℕ) (bytes : Bytes) → o ≡ some (byte ∷ bytes) → P (z byte bytes))
    → P (elim o [ none ↦ x | some [] ↦ y | some (byte ∷ bytes) ↦ z byte bytes ])
by_body P none x y z p q r = p
by_body P (some []) x y z p q r = q
by_body P (some (byte ∷ bytes)) x y z p q r = r byte bytes refl

module _ (c : ChunkContext) (r : ChunkRequest) (s : Server) (n : ℕ)
    (number : r.part_number ≡ some n) where
  accept_outcome :
      (body : Bytes)
      → concat r.pieces ≡ body
      → 0 < length (concat r.pieces)
      → length (concat r.pieces) ≤ upload_part_size
      → Outcome r s (accept_part c (header r.upload_session_id) (header r.upload_token) n body s)
  unfolding Outcome verify_upload_session_token
  accept_outcome body whole filled fits =
      let session_id : String = header r.upload_session_id in
      let token : String = header r.upload_token in
      by_option (Outcome r s) (load_upload_session s session_id) (s, refused 404)
        (λ row.
          if token_matches row.upload_token token
          then if is_part_number_allowed (some n) (declared row)
            then store_part c session_id row n body s
            else (s, refused 400)
          else (s, refused 403))
        (λ _. unchanged r s 404)
        (λ row found.
          by_test (Outcome r s) (token_matches row.upload_token token)
            (if is_part_number_allowed (some n) (declared row)
              then store_part c session_id row n body s
              else (s, refused 400))
            (s, refused 403)
            (λ matched.
              by_test (Outcome r s) (is_part_number_allowed (some n) (declared row))
                (store_part c session_id row n body s) (s, refused 400)
                (λ allowed. stored_outcome row found matched allowed) (λ _. unchanged r s 400))
            (λ _. unchanged r s 403))
    where
      stored_outcome :
          (row : UploadSessionRow)
          → load_upload_session s (header r.upload_session_id) ≡ some row
          → token_matches row.upload_token (header r.upload_token) ≡ true
          → is_part_number_allowed (some n) (declared row) ≡ true
          → Outcome r s (store_part c (header r.upload_session_id) row n body s)
      stored_outcome row found matched allowed = elim (Option-cases c.etag) [
        | inl e ↦ rw e (refl, inl refl)
        | inr (etag, e) ↦ rw e (
            by_test (Outcome r s) c.stores (after etag, answered n) (sent, refused 500)
              (λ _. record {
                row = row;
                etag = etag;
                session = found;
                token = ((token_matches_iff row.upload_token (header r.upload_token)).0 matched).0;
                number = number;
                allowed = allowed;
                filled = filled;
                fits = fits;
                stored = refl;
                sent =
                    ap (λ (x : Bytes). upload_part row.storage_key row.upload_id n x ∷ s.r2_calls)
                      (sym whole);
              })
              (λ _. (refl, inl refl)))
      ]
        where
          sent : Server
          sent = call_r2 (upload_part row.storage_key row.upload_id n body) s

          after : String → Server
          after etag =
              set_upload_parts
                (put_part
                  (record {
                    upload_session_id = header r.upload_session_id;
                    part_number = n;
                    etag = etag;
                  })
                  s.upload_parts)
                sent

  read_outcome :
      Outcome r s (read_part c r (header r.upload_session_id) (header r.upload_token) n s)
  read_outcome =
      let accepted : ℕ → Bytes → Server × Reply ℕ = λ byte bytes.
        accept_part c (header r.upload_session_id) (header r.upload_token) n (byte ∷ bytes) s in
      by_test (Outcome r s) c.within_rate
        (elim (read_body_within_limit r.content_length r.pieces upload_part_size) [
          | none ↦ (s, refused 413)
          | some [] ↦ (s, refused 400)
          | some (byte ∷ bytes) ↦ accepted byte bytes
        ])
        (s, refused 429)
        (λ _.
          by_body (Outcome r s) (read_body_within_limit r.content_length r.pieces upload_part_size)
            (s, refused 413) (s, refused 400) accepted (unchanged r s 413) (unchanged r s 400)
            (λ byte bytes e.
              let (filled, fits, whole) = body_fits r byte bytes e in
              accept_outcome (byte ∷ bytes) whole filled fits))
        (λ _. unchanged r s 429)

-- A part is stored, under its session and number, only if the session exists, the token is the
-- share's, the number is allowed for the declared size, and the body has from 1 byte to 8 MiB.
-- Every other request leaves the stored parts as they were, and the whole state unless it is a 500.
pub upload_chunk_lem :
    (c : ChunkContext) (r : ChunkRequest) (s : Server) → Outcome r s (upload_chunk c r s)
unfolding upload_chunk
upload_chunk_lem c r s =
    let headers : Bool =
      truthy (header r.upload_session_id)
      && (truthy (header r.part_number_header) && truthy (header r.upload_token)) in
    let go : ℕ → Server × Reply ℕ =
      λ n. read_part c r (header r.upload_session_id) (header r.upload_token) n s in
    by_test (Outcome r s) headers
      (elim r.part_number [
        | none ↦ (s, refused 400)
        | some n ↦ if ltb n 1 then (s, refused 400) else go n
      ])
      (s, refused 400)
      (λ _.
        by_option (Outcome r s) r.part_number (s, refused 400)
          (λ n. if ltb n 1 then (s, refused 400) else go n) (λ _. unchanged r s 400)
          (λ n number.
            by_test (Outcome r s) (ltb n 1) (s, refused 400) (go n) (λ _. unchanged r s 400)
              (λ _. read_outcome c r s n number)))
      (λ _. unchanged r s 400)
