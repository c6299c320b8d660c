-- ===== src/Client/UploadTests.antt =====
-- lib/upload/chunkUploader.ts: an upload of two parts by two workers, one of whom falls back.
use mathlib.Core.List.{Perm}
use anzdrop.Base.{
  Bool, Option, inl, inr, ℕ, zero, suc, ◌≡◌, refl, false, List, [], ◌∷◌, some, none, arith,
}
use anzdrop.Crypto.Bytes.{Bytes}
use anzdrop.Client.Repartition.{Part, repartition, repartition_from, drain, take_pieces}
use anzdrop.Client.Uploader.{
  UploadError, part_upload_max_attempts, Round, PutResponse, uploaded, proxy_rounds,
  upload_part_proxy, put_rounds, normalize_etag, ack_rounds, upload_part_direct, direct, Pool,
  worker_at, set_worker, part_read, direct_ended, proxy_ended, new_workers, start_pool,
  all_finished, upload_end, succeeded,
}
use anzdrop.Client.Uploader.Attempts.{Meets, IsOk, Named, upload_part_direct_lem}
use anzdrop.Client.Uploader.Steps.{HasSeen, Reaches, here, next, was_read, was_put, was_sent}
use anzdrop.Client.Uploader.Sent.{sent_bytes, upload_chunks_from_stream_lem}

abbrev source : List Bytes
source = (1 ∷ 2 ∷ []) ∷ (3 ∷ []) ∷ []

abbrev first : Part
first = record { part_number = 1; body = 1 ∷ 2 ∷ [] }

abbrev second : Part
second = record { part_number = 2; body = 3 ∷ [] }

abbrev answers_with : {A : Type 0} → A → Round A
answers_with a = record {
  stopped_before = false;
  answer = some a;
  stopped_after = false;
  wait_aborted = false;
}

-- A busy server, then a success with `"7"`.
abbrev puts : ℕ → Round PutResponse
puts (suc zero) = answers_with (record { status = 503; etag = none })
puts k = answers_with (record { status = 200; etag = some (34 ∷ 55 ∷ 34 ∷ []) })

abbrev refused_puts : ℕ → Round PutResponse
refused_puts k = answers_with (record { status = 403; etag = none })

abbrev acks : List ℕ → ℕ → Round ℕ
acks etag k = answers_with 200

abbrev successes : ℕ → Round ℕ
successes k = answers_with 200

put_twice : upload_part_direct part_upload_max_attempts puts acks ≡ uploaded
unfolding upload_part_direct put_rounds ack_rounds normalize_etag
put_twice = refl

upload_part_direct_lem_example :
    (etag : List ℕ) × Meets puts (Named etag) 1 6 × Meets (acks etag) IsOk 1 6
upload_part_direct_lem_example = upload_part_direct_lem 6 puts acks (omega arith) put_twice

abbrev w0 : Pool
w0 = start_pool 2 (repartition 2 source)

abbrev w1 : Pool
w1 = part_read direct 0 w0

abbrev w2 : Pool
w2 = part_read direct 1 w1

abbrev w3 : Pool
w3 = direct_ended 1 second (upload_part_direct 6 refused_puts acks) w2

abbrev w4 : Pool
w4 = direct_ended 0 first (upload_part_direct 6 puts acks) w3

abbrev w5 : Pool
w5 = proxy_ended 1 second (upload_part_proxy 6 successes) w4

abbrev w6 : Pool
w6 = part_read direct 0 w5

abbrev w7 : Pool
w7 = part_read direct 1 w6

ended_well : upload_end w7 ≡ succeeded
unfolding upload_end all_finished start_pool new_workers repartition repartition_from drain
    take_pieces part_read direct_ended proxy_ended upload_part_direct upload_part_proxy put_rounds
    ack_rounds proxy_rounds normalize_etag set_worker
ended_well = refl

-- No round has seen an error.
abbrev calm : {A : Type 0} → Round A → Bool × Bool × Bool
calm r = (r.stopped_before, r.stopped_after, r.wait_aborted)

calm-puts : (k : ℕ) → calm (puts k) ≡ (false, false, false)
calm-puts zero = refl
calm-puts (suc zero) = refl
calm-puts (suc (suc k)) = refl

flagless :
    {A : Type 0} {error : Option UploadError} (rounds : ℕ → Round A)
    → ((k : ℕ) → calm (rounds k) ≡ (false, false, false))
    → HasSeen error rounds
flagless rounds e k (inl b) = absurd (cc (b, e k))
flagless rounds e k (inr (inl b)) = absurd (cc (b, e k))
flagless rounds e k (inr (inr b)) = absurd (cc (b, e k))

reached : Reaches direct 6 w0 w7
unfolding start_pool new_workers repartition repartition_from drain take_pieces part_read
    direct_ended proxy_ended upload_part_direct upload_part_proxy put_rounds ack_rounds proxy_rounds
    normalize_etag set_worker worker_at
reached =
    next
      (next
        (next
          (next
            (next (next (next here (was_read w0 0 refl)) (was_read w1 1 refl)) (
              was_put w2 1 second refused_puts acks refl (flagless refused_puts (λ k. refl))
                (λ etag. flagless (acks etag) (λ k. refl))))
            (was_put w3 0 first puts acks refl (flagless puts calm-puts)
              (λ etag. flagless (acks etag) (λ k. refl))))
          (was_sent w4 1 second successes refl (flagless successes (λ k. refl))))
        (was_read w5 0 refl))
      (was_read w6 1 refl)

upload_chunks_from_stream_lem_example :
    Perm w7.sent (repartition 2 source) × (sent_bytes w7.sent ≡ 3)
upload_chunks_from_stream_lem_example =
    upload_chunks_from_stream_lem direct 6 2 2 source w7 (omega arith) (omega arith) reached
      ended_well
