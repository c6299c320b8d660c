-- ===== src/Cleanup/Tests.antt =====
-- The clean-ups on a small server: a share past its end with one file and one upload session, and another with a
-- file. The bucket is a list of keys whose calls never fail.
use anzdrop.Base.{
  ◌*◌, ◌≤◌, String, Bool, true, false, not, ◌≡◌, refl, sym, ap, ◌∙◌, none, some, List, [], ◌∷◌,
  keep, keep-true, keep-false, exists, same, same_iff, inl, inr, arith, Bool-cases,
}
use mathlib.Core.Path.{subst}
use mathlib.Core.List.{Memᴰ}
use anzdrop.Server.State.{Share, Upload, File, Server}
use anzdrop.Cleanup.World.{
  Storage, World, mem, missing_upload, object_found, consume, done, ◌>>=◌, query, spend,
  call_database, read, pure, batch, prepare, prepare_call, prepare_times, write,
}
use anzdrop.Cleanup.Triple.{Ends}
use anzdrop.Cleanup.Share.{
  delete_share, distinct, delete_inspected, delete_objects, abort_call, head_call, delete_call,
  abort_uploads, abort_multipart_upload, check_references,
}
use anzdrop.Cleanup.Share.Tracked.{IsTracked, IsKeyed}
use anzdrop.Cleanup.Share.Outcome.{ShareGone, AllOrNothing}
use anzdrop.Cleanup.Share.Removed.{delete_share_lem}
use anzdrop.Cleanup.Batches.{CleanupBatchOptions, query_limit_of, max_batches_of}
use anzdrop.Cleanup.Batches.Counts.{CountsWithin}
use anzdrop.Cleanup.Schedule.{run_scheduled_cleanup, cleanup_expired_shares, cleanup_stale_uploads}
use anzdrop.Cleanup.Schedule.Tracked.{FewerUploads}
use anzdrop.Cleanup.Schedule.Runs.{run_scheduled_cleanup-IsTracked}
use anzdrop.Cleanup.Schedule.Counts.{cleanup_bounds}
use anzdrop.Cleanup.Budget.Scheduled.{run_scheduled_cleanup_calls}

abbrev without : List String → List String → List String
without ks = keep (λ k. not (mem k ks))

mem-cons : (j k : String) (ks : List String) → same k j ≡ true → mem j (k ∷ ks) ≡ true
mem-cons j k ks e = rw (exists, e) refl

mem-without_out :
    (ks : List String) (b : List String) (j : String)
    → mem j ks ≡ true
    → mem j (without ks b) ≡ false
mem-without_out ks [] j h = refl
mem-without_out ks (k ∷ b) j h = elim (Bool-cases (mem k ks)) [
  | inl e ↦ rw (keep-false (λ k. not (mem k ks)) k b (rw e refl)) (mem-without_out ks b j h)
  | inr e ↦ elim (Bool-cases (same k j)) [
    | inl s ↦ absurd (cc (e, subst (λ (x : String). mem x ks ≡ true) (sym ((same_iff k j).0 s)) h))
    | inr s ↦
        rw (keep-true (λ k. not (mem k ks)) k b (rw e refl), exists, s) (mem-without_out ks b j h)
  ]
]

mem-without :
    (ks : List String) (b : List String) (j : String)
    → mem j ks ≡ false
    → mem j (without ks b) ≡ mem j b
mem-without ks [] j h = refl
mem-without ks (k ∷ b) j h = elim (Bool-cases (mem k ks)) [
  | inr e ↦ rw (keep-true (λ k. not (mem k ks)) k b (rw e refl)) (
      ap (λ (t : Bool). elim (same k j) as (λ _. Bool) [ true ↦ true | false ↦ t ])
        (mem-without ks b j h))
  | inl e ↦ elim (Bool-cases (same k j)) [
    | inl s ↦ absurd (cc (e, subst (λ (x : String). mem x ks ≡ false) (sym ((same_iff k j).0 s)) h))
    | inr s ↦
        rw (keep-false (λ k. not (mem k ks)) k b (rw e refl), exists, s) (mem-without ks b j h)
  ]
]

mem-without_none :
    (ks : List String) (b : List String) (j : String)
    → mem j b ≡ false
    → mem j (without ks b) ≡ false
mem-without_none ks b j h = elim (Bool-cases (mem j ks)) [
  | inl e ↦ mem-without_out ks b j e
  | inr e ↦ mem-without ks b j e ∙ h
]

found_true : (x y : Bool) → object_found x ≡ object_found y → x ≡ y
found_true x y e = cc

abbrev key_list : Storage
key_list = record {
  Bucket = List String;
  holds = λ b k. mem k b;
  abort = λ k u b. (missing_upload, b);
  head = λ k b. (object_found (mem k b), b);
  delete = λ ks b. (true, without ks b);
  holds-abort = λ k u b j. refl;
  holds-head = λ k b j. refl;
  head_true = λ k b x e. found_true (mem k b) x e;
  delete_removes = λ ks b j _ h. mem-without_out ks b j h;
  delete_leaves = λ ks b j h. mem-without ks b j h;
  delete_adds_none = λ ks b j h. mem-without_none ks b j h;
}

abbrev ended_share : Share
ended_share = record {
  id = "ended";
  created_at = 0;
  expires_at = 1000;
  upload_token = some "token";
  wrapped_key = none;
  key_salt = none;
  suspended_at = none;
  preview_allowed = 0;
}

abbrev file_of : String → String → String → File
file_of id share_id key = record {
  id = id;
  share_id = share_id;
  storage_key = key;
  encrypted_file_name = "name";
  size = 1;
  max_downloads = none;
  download_count = 0;
  created_at = 10;
}

abbrev open_upload : Upload
open_upload = record {
  id = "session";
  share_id = "ended";
  storage_key = "ended/3";
  upload_id = "r2";
  encrypted_file_name = "name";
  file_size = some 1;
  max_downloads = none;
  created_at = 20;
}

abbrev server : Server
server = record {
  shares = ended_share ∷ record ended_share { id = "live"; expires_at = 500000 } ∷ [];
  uploads = open_upload ∷ [];
  upload_parts = [];
  files = file_of "f" "ended" "ended/1" ∷ file_of "g" "live" "live/1" ∷ [];
  r2_calls = [];
}

abbrev world : World key_list
world = record {
  server = server;
  bucket = "ended/1" ∷ "live/1" ∷ [];
  faults = [];
  budgets = [];
  calls = 0;
}

by_time : String → String → Bool
by_time s t = false

world-IsTracked : IsTracked key_list server ("ended/1" ∷ "live/1" ∷ [])
world-IsTracked key h = ground (arith, h)

one_of_two :
    (x y f g : File)
    → Memᴰ f (x ∷ y ∷ [])
    → Memᴰ g (x ∷ y ∷ [])
    → (x.id ≡ y.id → ⊥)
    → f.id ≡ g.id
    → f ≡ g
one_of_two x y f g (Memᴰ.head a) (Memᴰ.head b) ne e = cc
one_of_two x y f g (Memᴰ.head a) (Memᴰ.tail (Memᴰ.head b)) ne e = absurd (ne (cc))
one_of_two x y f g (Memᴰ.tail (Memᴰ.head a)) (Memᴰ.head b) ne e = absurd (ne (cc))
one_of_two x y f g (Memᴰ.tail (Memᴰ.head a)) (Memᴰ.tail (Memᴰ.head b)) ne e = cc
one_of_two x y f g (Memᴰ.head a) (Memᴰ.tail (Memᴰ.tail b)) ne e = elim b [ ]
one_of_two x y f g (Memᴰ.tail (Memᴰ.head a)) (Memᴰ.tail (Memᴰ.tail b)) ne e = elim b [ ]
one_of_two x y f g (Memᴰ.tail (Memᴰ.tail a)) n ne e = elim a [ ]

the_one : (x u v : Upload) → Memᴰ u (x ∷ []) → Memᴰ v (x ∷ []) → u ≡ v
the_one x u v (Memᴰ.head a) (Memᴰ.head b) = cc
the_one x u v (Memᴰ.head a) (Memᴰ.tail b) = elim b [ ]
the_one x u v (Memᴰ.tail a) n = elim a [ ]

different : false ≡ true → ⊥
different e = cc

world-IsKeyed : IsKeyed server
world-IsKeyed = record {
  files_by_id = λ f g m n.
      one_of_two (file_of "f" "ended" "ended/1") (file_of "g" "live" "live/1") f g m n
        (λ e. different ((same_iff "f" "g").1 e));
  uploads_by_id = λ u v m n _. the_one open_upload u v m n;
}

delete_share_lem_example :
    Ends
      (λ _. ShareGone key_list server ("ended/1" ∷ "live/1" ∷ []) "ended")
      (λ _. AllOrNothing key_list server ("ended/1" ∷ "live/1" ∷ []) "ended")
      (delete_share "ended" world)
delete_share_lem_example = delete_share_lem key_list "ended" world world-IsTracked world-IsKeyed

-- One more call of D1 fails: the transaction, and the tables stay as they are.
delete_share_outcomes :
    ((delete_share {st = key_list} "ended" world).0 ≡ done tt)
    × ((delete_share {st = key_list} "ended" world).1.bucket ≡ "live/1" ∷ [])
    × ((delete_share {st = key_list} "ended"
          (record world { faults = false ∷ false ∷ false ∷ true ∷ [] })).1.server
        ≡ server)
unfolding delete_share distinct delete_inspected delete_objects abort_uploads abort_multipart_upload
    check_references ◌>>=◌ query spend consume call_database read pure abort_call head_call
    delete_call batch prepare prepare_call prepare_times write
delete_share_outcomes = (refl, refl, refl)

run_scheduled_cleanup_calls_example :
    (run_scheduled_cleanup by_time {st = key_list} (some 12) 90000000 90000001 world).1.calls ≤ 12
run_scheduled_cleanup_calls_example =
    run_scheduled_cleanup_calls by_time key_list (some 12) 90000000 90000001 world

run_scheduled_cleanup-IsTracked_example :
    let w' = (run_scheduled_cleanup by_time {st = key_list} none 90000000 90000001 world).1 in
    IsTracked key_list w'.server w'.bucket × IsKeyed w'.server × FewerUploads server w'.server
run_scheduled_cleanup-IsTracked_example =
    run_scheduled_cleanup-IsTracked by_time key_list none 90000000 90000001 world world-IsTracked
      world-IsKeyed

abbrev two_pages : CleanupBatchOptions
two_pages = record {
  query_limit = some 1;
  max_batches = some 2;
  dry_run = false;
  work_limit = none;
}

cleanup_bounds_example :
    CountsWithin
      (query_limit_of two_pages * max_batches_of two_pages)
      (cleanup_expired_shares by_time {st = key_list} 2000 two_pages world)
    × CountsWithin
        (query_limit_of two_pages * max_batches_of two_pages)
        (cleanup_stale_uploads by_time {st = key_list} 2000 two_pages world)
cleanup_bounds_example = cleanup_bounds by_time key_list 2000 two_pages world
