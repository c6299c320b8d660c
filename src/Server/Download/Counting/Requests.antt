-- ===== src/Server/Download/Counting/Requests.antt =====
-- A request keeps the count of a file's open and finished streams.
use anzdrop.Base.{
  ℕ, ◌+◌, ◌≤◌, ◌≡◌, refl, sym, String, Bool, true, false, ◌&&◌, Option, none, some, find,
  find-passes, same, leb, arith, if◌then◌else◌, Bool-cases, Option-cases, ◌∙◌, same_beside,
  same_comm, inl, inr, by_test, by_option,
}
use anzdrop.Server.State.{File, Server, Reply, refused, answered, R2Call, get_object, call_r2}
use anzdrop.Server.Download.Listing.{has_downloads_left, is_counted}
use anzdrop.Server.Download.Range.{
  SingleRange, R2Range, build_range_response, is_unsatisfiable_range,
}
use anzdrop.Server.Download.File.{
  FileContext, FileResponse, headers_only, partial, whole, counted, consumed, with_count,
  consume_download, range_file, whole_file, safe_restore_download_count, send_whole, serve_file,
  parsed_range, head_file, range_failed, Fetched, object, absent, rejected,
}
use anzdrop.Server.Download.Counting.{
  IsRow, IsCounted, opens, uncounted, one_if, All-map, All-find, consumed-IsRow,
  restore_download_count-IsCounted, IsCounted-less,
}

by_fetched {ℓ κ} :
    {B : Type ℓ} (P : B → Type κ) (x : Fetched) (k : ℕ → Option R2Range → B) (y z : B)
    → ((size : ℕ) (range : Option R2Range) → P (k size range))
    → P y
    → P z
    → P (elim x [ object size range ↦ k size range | absent ↦ y | rejected ↦ z ])
by_fetched P (object size range) k y z p q r = p size range
by_fetched P absent k y z p q r = q
by_fetched P rejected k y z p q r = r

module _ (followed : String) (most : ℕ) where
  -- What an answer takes of the limit.
  abbrev pub takes : String → Reply FileResponse → ℕ
  takes id reply = opens followed id reply + uncounted followed id reply

  -- What holds after an answer: what it gives of the file is counted.
  abbrev pub Keeps : String → ℕ → Server × Reply FileResponse → Type 0
  Keeps id taken result = IsCounted followed most (taken + takes id result.1) result.0

  pub refused-Keeps :
      (id : String) (taken status : ℕ) (s : Server)
      → IsCounted followed most taken s
      → Keeps id taken (s, refused status)
  refused-Keeps id taken status s h =
      IsCounted-less followed most (taken + 0) taken s (omega arith) h

  called :
      (call : R2Call) (taken : ℕ) (s : Server)
      → IsCounted followed most taken s
      → IsCounted followed most taken (call_r2 call s)
  called call taken s h = record { within = h.within; rows = h.rows }

  -- A file that does not count is not the one followed.
  not_followed :
      (taken : ℕ) (f : File)
      → IsRow followed most taken f
      → is_counted f.max_downloads ≡ false
      → one_if (same f.id followed) ≡ 0
  not_followed taken f r free = elim (Bool-cases (same f.id followed)) [
    | inl b ↦ absurd (ground (arith, r.limit b, free))
    | inr b ↦ rw b refl
  ]

  IsRow-kept :
      (id : String) (taken : ℕ) (f : File)
      → IsRow followed most taken f
      → IsRow followed most taken (consumed id f)
  IsRow-kept id taken f r =
      by_test (IsRow followed most taken) (same f.id id && has_downloads_left f)
        (with_count f (f.download_count + 1)) f
        (λ b. record {
          limit = r.limit;
          used = λ h. omega (arith, r.used h);
          bounded = λ h. ground (arith, r.limit h, b);
        })
        (λ b. r)

  abbrev has_left : String → File → Bool
  has_left id g = same g.id id && has_downloads_left g

  fits :
      (id : String) (taken : ℕ) (s : Server) (f : File)
      → IsCounted followed most taken s
      → find (has_left id) s.files ≡ some f
      → taken + one_if (same id followed) ≤ most
  fits id taken s f h found =
      let row =
        All-find followed most (IsRow followed most taken) (has_left id) s.files f h.rows found in
      let passes : same f.id id && has_downloads_left f ≡ true =
        find-passes (has_left id) s.files f found in
      let named : same f.id id ≡ true = ground (arith, passes) in
      elim (Bool-cases (same id followed)) [
        | inl b ↦
            let mine : same f.id followed ≡ true =
              sym (same_beside f.id id followed named) ∙ (same_comm followed id ∙ b) in
            rw b (ground (arith, row.used mine, row.limit mine, passes))
        | inr b ↦ rw b (omega (arith, h.within))
      ]

  consume_download-IsCounted_kept :
      (id : String) (taken : ℕ) (s : Server)
      → IsCounted followed most taken s
      → IsCounted followed most taken (consume_download id s).0
  unfolding consume_download
  consume_download-IsCounted_kept id taken s h = record {
    within = h.within;
    rows =
        All-map followed most (IsRow followed most taken) (IsRow followed most taken) (consumed id)
          (IsRow-kept id taken) s.files h.rows;
  }

  consume_download-IsCounted :
      (id : String) (taken : ℕ) (row : ℕ × Option ℕ) (s : Server)
      → IsCounted followed most taken s
      → (consume_download id s).1 ≡ some row
      → IsCounted followed most (taken + one_if (same id followed)) (consume_download id s).0
  unfolding consume_download
  consume_download-IsCounted id taken row s h e = elim (Option-cases (find (has_left id) s.files)) [
    | inl missing ↦ absurd (ground (arith, e, missing))
    | inr (f, found) ↦
        let room = fits id taken s f h found in
        record {
          within = room;
          rows =
              All-map followed most (IsRow followed most taken)
                (IsRow followed most (taken + one_if (same id followed))) (consumed id)
                (λ g r. consumed-IsRow followed most id taken g room r) s.files h.rows;
        }
  ]

  limit_of :
      (f : File) (row : ℕ × Option ℕ)
      → some (f.download_count + 1, f.max_downloads) ≡ some row
      → row.1 ≡ none
      → f.max_downloads ≡ none
  limit_of f row e q = cc (e, q)

  consumed_limit :
      (id : String) (taken : ℕ) (row : ℕ × Option ℕ) (s : Server)
      → IsCounted followed most taken s
      → (consume_download id s).1 ≡ some row
      → row.1 ≡ none
      → one_if (same id followed) ≡ 0
  unfolding consume_download
  consumed_limit id taken row s h e limitless = elim (Option-cases (find (has_left id) s.files)) [
    | inl missing ↦ absurd (ground (arith, e, missing))
    | inr (f, found) ↦
        let r =
          All-find followed most (IsRow followed most taken) (has_left id) s.files f h.rows found in
        let passes : same f.id id && has_downloads_left f ≡ true =
          find-passes (has_left id) s.files f found in
        let named : same f.id id ≡ true = ground (arith, passes) in
        let same_limit : f.max_downloads ≡ none =
          limit_of f row (rw (found, consume_download) at e) limitless in
        elim (Bool-cases (same id followed)) [
          | inl b ↦
              let mine : same f.id followed ≡ true =
                sym (same_beside f.id id followed named) ∙ (same_comm followed id ∙ b) in
              absurd (cc (r.limit mine, same_limit))
          | inr b ↦ rw b refl
        ]
  ]

  pub restored_or_not :
      (restores : Bool) (id : String) (taken : ℕ) (s : Server)
      → IsCounted followed most (taken + one_if (same id followed)) s
      → IsCounted followed most taken (safe_restore_download_count restores id s)
  restored_or_not true id taken s h = restore_download_count-IsCounted followed most id taken s h
  restored_or_not false id taken s h =
      IsCounted-less followed most taken (taken + one_if (same id followed)) s (omega arith) h

  answered-Keeps :
      (id : String) (taken : ℕ) (s : Server) (r : FileResponse)
      → takes id (answered r) ≡ 0
      → IsCounted followed most taken s
      → Keeps id taken (s, answered r)
  answered-Keeps id taken s r e h =
      IsCounted-less followed most (taken + takes id (answered r)) taken s (omega (arith, e)) h

  -- Both readings of the table after the count went up: with the stream, and without it.
  send_whole-Keeps :
      (c : FileContext) (f : File) (taken : ℕ) (row : ℕ × Option ℕ) (s : Server)
      → IsCounted followed most taken s
      → IsCounted followed most (taken + one_if (same f.id followed)) s
      → (row.1 ≡ none → one_if (same f.id followed) ≡ 0)
      → Keeps f.id taken (send_whole c f row s)
  send_whole-Keeps c f taken (n, none) s kept more other =
      let touched = called (get_object f.storage_key) taken s kept in
      let sent : Server = call_r2 (get_object f.storage_key) s in
      by_fetched (Keeps f.id taken) c.fetched (λ size range. (sent, answered (whole size)))
        (sent, refused 404) (sent, refused 500)
        (λ size range.
          answered-Keeps f.id taken sent (whole size) (omega (arith, other refl)) touched)
        (refused-Keeps f.id taken 404 sent touched) (refused-Keeps f.id taken 500 sent touched)
  send_whole-Keeps c f taken (n, some m) s kept more other =
      let sent : Server = call_r2 (get_object f.storage_key) s in
      let open_stream =
        called (get_object f.storage_key) (taken + one_if (same f.id followed)) s more in
      let closed = restored_or_not c.restores f.id taken sent open_stream in
      by_fetched (Keeps f.id taken) c.fetched
        (λ size range. (sent, answered (counted size (leb m n))))
        (safe_restore_download_count c.restores f.id sent, refused 404)
        (safe_restore_download_count c.restores f.id sent, refused 500)
        (λ size range.
          IsCounted-less followed most (taken + takes f.id (answered (counted size (leb m n))))
            (taken + one_if (same f.id followed)) sent (omega arith) open_stream)
        (refused-Keeps f.id taken 404 (safe_restore_download_count c.restores f.id sent) closed)
        (refused-Keeps f.id taken 500 (safe_restore_download_count c.restores f.id sent) closed)

  whole_file-Keeps :
      (c : FileContext) (f : File) (taken : ℕ) (s : Server)
      → IsCounted followed most taken s
      → Keeps f.id taken (whole_file c f s)
  unfolding whole_file
  whole_file-Keeps c f taken s h =
      by_option (Keeps f.id taken) (consume_download f.id s).1
        ((consume_download f.id s).0, refused 404)
        (λ row. send_whole c f row (consume_download f.id s).0)
        (λ e.
          refused-Keeps f.id taken 404 (consume_download f.id s).0
            (consume_download-IsCounted_kept f.id taken s h))
        (λ row e.
          send_whole-Keeps c f taken row (consume_download f.id s).0
            (consume_download-IsCounted_kept f.id taken s h)
            (consume_download-IsCounted f.id taken row s h e) (consumed_limit f.id taken row s h e))

  head_file-Keeps :
      (c : FileContext) (f : File) (taken : ℕ) (s : Server)
      → IsCounted followed most taken s
      → Keeps f.id taken (head_file c f s)
  head_file-Keeps c f taken s h =
      by_test (Keeps f.id taken) (has_downloads_left f)
        (elim c.metadata [
          | object size range ↦ (s, answered (headers_only size))
          | absent ↦ (s, refused 404)
          | rejected ↦ (s, refused 500)
        ])
        (s, refused 404)
        (λ _.
          by_fetched (Keeps f.id taken) c.metadata (λ size range. (s, answered (headers_only size)))
            (s, refused 404) (s, refused 500)
            (λ size range. answered-Keeps f.id taken s (headers_only size) refl h)
            (refused-Keeps f.id taken 404 s h) (refused-Keeps f.id taken 500 s h))
        (λ _. refused-Keeps f.id taken 404 s h)

  range_file-Keeps :
      (c : FileContext) (range : SingleRange) (f : File) (taken : ℕ) (s : Server)
      → IsCounted followed most taken s
      → one_if (same f.id followed) ≡ 0
      → Keeps f.id taken (range_file c range f s)
  unfolding range_file
  range_file-Keeps c range f taken s h other =
      let sent : Server = call_r2 (get_object f.storage_key) s in
      let touched = called (get_object f.storage_key) taken s h in
      by_fetched (Keeps f.id taken) c.fetched
        (λ size ranged. (sent, answered (partial (build_range_response ranged size))))
        (sent, refused 404) (range_failed c range sent)
        (λ size ranged.
          answered-Keeps f.id taken sent (partial (build_range_response ranged size))
            (omega (arith, other)) touched)
        (refused-Keeps f.id taken 404 sent touched)
        (by_fetched (Keeps f.id taken) c.metadata
          (λ size ranged.
            if is_unsatisfiable_range range size then (sent, refused 416) else (sent, refused 500))
          (sent, refused 500) (sent, refused 500)
          (λ size ranged.
            by_test (Keeps f.id taken) (is_unsatisfiable_range range size) (sent, refused 416)
              (sent, refused 500) (λ _. refused-Keeps f.id taken 416 sent touched)
              (λ _. refused-Keeps f.id taken 500 sent touched))
          (refused-Keeps f.id taken 500 sent touched) (refused-Keeps f.id taken 500 sent touched))

  pub serve_file-Keeps :
      (c : FileContext) (f : File) (taken : ℕ) (s : Server)
      → IsCounted followed most taken s
      → IsRow followed most taken f
      → Keeps f.id taken (serve_file c f s)
  serve_file-Keeps c f taken s h r =
      by_test (Keeps f.id taken) c.is_head (head_file c f s)
        (elim (parsed_range c) [
          | none ↦ whole_file c f s
          | some range ↦
              if is_counted f.max_downloads then whole_file c f s else range_file c range f s
        ])
        (λ _. head_file-Keeps c f taken s h)
        (λ _.
          by_option (Keeps f.id taken) (parsed_range c) (whole_file c f s)
            (λ range.
              if is_counted f.max_downloads then whole_file c f s else range_file c range f s)
            (λ _. whole_file-Keeps c f taken s h)
            (λ range _.
              by_test (Keeps f.id taken) (is_counted f.max_downloads) (whole_file c f s)
                (range_file c range f s) (λ _. whole_file-Keeps c f taken s h)
                (λ free. range_file-Keeps c range f taken s h (not_followed taken f r free))))
