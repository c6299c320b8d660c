-- ===== src/Server/Download/Counting.antt =====
-- How often a file with a limit is delivered: requests and the ends of streams, in any order.
pub mod Deliveries
pub mod Requests
use anzdrop.Base.{
  ℕ, ◌+◌, ◌-◌, ◌≤◌, ◌<◌, ◌≡◌, refl, sym, ap, String, Bool, true, false, not, ◌&&◌, Option, none,
  some, List, [], ◌∷◌, map, keep, find, find-passes, same, same_iff, same_beside, ltb, leb, arith,
  All, if◌then◌else◌, Bool-cases, inl, inr, by_test, by_option, keep-true, keep-false,
}
use anzdrop.Server.State.{File, Server, Reply, refused, answered, set_files}
use anzdrop.Server.Download.Listing.{has_downloads_left, is_counted}
use anzdrop.Server.Download.File.{
  FileContext, FileResponse, headers_only, partial, whole, counted, StreamEnd, restored, consumed,
  restore_download_count, consume_download, range_file, whole_file, get_file, delete_one_time_file,
  is_fully_delivered, finish_download, with_count, Fetched, object, absent, rejected,
}

-- One file followed through the server's life: how many of its counted streams are open, and how
-- often it was delivered: in full by a counted stream, or by an answer that is not counted.
pub record Downloads : Type 0 where
  pub server : Server
  pub open_streams : ℕ
  pub delivered : ℕ

abbrev pub one_if : Bool → ℕ
one_if b = if b then 1 else 0

-- Whether an answer opens a counted stream of the file followed.
abbrev pub opens : (followed file_id : String) → Reply FileResponse → ℕ
opens followed file_id (refused status) = 0
opens followed file_id (answered (headers_only size)) = 0
opens followed file_id (answered (partial response)) = 0
opens followed file_id (answered (whole size)) = 0
opens followed file_id (answered (counted size is_final)) = one_if (same file_id followed)

-- Whether an answer gives bytes of the file followed without counting.
abbrev pub uncounted : (followed file_id : String) → Reply FileResponse → ℕ
uncounted followed file_id (refused status) = 0
uncounted followed file_id (answered (headers_only size)) = 0
uncounted followed file_id (answered (partial response)) = one_if (same file_id followed)
uncounted followed file_id (answered (whole size)) = one_if (same file_id followed)
uncounted followed file_id (answered (counted size is_final)) = 0

-- One step: a request for any file, or the end of a stream, of the file followed if one is open.
pub data Step (followed : String) : Downloads → Downloads → Type 0 where
  request :
      (c : FileContext) (file_id : String) (d : Downloads)
      → Step followed d (record {
        server = (get_file c file_id d.server).0;
        open_streams = d.open_streams + opens followed file_id (get_file c file_id d.server).1;
        delivered = d.delivered + uncounted followed file_id (get_file c file_id d.server).1;
      })
  stream_end :
      (e : StreamEnd) (file_id storage_key : String) (size : ℕ) (is_final : Bool) (d : Downloads)
      → one_if (same file_id followed) ≤ d.open_streams
      → Step followed d (record {
        server = finish_download e file_id storage_key size is_final d.server;
        open_streams = d.open_streams - one_if (same file_id followed);
        delivered = d.delivered + one_if (same file_id followed && is_fully_delivered e size);
      })

pub data Reaches (followed : String) : Downloads → Downloads → Type 0 where
  done : (d : Downloads) → Reaches followed d d
  next : (d e f : Downloads) → Step followed d e → Reaches followed e f → Reaches followed d f

module _ (followed : String) (most : ℕ) where
  -- A row of the file followed: its limit is `most`, and `taken` of its downloads are in use.
  pub record IsRow (taken : ℕ) (f : File) : Type 0 where
    pub limit : same f.id followed ≡ true → f.max_downloads ≡ some most
    pub used : same f.id followed ≡ true → taken ≤ f.download_count
    pub bounded : same f.id followed ≡ true → f.download_count ≤ most

  pub record IsCounted (taken : ℕ) (s : Server) : Type 0 where
    pub within : taken ≤ most
    pub rows : All (IsRow taken) s.files

  pub All-imp :
      (P Q : File → Type 0) → ((f : File) → P f → Q f) → (fs : List File) → All P fs → All Q fs
  All-imp P Q step [] h = tt
  All-imp P Q step (f ∷ fs) (h, hs) = (step f h, All-imp P Q step fs hs)

  pub All-map :
      (P Q : File → Type 0) (g : File → File)
      → ((f : File) → P f → Q (g f))
      → (fs : List File) → All P fs
      → All Q (map g fs)
  All-map P Q g step [] h = tt
  All-map P Q g step (f ∷ fs) (h, hs) = (step f h, All-map P Q g step fs hs)

  restored-IsRow :
      (id : String) (taken : ℕ) (f : File)
      → IsRow (taken + one_if (same id followed)) f
      → IsRow taken (restored id f)
  restored-IsRow id taken f r =
      by_test (IsRow taken) (same f.id id && ltb 0 f.download_count)
        (with_count f (f.download_count - 1)) f
        (λ b. record {
          limit = r.limit;
          used = λ h.
              let one : one_if (same id followed) ≡ 1 =
                rw (same_beside f.id followed id h) (ground (arith, b)) in
              omega (arith, r.used h, one);
          bounded = λ h. omega (arith, r.bounded h);
        })
        (λ b. record { limit = r.limit; used = λ h. omega (arith, r.used h); bounded = r.bounded })

  pub consumed-IsRow :
      (id : String) (taken : ℕ) (f : File)
      → taken + one_if (same id followed) ≤ most
      → IsRow taken f
      → IsRow (taken + one_if (same id followed)) (consumed id f)
  consumed-IsRow id taken f fits r =
      by_test (IsRow (taken + one_if (same id followed))) (same f.id id && has_downloads_left f)
        (with_count f (f.download_count + 1)) f
        (λ b. record {
          limit = r.limit;
          used = λ h. ground (arith, r.used h);
          bounded = λ h. ground (arith, r.limit h, b);
        })
        (λ b. record {
          limit = r.limit;
          used = λ h. rw (same_beside f.id followed id h) (
              ground
                (arith, r.used h, r.limit h, r.bounded h, b, same_beside f.id followed id h, fits));
          bounded = r.bounded;
        })

  pub All-keep :
      (P : File → Type 0) (q : File → Bool) (fs : List File) → All P fs → All P (keep q fs)
  All-keep P q [] h = tt
  All-keep P q (f ∷ fs) (h, hs) = elim (Bool-cases (q f)) [
    | inl e ↦ rw (keep-true q f fs e) (h, All-keep P q fs hs)
    | inr e ↦ rw (keep-false q f fs e) (All-keep P q fs hs)
  ]

  pub All-find :
      (P : File → Type 0) (q : File → Bool) (fs : List File) (f : File)
      → All P fs
      → find q fs ≡ some f
      → P f
  All-find P q [] f h e = absurd cc
  All-find P q (g ∷ gs) f (h, hs) e = elim (Bool-cases (q g)) [
    | inl b ↦ let same_file : g ≡ f = ground (arith, e, b) in rw (← same_file) h
    | inr b ↦ All-find P q gs f hs (ground (arith, e, b))
  ]

  -- Closing a stream, with or without the count taken back, and deleting the file, keep the count.
  pub IsCounted-less :
      (less taken : ℕ) (s : Server) → less ≤ taken → IsCounted taken s → IsCounted less s
  IsCounted-less less taken s le h = record {
    within = omega (arith, h.within);
    rows =
        All-imp (IsRow taken) (IsRow less)
          (λ f r. record {
            limit = r.limit;
            used = λ e. omega (arith, r.used e);
            bounded = r.bounded;
          })
          s.files h.rows;
  }

  pub restore_download_count-IsCounted :
      (id : String) (taken : ℕ) (s : Server)
      → IsCounted (taken + one_if (same id followed)) s
      → IsCounted taken (restore_download_count id s)
  unfolding restore_download_count
  restore_download_count-IsCounted id taken s h = record {
    within = omega (arith, h.within);
    rows =
        All-map (IsRow (taken + one_if (same id followed))) (IsRow taken) (restored id)
          (restored-IsRow id taken) s.files h.rows;
  }

  pub delete_one_time_file-IsCounted :
      (deletes : Bool) (id key : String) (taken : ℕ) (s : Server)
      → IsCounted taken s
      → IsCounted taken (delete_one_time_file deletes id key s)
  unfolding delete_one_time_file
  delete_one_time_file-IsCounted true id key taken s h = record {
    within = h.within;
    rows = All-keep (IsRow taken) (λ f. not (same f.id id)) s.files h.rows;
  }
  delete_one_time_file-IsCounted false id key taken s h = record {
    within = h.within;
    rows = h.rows;
  }
