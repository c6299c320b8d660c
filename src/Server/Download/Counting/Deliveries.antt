-- ===== src/Server/Download/Counting/Deliveries.antt =====
-- A file with a limit is never delivered more often than that.
use anzdrop.Base.{
  ℕ, ◌+◌, ◌-◌, ◌≤◌, ◌≡◌, String, Bool, ◌&&◌, none, some, find-passes, same, same_iff, arith,
  by_option, by_test, if◌then◌else◌, All,
}
use anzdrop.Server.State.{Share, File, Server, Reply, refused}
use anzdrop.Server.ShareAuth.{find_share, check_share_accessible}
use anzdrop.Server.Download.File.{
  FileContext, FileResponse, get_file, find_file, serve_file, StreamEnd, finish_download,
  is_fully_delivered, safe_restore_download_count, delete_one_time_file,
}
use anzdrop.Server.Download.Counting.{
  Downloads, Step, request, stream_end, Reaches, done, next, IsRow, IsCounted, opens, uncounted,
  one_if, All-find, IsCounted-less, delete_one_time_file-IsCounted,
}
use anzdrop.Server.Download.Counting.Requests.{
  Keeps, takes, refused-Keeps, serve_file-Keeps, restored_or_not,
}

module _ (followed : String) (most : ℕ) where
  get_file-Keeps :
      (c : FileContext) (id : String) (taken : ℕ) (s : Server)
      → IsCounted followed most taken s
      → Keeps followed most id taken (get_file c id s)
  unfolding get_file
  get_file-Keeps c id taken s h =
      by_test P c.within_rate
        (elim (find_file id s.files) [ none ↦ (s, refused 404) | some f ↦ shared f ])
        (s, refused 429)
        (λ _.
          by_option P (find_file id s.files) (s, refused 404) shared
            (λ _. refused-Keeps followed most id taken 404 s h)
            (λ f found.
              by_option P (find_share f.share_id s.shares) (s, refused 404) (opened f)
                (λ _. refused-Keeps followed most id taken 404 s h)
                (λ share _. by_option_flip f share found)))
        (λ _. refused-Keeps followed most id taken 429 s h)
    where
      P : Server × Reply FileResponse → Type 0
      P = Keeps followed most id taken

      opened : File → Share → Server × Reply FileResponse
      opened f share = elim (check_share_accessible c.now share.expires_at share.suspended_at) [
        | some status ↦ (s, refused status)
        | none ↦ serve_file c f s
      ]

      shared : File → Server × Reply FileResponse
      shared f = elim (find_share f.share_id s.shares) [
        | none ↦ (s, refused 404)
        | some share ↦ opened f share
      ]

      by_option_flip :
          (f : File) (share : Share) → find_file id s.files ≡ some f → P (opened f share)
      by_option_flip f share found =
          let named : f.id ≡ id =
            (same_iff f.id id).0 (find-passes (λ g. same g.id id) s.files f found) in
          by_option P (check_share_accessible c.now share.expires_at share.suspended_at)
            (serve_file c f s) (λ status. (s, refused status))
            (λ _. rw (← named) (
              serve_file-Keeps followed most c f taken s h (
                All-find followed most (IsRow followed most taken) (λ g. same g.id id) s.files f
                  h.rows found)))
            (λ status _. refused-Keeps followed most id taken status s h)

  finish_download-IsCounted :
      (e : StreamEnd) (id key : String) (size : ℕ) (is_final : Bool) (open_streams delivered : ℕ)
      (s : Server)
      → one_if (same id followed) ≤ open_streams
      → IsCounted followed most (open_streams + delivered) s
      → IsCounted followed most
          (open_streams
            - one_if (same id followed)
            + (delivered + one_if (same id followed && is_fully_delivered e size)))
          (finish_download e id key size is_final s)
  unfolding finish_download
  finish_download-IsCounted e id key size is_final open_streams delivered s some_open h =
      let mine : ℕ = one_if (same id followed) in
      let full : Bool = is_fully_delivered e size in
      let after : ℕ = open_streams - mine + (delivered + one_if (same id followed && full)) in
      let before : ℕ = open_streams + delivered in
      by_test (IsCounted followed most after) full
        (if is_final then delete_one_time_file e.deletes id key s else s)
        (safe_restore_download_count e.restores id s)
        (λ b.
          let less : after ≤ before = ground (arith, b, some_open) in
          let kept = IsCounted-less followed most after before s less h in
          by_test (IsCounted followed most after) is_final (delete_one_time_file e.deletes id key s)
            s (λ _. delete_one_time_file-IsCounted followed most e.deletes id key after s kept)
            (λ _. kept))
        (λ b.
          let less : after + mine ≤ before = ground (arith, b, some_open) in
          restored_or_not followed most e.restores id after s
            (IsCounted-less followed most (after + mine) before s less h))

  -- What the followed file's count stands for.
  abbrev Holds : Downloads → Type 0
  Holds d = IsCounted followed most (d.open_streams + d.delivered) d.server

  Step-Holds : (d e : Downloads) → Step followed d e → Holds d → Holds e
  Step-Holds _ _ (request c id d) h =
      IsCounted-less followed most
        (d.open_streams
          + opens followed id (get_file c id d.server).1
          + (d.delivered + uncounted followed id (get_file c id d.server).1))
        (d.open_streams + d.delivered + takes followed most id (get_file c id d.server).1)
        (get_file c id d.server).0 (omega arith)
        (get_file-Keeps c id (d.open_streams + d.delivered) d.server h)
  Step-Holds _ _ (stream_end z id key size is_final d some_open) h =
      finish_download-IsCounted z id key size is_final d.open_streams d.delivered d.server some_open
        h

  Reaches-Holds : (d e : Downloads) → Reaches followed d e → Holds d → Holds e
  Reaches-Holds _ _ (done d) h = h
  Reaches-Holds _ _ (next d f e step rest) h = Reaches-Holds f e rest (Step-Holds d f step h)

-- Whatever requests and ends of streams come, and in whatever order, also of other files, and
-- whether or not counts can be taken back: a file whose limit is `most`, and whose count is not
-- above it at the start, with no stream open, is delivered at most `most` times, where answers with bytes
-- of it that no count stands for, whole or in part, are deliveries as well; its count and its open
-- streams stay within the limit too.
pub delivered_at_most :
    (followed : String) (most : ℕ) (start : Server) (final : Downloads)
    → All (IsRow followed most 0) start.files
    → Reaches followed (record { server = start; open_streams = 0; delivered = 0 }) final
    → (final.open_streams + final.delivered ≤ most)
      × All (IsRow followed most (final.open_streams + final.delivered)) final.server.files
delivered_at_most followed most start final rows reached =
    let h =
      Reaches-Holds followed most (record { server = start; open_streams = 0; delivered = 0 }) final
        reached (record { within = omega arith; rows = rows }) in
    (h.within, h.rows)
