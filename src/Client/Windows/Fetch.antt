-- ===== src/Client/Windows/Fetch.antt =====
-- lib/download/parallelFetch.ts: `fetchWindow`, from the end of its request on. The loop of `pump`
-- has asked for a failure and an abort just before it calls `fetchWindow`.
use anzdrop.Base.{
  ℕ, Bool, true, ◌==◌, ◌≡◌, refl, Option, none, some, if◌then◌else◌, Bool-cases, inl, inr, arith,
}
use anzdrop.Crypto.Bytes.{Bytes}
use anzdrop.Client.Download.{Response, Fetched, got, fetch_failed, fetch_aborted}
use anzdrop.Client.Windows.{
  file_gone, friendly, body_failed, WindowStream, FetchEnd, stored, dropped, threw,
}

-- `response.arrayBuffer()` gives the body or throws.
abbrev pub read_window : Option Bytes → FetchEnd
read_window none = threw body_failed
read_window (some bytes) = stored bytes

abbrev pub check_window : Response → FetchEnd
check_window r =
    if r.status == 404
    then threw file_gone
    else if r.status == 206
    then read_window r.body
    else threw friendly

-- `aborted` is whether the download is aborted by then.
unfoldable pub fetch_window : (aborted : Bool) → Fetched → FetchEnd
fetch_window aborted fetch_aborted = dropped
fetch_window aborted (fetch_failed e) = if aborted then dropped else threw e
fetch_window aborted (got r) = check_window r

-- What is taken of the network: a 206 that is read has the bytes of the range asked for, and a
-- request is aborted by the download's own signal only.
abbrev pub IsHonest : (ℕ → Bytes) → WindowStream → ℕ → Fetched → Type 0
IsHonest answers w i fetch_aborted = w.aborted ≡ true
IsHonest answers w i (fetch_failed e) = Unit {0}
IsHonest answers w i (got r) =
    r.status ≡ 206 → (bytes : Bytes) → r.body ≡ some bytes → bytes ≡ answers i

-- How a fetch may end then.
abbrev pub IsPossible : (ℕ → Bytes) → WindowStream → ℕ → FetchEnd → Type 0
IsPossible answers w i (stored bytes) = bytes ≡ answers i
IsPossible answers w i dropped = w.aborted ≡ true
IsPossible answers w i (threw e) = Unit {0}

read_window-IsPossible :
    (answers : ℕ → Bytes) (w : WindowStream) (i : ℕ) (body : Option Bytes)
    → ((bytes : Bytes) → body ≡ some bytes → bytes ≡ answers i)
    → IsPossible answers w i (read_window body)
read_window-IsPossible answers w i none h = tt
read_window-IsPossible answers w i (some bytes) h = h bytes refl

pub fetch_window-IsPossible :
    (answers : ℕ → Bytes) (w : WindowStream) (i : ℕ) (fetched : Fetched)
    → IsHonest answers w i fetched
    → IsPossible answers w i (fetch_window w.aborted fetched)
unfolding fetch_window
fetch_window-IsPossible answers w i fetch_aborted h = h
fetch_window-IsPossible answers w i (fetch_failed e) h = elim (Bool-cases w.aborted) [
  | inl q ↦ rw (q, if◌then◌else◌) refl
  | inr q ↦ rw (q, if◌then◌else◌) tt
]
fetch_window-IsPossible answers w i (got r) h = elim (Bool-cases (r.status == 404)) [
  | inl gone ↦ rw (gone, if◌then◌else◌) tt
  | inr there ↦ elim (Bool-cases (r.status == 206)) [
    | inl part ↦
        rw (there, part, if◌then◌else◌)
          (read_window-IsPossible answers w i r.body (h (ground (arith, part))))
    | inr whole ↦ rw (there, whole, if◌then◌else◌) tt
  ]
]
