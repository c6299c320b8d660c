-- ===== src/Client/Repartition/Admitted.antt =====
-- The parts of an encrypted file, against what the server takes.
use anzdrop.Base.{
  ℕ, ◌+◌, ◌-◌, ◌*◌, ◌≤◌, ◌<◌, ◌≡◌, ap, ◌∙◌, true, List, [], ◌∷◌, some, length, concat, arith, All,
  All-imp, length-append,
}
use anzdrop.Crypto.Bytes.{Bytes}
use anzdrop.Crypto.Types.{chunk_size, iv_length, file_salt_length}
use anzdrop.Crypto.Cipher.{Cipher}
use anzdrop.Crypto.Packet.{ciphertext_size}
use anzdrop.Crypto.Stream.Encrypt.{iterate_encrypted_chunks, total_chunks}
use anzdrop.Crypto.Stream.RoundTrip.{decrypt-encrypt}
use anzdrop.Server.Upload.Session.{upload_part_size, is_part_number_allowed}
use anzdrop.Server.Upload.Session.PartNumbers.{is_part_number_allowed-ciphertext}
use anzdrop.Client.Repartition.{Part, repartition}
use anzdrop.Client.Repartition.Parts.{IsPartition, bodies, repartition-IsPartition}

-- A part's number counts the full parts before it, and the server's limits hold of its body.
abbrev Placed : (first total : ℕ) → Part → Type 0
Placed first total p =
    (first ≤ p.part_number)
    × ((p.part_number - first) * upload_part_size < total)
    × (0 < length p.body)
    × (length p.body ≤ upload_part_size)

IsPartition-Placed :
    (n : ℕ) (parts : List Part)
    → IsPartition upload_part_size n parts
    → All (Placed n (length (concat (bodies parts)))) parts
unfolding IsPartition
IsPartition-Placed n [] h = tt
IsPartition-Placed n (p ∷ []) (e, low, high) =
    ((omega (arith, e), omega (arith, e, low, length-append p.body []), low, high), tt)
IsPartition-Placed n (p ∷ q ∷ ps) (e, full, h) =
    let rest : ℕ = length (concat (bodies (q ∷ ps))) in
    let whole = length-append p.body (concat (bodies (q ∷ ps))) in
    let later = IsPartition-Placed (n + 1) (q ∷ ps) h in
    (
      (omega (arith, e), omega (arith, e, whole, full), omega (arith, full), omega (arith, full)),
      All-imp (Placed (n + 1) rest) (Placed n (length (concat (bodies (p ∷ q ∷ ps)))))
          (λ x (low, place, filled, fits).
            (omega (arith, low), omega (arith, low, place, whole, full), filled, fits))
          (q ∷ ps) later,
    )

-- The size of the stream is the one that is computed from the file's size.
stream_size :
    (n : ℕ) → 0 < n → file_salt_length + n + total_chunks chunk_size n * 28 ≡ ciphertext_size n
unfolding total_chunks ciphertext_size
stream_size n h = ground arith

-- A part that the session of a declared size takes: its number, and a body that is not empty or
-- too large.
abbrev pub Taken : ℕ → Part → Type 0
Taken declared_file_size p =
    (is_part_number_allowed (some p.part_number) declared_file_size ≡ true)
    × (0 < length p.body)
    × (length p.body ≤ upload_part_size)

-- What a client sends of an encrypted file that is not empty, declared with its true size, is taken:
-- each part has an allowed number, and from 1 byte to 8 MiB.
pub encrypted_parts_allowed :
    (c : Cipher) (salt : Bytes) (ivs : ℕ → Bytes)
    → length salt ≡ file_salt_length
    → ((i : ℕ) → length (ivs i) ≡ iv_length)
    → (file : Bytes) (packets : List Bytes) → 0 < length file
    → iterate_encrypted_chunks c salt ivs chunk_size file ≡ some packets
    → All (Taken (length file)) (repartition upload_part_size packets)
encrypted_parts_allowed c salt ivs salted drawn file packets filled written =
    let (made, form, opened, joined, long) =
      decrypt-encrypt c salt ivs salted drawn chunk_size file (omega arith) filled in
    let equal : made ≡ packets = ground (arith, form, written) in
    let total : length (concat packets) ≡ ciphertext_size (length file) =
      rw (← equal) long ∙ stream_size (length file) filled in
    let (parts, bytes) = repartition-IsPartition upload_part_size packets (omega arith) in
    let sized : length (concat (bodies (repartition upload_part_size packets)))
        ≡ ciphertext_size (length file) =
      ap length bytes ∙ total in
    All-imp (Placed 1 (length (concat (bodies (repartition upload_part_size packets)))))
      (Taken (length file))
      (λ p (low, place, some_bytes, fits). (
        is_part_number_allowed-ciphertext (length file) p.part_number filled low
            (ground (arith, place, sized)),
        some_bytes,
        fits,
      ))
      (repartition upload_part_size packets)
      (IsPartition-Placed 1 (repartition upload_part_size packets) parts)
