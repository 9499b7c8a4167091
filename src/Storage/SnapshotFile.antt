-- ===== src/Storage/SnapshotFile.antt =====
-- snapshot.bin: `write_snapshot` and how `raft_storage_node_load` reads it (c/src/raft_storage.c):
-- index, term and size as int32_t, in the byte order of a little-endian machine, then the bytes.
use raft_rx.Prelude.{
  ℕ, ◌+◌, ◌*◌, ◌/◌, ◌%◌, ◌<◌, ◌≤◌, ◌≡◌, refl, ◌&&◌, Option, none, some, List, [], ◌∷◌, ◌++◌,
  if◌then◌else◌, ltb, leb, ◌==◌, length, take, ap, arith,
}
use raft_rx.Types.{max_snapshot_size}

abbrev byte_mod : ℕ
byte_mod = 256

write_int32 : ℕ → List ℕ
write_int32 n =
    n % byte_mod ∷ n / 256 % byte_mod ∷ n / 65536 % byte_mod ∷ n / 16777216 % byte_mod ∷ []

-- fread of one int32_t: the pattern of its bits, and the rest of the file.
read_int32 : List ℕ → Option (ℕ × List ℕ)
read_int32 (a ∷ b ∷ c ∷ d ∷ rest) = some (a + 256 * b + 65536 * c + 16777216 * d, rest)
read_int32 _ = none

pub write_snapshot : ℕ → ℕ → List ℕ → List ℕ
unfolding write_int32
write_snapshot index term bytes =
    write_int32 index ++ (write_int32 term ++ (write_int32 (length bytes) ++ bytes))

-- The size is not positive, as a signed number, from 2 ^ 31 on.
read_bytes : ℕ → List ℕ → List ℕ
read_bytes size rest = if ltb 0 size && leb size max_snapshot_size then take size rest else []

-- The bytes of the snapshot, if its index and term are those of meta.txt.
pub read_snapshot : ℕ → ℕ → Option (List ℕ) → Option (List ℕ)
unfolding read_int32 read_bytes
read_snapshot index term none = none
read_snapshot index term (some file) = elim (read_int32 file) [
  | none ↦ none
  | some (snap_index, r1) ↦ (elim (read_int32 r1) [
    | none ↦ none
    | some (snap_term, r2) ↦ (elim (read_int32 r2) [
      | none ↦ none
      | some (snap_size, r3) ↦
          (if snap_index == index && snap_term == term
            then some (read_bytes snap_size r3)
            else none)
    ])
  ])
]

int32_lem :
    (n : ℕ)
    → n < 4294967296
    → n % byte_mod
        + 256 * (n / 256 % byte_mod)
        + 65536 * (n / 65536 % byte_mod)
        + 16777216 * (n / 16777216 % byte_mod)
      ≡ n
int32_lem n h = omega arith

take-length : (xs : List ℕ) → take (length xs) xs ≡ xs
take-length [] = refl
take-length (x ∷ xs) = ap (λ t. x ∷ t) (take-length xs)

read_bytes_lem :
    (bytes : List ℕ) → length bytes ≤ max_snapshot_size → read_bytes (length bytes) bytes ≡ bytes
unfolding read_bytes
read_bytes_lem [] h = refl
read_bytes_lem (b ∷ bytes) h = ground (arith, take-length bytes)

-- A snapshot of at most 4096 bytes, written under an index and a term below 2 to the 31, is read
-- back under that index and term, and under no other.
pub read-write_snapshot :
    (index term i t : ℕ) (bytes : List ℕ)
    → index < 2147483648
    → term < 2147483648
    → length bytes ≤ max_snapshot_size
    → read_snapshot i t (some (write_snapshot index term bytes))
      ≡ (if index == i && term == t then some bytes else none)
unfolding read_snapshot write_snapshot
read-write_snapshot index term i t bytes hi ht hs = rw (
  int32_lem index (omega arith),
  int32_lem term (omega arith),
  int32_lem (length bytes) (omega arith),
  read_bytes_lem bytes hs,
)
