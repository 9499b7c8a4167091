-- ===== src/Tcp/Wire.antt =====
-- What the listener makes of the bytes of a connection (c/src/raft_tcp_transport.c, `recv_full`,
-- `tcp_listener_thread`): the loop of `recv_full` does not depend on how the bytes come in.
use raft_rx.Prelude.{
  ℕ, zero, suc, ◌+◌, ◌-◌, ◌^◌, ◌≤◌, ◌<◌, ◌≡◌, none, some, List, [], ◌∷◌, ◌++◌, ◌==◌, length, take,
  drop, arith, refl, Bool-cases, Option-cases, inl, inr, length-drop, append-take-take, drop-drop,
}
use Prim.Native.Nat.{min}
use raft_rx.Tcp.Frames.{
  Stream, recv_from, write_u32, read_u32, Header, header_bytes, header_of, header_size,
}

-- Every call of recv finds something.
abbrev pub IsFlowing : List ℕ → Type 0
IsFlowing [] = Unit
IsFlowing (k ∷ ks) = (1 ≤ k) × IsFlowing ks

pub recv_from-short :
    (ks : List ℕ) (len : ℕ) (bytes : List ℕ) → length bytes < len → recv_from len bytes ks ≡ none
unfolding recv_from
recv_from-short [] len bytes h = ground arith
recv_from-short (k ∷ ks) len bytes h =
    let n = min (min k len) (length bytes) in
    elim (Bool-cases (n == 0)) [
      | inl dry ↦ ground arith
      | inr more ↦
          ground (
            arith,
            recv_from-short ks (len - n) (drop n bytes) (ground (arith, length-drop n bytes)),
          )
    ]

-- With enough calls that find something, the bytes asked for are read, and the others are left.
pub recv_from-flows :
    (ks : List ℕ) (len : ℕ) (bytes : List ℕ)
    → IsFlowing ks
    → len ≤ length ks
    → len ≤ length bytes
    → (left : List ℕ) × (recv_from len bytes ks
        ≡ some (take len bytes, record { bytes = drop len bytes; ready = left }))
      × IsFlowing left
      × (length ks ≤ len + length left)
unfolding recv_from
recv_from-flows [] zero bytes f h e = ([], refl, tt, omega arith)
recv_from-flows [] (suc len) bytes f h e = absurd (omega arith)
recv_from-flows (k ∷ ks) zero bytes f h e = (k ∷ ks, refl, f, omega arith)
recv_from-flows (k ∷ ks) (suc l) bytes f h e =
    let len = suc l in
    let n = min (min k len) (length bytes) in
    let (left, read, flows, room) =
      recv_from-flows ks (len - n) (drop n bytes) f.1 (omega (arith, f.0, h, e))
        (omega (arith, length-drop n bytes, e)) in
    (
      left,
      ground (
        arith,
        f.0,
        e,
        read,
        append-take-take n len bytes (omega (arith, e)),
        drop-drop n len bytes (omega (arith, e)),
      ),
      flows,
      omega (arith, room, f.0, e),
    )

-- Whatever the calls of recv find, what is read is the first bytes.
pub recv_from-exact :
    (ks : List ℕ) (len : ℕ) (bytes bs : List ℕ) (s : Stream)
    → recv_from len bytes ks ≡ some (bs, s)
    → (bs ≡ take len bytes) × (s.bytes ≡ drop len bytes)
unfolding recv_from
recv_from-exact [] zero bytes bs s h = ground (arith, h)
recv_from-exact [] (suc len) bytes bs s h = ground (arith, h)
recv_from-exact (k ∷ ks) zero bytes bs s h = ground (arith, h)
recv_from-exact (k ∷ ks) (suc l) bytes bs s h =
    let len = suc l in
    let n = min (min k len) (length bytes) in
    elim (Bool-cases (n == 0)) [
      | inl dry ↦ ground (arith, h)
      | inr more ↦ (elim (Option-cases (recv_from (len - n) (drop n bytes) ks)) [
        | inl stopped ↦ ground (arith, h, stopped)
        | inr ((more_bytes, end), read) ↦
            let (taken, left) = recv_from-exact ks (len - n) (drop n bytes) more_bytes end read in
            ground (
              arith,
              h,
              read,
              taken,
              left,
              append-take-take n len bytes (omega arith),
              drop-drop n len bytes (omega arith),
            )
      ])
    ]

read_u32-write_u32 : (n : ℕ) (rest : List ℕ) → n < 2 ^ 32 → read_u32 (write_u32 n ++ rest) ≡ n
unfolding read_u32 write_u32
read_u32-write_u32 n rest h = omega arith

abbrev pub WithinWords : Header → Type 0
WithinWords h = (h.magic < 2 ^ 32) × (h.type < 2 ^ 32) × (h.size < 2 ^ 32)

pub header_of-header_bytes : (h : Header) → WithinWords h → header_of (header_bytes h) ≡ h
unfolding header_of header_bytes write_u32 read_u32
header_of-header_bytes h w = ground (
  arith,
  read_u32-write_u32 h.magic (write_u32 h.type ++ write_u32 h.size) w.0,
  read_u32-write_u32 h.type (write_u32 h.size) w.1,
  read_u32-write_u32 h.size [] w.2,
)

pub length-header_bytes : (h : Header) → length (header_bytes h) ≡ header_size
unfolding header_bytes write_u32
length-header_bytes h = refl
