-- ===== src/Tcp/Frames.antt =====
-- Frames on a TCP connection (c/src/raft_tcp_transport.c): `recv_full`, `send_full`, the header
-- `raft_tcp_frame_t` as three uint32_t in the byte order of a little-endian machine, and the bytes
-- after it. How a struct lies in memory is a parameter, `Layout`.
use raft_rx.Prelude.{
  ℕ, ◌+◌, ◌-◌, ◌*◌, ◌/◌, ◌%◌, ◌≡◌, Bool, true, false, not, Option, none, some, List, [], ◌∷◌, ◌++◌,
  Text, if◌then◌else◌, ◌==◌, length, take, drop,
}
use Prim.Native.Nat.{min}
use raft_rx.Types.{Message, Command}
use raft_rx.Tcp.Peers.{Peer}

-- 'RAFT'
abbrev pub tcp_magic : ℕ
tcp_magic = 1380009556

abbrev pub type_raft : ℕ
type_raft = 0

abbrev pub type_join : ℕ
type_join = 1

abbrev pub type_cmd : ℕ
type_cmd = 3

-- The values of `forwarded`.
abbrev pub join_original : ℕ
join_original = 0

abbrev pub join_forwarded : ℕ
join_forwarded = 1

abbrev pub join_announce : ℕ
join_announce = 2

abbrev pub join_pending : ℕ
join_pending = 99

-- raft_tcp_join_req_t
pub record JoinRequest : Type 0 where
  pub node_id : Text
  pub host : Text
  pub port : ℕ
  pub forwarded : ℕ
  pub cluster_join : Bool
  pub members : List Peer

-- What the compiler fixes of a struct: its size, and how it is read from its bytes.
pub record Struct (A : Type 0) : Type 0 where
  pub size : ℕ
  pub bytes : A → List ℕ
  pub read : List ℕ → A

pub record Layout : Type 0 where
  pub message : Struct Message
  pub join : Struct JoinRequest
  pub command : Struct Command

-- What a struct does for a value: its bytes fill its size, and give the value back.
abbrev pub IsStored : {A : Type 0} → Struct A → A → Type 0
IsStored s a = (length (s.bytes a) ≡ s.size) × (s.read (s.bytes a) ≡ a)

-- What a peer makes available: the bytes of the connection, and for each call of recv how many bytes
-- are there at that time. A call with none gives 0 or -1.
pub record Stream : Type 0 where
  pub bytes : List ℕ
  pub ready : List ℕ

-- The loop of `recv_full` over the calls of recv, `len` bytes still to come: what it has read, and what
-- is left of the connection.
unfoldable pub recv_from : ℕ → List ℕ → List ℕ → Option (List ℕ × Stream)
recv_from len bytes [] = if len == 0 then some ([], record { bytes = bytes; ready = [] }) else none
recv_from len bytes (k ∷ ks) =
    let n = min (min k len) (length bytes) in
    let rest = recv_from (len - n) (drop n bytes) ks in
    if len == 0
    then some ([], record { bytes = bytes; ready = k ∷ ks })
    else (if n == 0
        then none
        else (elim rest [ none ↦ none | some (more, s) ↦ some (take n bytes ++ more, s) ]))

unfoldable pub recv_full : Stream → ℕ → Option (List ℕ × Stream)
recv_full s len = recv_from len s.bytes s.ready

-- The loop of `send_full` over the results of send: what goes out, and whether all of it does.
unfoldable pub send_full : List ℕ → List ℕ → List ℕ × Bool
send_full bytes [] = ([], length bytes == 0)
send_full bytes (k ∷ ks) =
    let n = min k (length bytes) in
    let (out, done) = send_full (drop n bytes) ks in
    if length bytes == 0
    then ([], true)
    else (if n == 0 then ([], false) else (take n bytes ++ out, done))

unfoldable pub write_u32 : ℕ → List ℕ
write_u32 n = n % 256 ∷ n / 256 % 256 ∷ n / 65536 % 256 ∷ n / 16777216 % 256 ∷ []

unfoldable pub read_u32 : List ℕ → ℕ
read_u32 (a ∷ b ∷ c ∷ d ∷ rest) = a + 256 * b + 65536 * c + 16777216 * d
read_u32 _ = 0

pub record Header : Type 0 where
  pub magic : ℕ
  pub type : ℕ
  pub size : ℕ

unfoldable pub header_bytes : Header → List ℕ
header_bytes h = write_u32 h.magic ++ (write_u32 h.type ++ write_u32 h.size)

unfoldable pub header_of : List ℕ → Header
header_of bs = record {
  magic = read_u32 bs;
  type = read_u32 (drop 4 bs);
  size = read_u32 (drop 8 bs);
}

abbrev pub header_size : ℕ
header_size = 12

-- The header and the struct that one connection carries.
unfoldable pub frame : {A : Type 0} → Struct A → ℕ → A → List ℕ
frame s type a =
    header_bytes (record { magic = tcp_magic; type = type; size = s.size }) ++ s.bytes a

-- What `tcp_listener_thread` takes from one connection.
pub data Received : Type 0 where
  message : Message → Received
  join : JoinRequest → Received
  command : Command → Received
  refused : Received

-- The struct after the header, if the header gives its size and all its bytes arrive.
unfoldable pub receive_struct : {A : Type 0} → Struct A → (A → Received) → ℕ → Stream → Received
receive_struct s wrap size stream =
    if not (size == s.size)
    then refused
    else (elim (recv_full stream s.size) [ none ↦ refused | some (bs, rest) ↦ wrap (s.read bs) ])

unfoldable pub receive : Layout → Stream → Received
receive l stream = elim (recv_full stream header_size) [
  | none ↦ refused
  | some (bs, rest) ↦
      let h = header_of bs in
      if not (h.magic == tcp_magic)
      then refused
      else (if h.type == type_join
          then receive_struct l.join join h.size rest
          else (if h.type == type_cmd
              then receive_struct l.command command h.size rest
              else (if h.type == type_raft
                  then receive_struct l.message message h.size rest
                  else refused)))
]
