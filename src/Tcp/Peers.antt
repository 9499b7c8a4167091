-- ===== src/Tcp/Peers.antt =====
-- The table of peers and its files (c/src/raft_tcp_transport.c, `raft_tcp_transport_add_peer`,
-- `tcp_save_peers`, `tcp_load_peers`, `tcp_save_self`, `tcp_load_self`). A file is its bytes, `none` if
-- it is not there; one that cannot be opened is not modelled.
use raft_rx.Prelude.{
  ℕ, zero, suc, Bool, false, ◌&&◌, ◌||◌, Option, none, some, List, [], ◌∷◌, ◌++◌, Text, same,
  is_empty, if◌then◌else◌, leb, length, ◌-◌,
}
use raft_rx.Types.{max_id, max_peers, copy}
use raft_rx.Decimal.{atoi, print_int, is_blank}

abbrev pub max_host : ℕ
max_host = 256

pub record Peer : Type 0 where
  pub id : Text
  pub host : Text
  pub port : ℕ

-- The loop over the table, where the name is in it.
unfoldable pub update_peer : List Peer → Text → Text → ℕ → List Peer
update_peer [] id host port = []
update_peer (p ∷ ps) id host port =
    if same p.id id
    then record p { host = copy max_host host; port = port } ∷ ps
    else p ∷ update_peer ps id host port

unfoldable pub is_known : List Peer → Text → Bool
is_known [] id = false
is_known (p ∷ ps) id = same p.id id || is_known ps id

-- The address of a name, as the loops over the table find it.
unfoldable pub find_peer : List Peer → Text → Option (Text × ℕ)
find_peer [] id = none
find_peer (p ∷ ps) id = if same p.id id then some (p.host, p.port) else find_peer ps id

-- The table after `raft_tcp_transport_add_peer`.
unfoldable pub put_peer : List Peer → Text → Text → ℕ → List Peer
put_peer ps id host port =
    if is_known ps id
    then update_peer ps id host port
    else (if leb max_peers (length ps)
        then ps
        else ps ++ record { id = copy max_id id; host = copy max_host host; port = port } ∷ [])

-- fprintf(f, "%s %s %d\n", id, host, port)
unfoldable pub peer_line : Peer → Text
peer_line p = p.id ++ b' ' ∷ (p.host ++ b' ' ∷ (print_int p.port ++ b'\n' ∷ []))

unfoldable pub write_peers : List Peer → Text
write_peers [] = []
write_peers (p ∷ ps) = peer_line p ++ write_peers ps

-- What fscanf skips before a conversion.
unfoldable pub skip_blanks : Text → Text
skip_blanks [] = []
skip_blanks (c ∷ s) = let rest = skip_blanks s in if is_blank c then rest else c ∷ s

-- The characters of a word, at most `left` of them, and what follows.
unfoldable pub scan_chars : ℕ → Text → Text × Text
scan_chars zero s = ([], s)
scan_chars (suc left) [] = ([], [])
scan_chars (suc left) (c ∷ s) =
    let (word, rest) = scan_chars left s in if is_blank c then ([], c ∷ s) else (c ∷ word, rest)

-- "%<size - 1>s": `none` where there is no word.
unfoldable pub scan_string : ℕ → Text → Option (Text × Text)
scan_string width s =
    let (word, rest) = scan_chars width (skip_blanks s) in
    if is_empty word then none else some (word, rest)

abbrev pub is_digit : ℕ → Bool
is_digit c = leb b'0' c && leb c b'9'

unfoldable pub skip_digits : Text → Text
skip_digits [] = []
skip_digits (c ∷ s) = let rest = skip_digits s in if is_digit c then rest else c ∷ s

abbrev pub starts_number : Text → Bool
starts_number [] = false
starts_number (c ∷ s) = is_digit c

-- "%d" of a number without a sign; `none` where there is no digit.
unfoldable pub scan_number : Text → Option (ℕ × Text)
scan_number s =
    let t = skip_blanks s in if starts_number t then some (atoi t, skip_digits t) else none

-- fscanf(f, "%15s %255s %d", id, host, &port) == 3
unfoldable pub scan_peer : Text → Option (Peer × Text)
scan_peer s = elim (scan_string (max_id - 1) s) [
  | none ↦ none
  | some (id, r1) ↦ (elim (scan_string (max_host - 1) r1) [
    | none ↦ none
    | some (host, r2) ↦ (elim (scan_number r2) [
      | none ↦ none
      | some (port, r3) ↦ some (record { id = id; host = host; port = port }, r3)
    ])
  ])
]
