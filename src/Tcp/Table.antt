-- ===== src/Tcp/Table.antt =====
-- The table of peers as a map from names to addresses (c/src/raft_tcp_transport.c,
-- `raft_tcp_transport_add_peer` and the loops that look a name up).
use raft_rx.Prelude.{
  ℕ, ◌-◌, ◌≤◌, ◌<◌, ◌≡◌, ◌⊎◌, true, false, ◌&&◌, ◌||◌, none, some, List, [], ◌∷◌, ◌++◌, Text, same,
  if◌then◌else◌, length, arith, refl, ◌∙◌, Bool-cases, inl, inr, take_all, length-append, ltb,
  dec_lt,
}
use raft_rx.Types.{max_id, max_peers, copy}
use raft_rx.Tcp.{Tcp, add_peer, save_peers}
use raft_rx.Tcp.Peers.{Peer, max_host, update_peer, is_known, find_peer, put_peer}

find_peer-unknown : (ps : List Peer) (id : Text) → is_known ps id ≡ false → find_peer ps id ≡ none
unfolding find_peer is_known
find_peer-unknown [] id h = refl
find_peer-unknown (p ∷ ps) id h = ground (arith, find_peer-unknown ps id)

find_peer-update_peer :
    (ps : List Peer) (id host : Text) (port : ℕ) (x : Text)
    → is_known ps id ≡ true
    → find_peer (update_peer ps id host port) x
      ≡ (if same id x then some (copy max_host host, port) else find_peer ps x)
unfolding find_peer update_peer is_known
find_peer-update_peer [] id host port x h = cc
find_peer-update_peer (p ∷ ps) id host port x h =
    ground (arith, find_peer-update_peer ps id host port x)

find_peer-append :
    (ps : List Peer) (p : Peer) (x : Text)
    → find_peer (ps ++ p ∷ []) x ≡ (
        if is_known ps x
        then find_peer ps x
        else (if same p.id x then some (p.host, p.port) else none))
unfolding find_peer is_known
find_peer-append [] p x = refl
find_peer-append (q ∷ ps) p x = ground (arith, find_peer-append ps p x)

pub peers-add_peer :
    (t : Tcp) (id host : Text) (port : ℕ)
    → (add_peer t id host port).peers ≡ put_peer t.peers id host port
unfolding add_peer save_peers put_peer
peers-add_peer t id host port = ground arith

-- The three branches of `put_peer`.
pub put_peer-cases :
    (ps : List Peer) (id host : Text) (port : ℕ)
    → length id < max_id
    → ((is_known ps id ≡ true) × (put_peer ps id host port ≡ update_peer ps id host port))
      ⊎ ((is_known ps id ≡ false)
          × (((length ps < max_peers)
                × (put_peer ps id host port
                    ≡ ps ++ record { id = id; host = copy max_host host; port = port } ∷ []))
              ⊎ ((max_peers ≤ length ps) × (put_peer ps id host port ≡ ps))))
unfolding put_peer copy
put_peer-cases ps id host port fits = elim (Bool-cases (is_known ps id)) [
  | inl known ↦ inl (known, rw known refl)
  | inr new ↦ (elim (dec_lt (length ps) max_peers) [
    | yes room ↦ inr (new, inl (room, ground (arith, new, take_all (max_id - 1) id (omega arith))))
    | no full ↦ inr (new, inr (omega arith, ground (arith, new)))
  ])
]

-- For a name of fewer than 16 bytes: if it is known or the table has room, it has the new address
-- afterwards, with as much of the host as fits; otherwise, and for all other names, the addresses
-- are as before.
pub find_peer-add_peer :
    (t : Tcp) (id host : Text) (port : ℕ) (x : Text)
    → length id < max_id
    → find_peer (add_peer t id host port).peers x ≡ (
        if same id x && (is_known t.peers id || ltb (length t.peers) max_peers)
        then some (copy max_host host, port)
        else find_peer t.peers x)
find_peer-add_peer t id host port x fits =
    let ps = t.peers in
    rw (peers-add_peer t id host port) (elim (put_peer-cases ps id host port fits) [
      | inl (known, put) ↦
          rw put (ground (arith, known, find_peer-update_peer ps id host port x known))
      | inr (new, inl (room, put)) ↦
          let p : Peer = record { id = id; host = copy max_host host; port = port } in
          rw put (ground (arith, new, room, find_peer-append ps p x, find_peer-unknown ps x))
      | inr (new, inr (full, put)) ↦ rw put (ground (arith, new, full))
    ])

abbrev pub AreDistinct : List Peer → Type 0
AreDistinct [] = Unit
AreDistinct (p ∷ ps) = (is_known ps p.id ≡ false) × AreDistinct ps

-- Every name once, and not more than the array holds.
abbrev pub IsTable : List Peer → Type 0
IsTable ps = AreDistinct ps × (length ps ≤ max_peers)

is_known-update_peer :
    (ps : List Peer) (id host : Text) (port : ℕ) (x : Text)
    → is_known (update_peer ps id host port) x ≡ is_known ps x
unfolding is_known update_peer
is_known-update_peer [] id host port x = refl
is_known-update_peer (p ∷ ps) id host port x =
    ground (arith, is_known-update_peer ps id host port x)

pub is_known-append :
    (ps qs : List Peer) (x : Text) → is_known (ps ++ qs) x ≡ (is_known ps x || is_known qs x)
unfolding is_known
is_known-append [] qs x = refl
is_known-append (p ∷ ps) qs x = ground (arith, is_known-append ps qs x)

length-update_peer :
    (ps : List Peer) (id host : Text) (port : ℕ) → length (update_peer ps id host port) ≡ length ps
unfolding update_peer
length-update_peer [] id host port = refl
length-update_peer (p ∷ ps) id host port = ground (arith, length-update_peer ps id host port)

update_peer-AreDistinct :
    (ps : List Peer) (id host : Text) (port : ℕ)
    → AreDistinct ps
    → AreDistinct (update_peer ps id host port)
unfolding update_peer
update_peer-AreDistinct [] id host port d = tt
update_peer-AreDistinct (p ∷ ps) id host port d = elim (Bool-cases (same p.id id)) [
  | inl here ↦ rw here d
  | inr other ↦
      rw other (
        is_known-update_peer ps id host port p.id ∙ d.0,
        update_peer-AreDistinct ps id host port d.1,
      )
]

append-AreDistinct :
    (ps : List Peer) (p : Peer)
    → is_known ps p.id ≡ false
    → AreDistinct ps
    → AreDistinct (ps ++ p ∷ [])
unfolding is_known
append-AreDistinct [] p h d = (refl, tt)
append-AreDistinct (q ∷ ps) p h d = (
  ground (arith, is_known-append ps (p ∷ []) q.id, d.0),
  append-AreDistinct ps p (ground arith) d.1,
)

pub add_peer-IsTable :
    (t : Tcp) (id host : Text) (port : ℕ)
    → length id < max_id
    → IsTable t.peers
    → IsTable (add_peer t id host port).peers
add_peer-IsTable t id host port fits (d, b) =
    let ps = t.peers in
    rw (peers-add_peer t id host port) (elim (put_peer-cases ps id host port fits) [
      | inl (known, put) ↦ rw put (
        update_peer-AreDistinct ps id host port d,
        omega (arith, length-update_peer ps id host port, b),
      )
      | inr (new, inl (room, put)) ↦
          let p : Peer = record { id = id; host = copy max_host host; port = port } in
          rw put (append-AreDistinct ps p new d, omega (arith, length-append ps (p ∷ []), room))
      | inr (new, inr (full, put)) ↦ rw put (d, b)
    ])
