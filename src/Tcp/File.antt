-- ===== src/Tcp/File.antt =====
-- The file of peers, written and read (c/src/raft_tcp_transport.c, `tcp_save_peers` and
-- `tcp_load_peers`).
use raft_rx.Prelude.{
  ℕ, zero, suc, ◌-◌, ◌≤◌, ◌<◌, ◌≡◌, false, none, some, List, [], ◌∷◌, ◌++◌, Text, is_empty, length,
  arith, refl, ap, sym, ◌∙◌, inl, inr, length-append, take_all,
}
use mathlib.Core.List.{append-nil, append_assoc}
use raft_rx.Types.{max_id, max_peers, copy}
use raft_rx.Decimal.{print_int, is_blank}
use raft_rx.Tcp.{Tcp, add_peer, load_peers_from, load_peers, save_peers}
use raft_rx.Tcp.Table.{IsTable, AreDistinct, is_known-append, peers-add_peer, put_peer-cases}
use raft_rx.Tcp.Reach.{load_peers_from-read, load_peers_from-end}
use raft_rx.Tcp.Peers.{
  Peer, max_host, peer_line, write_peers, skip_blanks, scan_chars, scan_string, scan_peer, is_known,
}
use raft_rx.Tcp.Scan.{AreWords, scan_peer-line, scan_peer-skip}

AreDistinct-middle :
    (qs ps : List Peer) (p : Peer) → AreDistinct (qs ++ p ∷ ps) → is_known qs p.id ≡ false
unfolding is_known
AreDistinct-middle [] ps p d = refl
AreDistinct-middle (q ∷ qs) ps p d =
    ground (arith, d.0, is_known-append qs (p ∷ ps) q.id, AreDistinct-middle qs ps p d.1)

-- A peer that is new and whose words fit goes to the end of the table.
add_peer-new :
    (t : Tcp) (p : Peer)
    → is_known t.peers p.id ≡ false
    → length t.peers < max_peers
    → length p.id < max_id
    → length p.host < max_host
    → (add_peer t p.id p.host p.port).peers ≡ t.peers ++ p ∷ []
unfolding copy
add_peer-new t p new room id host =
    peers-add_peer t p.id p.host p.port ∙ (elim (put_peer-cases t.peers p.id p.host p.port id) [
      | inl (known, put) ↦ absurd (ground (arith, new, known))
      | inr (_, inl (_, put)) ↦
          put
          ∙ ap (λ h. t.peers ++ record p { host = h } ∷ [])
              (take_all (max_host - 1) p.host (omega (arith, host)))
      | inr (_, inr (full, put)) ↦ absurd (omega (arith, full, room))
    ])

scan_peer-end : scan_peer (b'\n' ∷ []) ≡ none
unfolding scan_peer scan_string skip_blanks scan_chars is_blank
scan_peer-end = refl

load_peers_from-written :
    (ps : List Peer) (fuel : ℕ) (t : Tcp)
    → AreWords ps
    → IsTable (t.peers ++ ps)
    → length ps ≤ fuel
    → (load_peers_from fuel t (b'\n' ∷ write_peers ps)).peers ≡ t.peers ++ ps
unfolding write_peers is_blank
load_peers_from-written [] fuel t w b le =
    ap (λ u. u.peers) (load_peers_from-end fuel t (b'\n' ∷ []) scan_peer-end)
    ∙ sym (append-nil t.peers)
load_peers_from-written (p ∷ ps) zero t w b le = absurd (omega (arith, le))
load_peers_from-written (p ∷ ps) (suc fuel) t (id, host, w) (d, b) le =
    let rest = b'\n' ∷ write_peers ps in
    let read : scan_peer (b'\n' ∷ (peer_line p ++ write_peers ps)) ≡ some (p, rest) =
      scan_peer-skip b'\n' (peer_line p ++ write_peers ps) refl
      ∙ scan_peer-line p (write_peers ps) id host in
    let t1 = add_peer t p.id p.host p.port in
    let room : length t.peers < max_peers = omega (arith, b, length-append t.peers (p ∷ ps)) in
    let added = add_peer-new t p (AreDistinct-middle t.peers ps p d) room id.2 host.2 in
    let table : t1.peers ++ ps ≡ t.peers ++ p ∷ ps =
      ap (λ z. z ++ ps) added ∙ append_assoc t.peers (p ∷ []) ps in
    ap (λ u. u.peers)
      (load_peers_from-read fuel t (b'\n' ∷ (peer_line p ++ write_peers ps)) rest p read)
    ∙ load_peers_from-written ps fuel t1 w (rw table (d, b)) (omega (arith, le))
    ∙ table

length-write_peers : (ps : List Peer) → length ps ≤ length (write_peers ps)
unfolding write_peers peer_line
length-write_peers [] = omega arith
length-write_peers (p ∷ ps) =
    let tail = p.host ++ b' ' ∷ (print_int p.port ++ b'\n' ∷ []) in
    omega (
      arith,
      length-append (peer_line p) (write_peers ps),
      length-append p.id (b' ' ∷ tail),
      length-write_peers ps,
    )

-- A line feed before the first line is skipped.
load_peers_from-skip :
    (fuel : ℕ) (t : Tcp) (s : Text) → load_peers_from fuel t (b'\n' ∷ s) ≡ load_peers_from fuel t s
unfolding load_peers_from is_blank
load_peers_from-skip zero t s = refl
load_peers_from-skip (suc fuel) t s = rw (scan_peer-skip b'\n' s refl, load_peers_from) refl

-- A table with every name once, whose names and hosts are not empty, have no blanks and fit their
-- arrays, is saved by a transport with a directory; another transport with a directory, an empty
-- table and that file loads the same table.
pub load_peers-save_peers :
    (t u : Tcp)
    → is_empty t.data_dir ≡ false
    → AreWords t.peers
    → IsTable t.peers
    → is_empty u.data_dir ≡ false
    → u.peers ≡ []
    → u.peers_file ≡ (save_peers t).peers_file
    → (load_peers u).peers ≡ t.peers
unfolding load_peers save_peers
load_peers-save_peers t u saves words table loads fresh file =
    let ps = t.peers in
    let s = write_peers ps in
    let read =
      load_peers_from-written ps (length s) u words (rw fresh table) (length-write_peers ps) in
    let there : u.peers_file ≡ some s = file ∙ rw saves refl in
    rw (loads, there)
      (ap (λ v. v.peers) (sym (load_peers_from-skip (length s) u s))
        ∙ read
        ∙ ap (λ z. z ++ ps) fresh)
