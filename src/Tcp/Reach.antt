-- ===== src/Tcp/Reach.antt =====
-- The listener thread and the main thread on one transport (c/src/raft_tcp_transport.c): every order
-- of their operations, each of them whole under the lock.
use raft_rx.Prelude.{
  ℕ, zero, suc, ◌-◌, ◌≤◌, ◌<◌, ◌≡◌, Bool, Option, none, some, List, [], ◌∷◌, Text, is_empty, length,
  arith, refl, length-append, Bool-cases, Option-cases, inl, inr,
}
use raft_rx.Types.{Command, max_id, max_nodes, max_queue, copy}
use raft_rx.Tcp.Peers.{Peer, scan_chars, scan_string, scan_peer, skip_blanks}
use raft_rx.Tcp.Frames.{Layout, Stream, Received, receive}
use raft_rx.Tcp.{
  Tcp, init, add_peer, load_peers_from, load_peers, load_self, set_data_dir, save_self, save_peers,
  start, listen, stop, push, accept, serve, recv, submit_command, recv_commands, set_enabled,
  recv_joins, recv_fwd_cmds, set_self,
}
use raft_rx.Tcp.Table.{IsTable, add_peer-IsTable}

-- One operation of a thread. The listener's is `served`.
pub data Step (l : Layout) : Tcp → Tcp → Type 0 where
  served : {t : Tcp} (s : Stream) → Step l t (serve l t s)
  received : {t : Tcp} (capacity : ℕ) → Step l t (recv t capacity).0
  submitted : {t : Tcp} (c : Command) → Step l t (submit_command t c).0
  drained : {t : Tcp} (capacity : ℕ) → Step l t (recv_commands t capacity).0
  switched : {t : Tcp} (on : Bool) → Step l t (set_enabled t on)
  joined : {t : Tcp} (capacity : ℕ) → Step l t (recv_joins t capacity).0
  forwarded : {t : Tcp} (capacity : ℕ) → Step l t (recv_fwd_cmds t capacity).0
  learnt :
      {t : Tcp} (id host : Text) (port : ℕ)
      → length id < max_id
      → Step l t (add_peer t id host port)
  named : {t : Tcp} (id host : Text) → Step l t (set_self t id host)
  loaded : {t : Tcp} (dir : Text) → Step l t (set_data_dir t dir)
  started : {t : Tcp} (opened : Bool) → Step l t (start t opened).0
  listened : {t : Tcp} (port : ℕ) (opened : Bool) → Step l t (listen t port opened).0
  stopped : {t : Tcp} → Step l t (stop t)

pub data Reach (l : Layout) : Tcp → Type 0 where
  begin : (port : ℕ) (peers_file self_file : Option Text) → Reach l (init port peers_file self_file)
  next : {t u : Tcp} → Reach l t → Step l t u → Reach l u

-- No queue is longer than its array, and the table has every name once.
abbrev pub IsBounded : Tcp → Type 0
IsBounded t =
    (length t.in_queue ≤ max_queue)
    × (length t.join_queue ≤ max_nodes)
    × (length t.cmd_queue ≤ max_queue)
    × (length t.fwd_cmd_queue ≤ max_queue)
    × IsTable t.peers

length-push :
    {A : Type 0} (capacity : ℕ) (queue : List A) (a : A)
    → length queue ≤ capacity
    → length (push capacity queue a) ≤ capacity
unfolding push
length-push capacity queue a h = ground (arith, length-append queue (a ∷ []))

accept-IsBounded : (t : Tcp) (r : Received) → IsBounded t → IsBounded (accept t r)
unfolding accept
accept-IsBounded t (Received.message m) b = ground (arith, b, length-push max_queue t.in_queue m)
accept-IsBounded t (Received.join j) b = ground (arith, b, length-push max_nodes t.join_queue j)
accept-IsBounded t (Received.command c) b =
    ground (arith, b, length-push max_queue t.fwd_cmd_queue c)
accept-IsBounded t Received.refused b = b

serve-IsBounded : (l : Layout) (t : Tcp) (s : Stream) → IsBounded t → IsBounded (serve l t s)
unfolding serve
serve-IsBounded l t s b = ground (arith, b, accept-IsBounded t (receive l s) b)

submit_command-IsBounded : (t : Tcp) (c : Command) → IsBounded t → IsBounded (submit_command t c).0
unfolding submit_command
submit_command-IsBounded t c b = ground (arith, b, length-append t.cmd_queue (c ∷ []))

add_peer-queues :
    (t : Tcp) (id host : Text) (port : ℕ)
    → ((add_peer t id host port).in_queue ≡ t.in_queue)
      × ((add_peer t id host port).join_queue ≡ t.join_queue)
      × ((add_peer t id host port).cmd_queue ≡ t.cmd_queue)
      × ((add_peer t id host port).fwd_cmd_queue ≡ t.fwd_cmd_queue)
unfolding add_peer save_peers
add_peer-queues t id host port = ground arith

add_peer-IsBounded :
    (t : Tcp) (id host : Text) (port : ℕ)
    → length id < max_id
    → IsBounded t
    → IsBounded (add_peer t id host port)
add_peer-IsBounded t id host port fits (m, j, c, f, table) =
    let kept = add_peer-IsTable t id host port fits table in
    ground (arith, kept, add_peer-queues t id host port)

length-scan_chars : (width : ℕ) (s : Text) → length (scan_chars width s).0 ≤ width
unfolding scan_chars
length-scan_chars zero s = omega arith
length-scan_chars (suc width) [] = omega arith
length-scan_chars (suc width) (c ∷ s) = ground (arith, length-scan_chars width s)

-- The names that `scan_peer` gives fit their array.
length-scan_peer : (s rest : Text) (p : Peer) → scan_peer s ≡ some (p, rest) → length p.id < max_id
unfolding scan_peer scan_string
length-scan_peer s rest p h = ground (arith, h, length-scan_chars (max_id - 1) (skip_blanks s))

pub load_peers_from-read :
    (fuel : ℕ) (t : Tcp) (s rest : Text) (p : Peer)
    → scan_peer s ≡ some (p, rest)
    → load_peers_from (suc fuel) t s ≡ load_peers_from fuel (add_peer t p.id p.host p.port) rest
unfolding load_peers_from
load_peers_from-read fuel t s rest p read = rw (read, load_peers_from) refl

pub load_peers_from-end :
    (fuel : ℕ) (t : Tcp) (s : Text) → scan_peer s ≡ none → load_peers_from fuel t s ≡ t
unfolding load_peers_from
load_peers_from-end zero t s end = refl
load_peers_from-end (suc fuel) t s end = rw (end, load_peers_from) refl

load_peers_from-IsBounded :
    (fuel : ℕ) (t : Tcp) (s : Text) → IsBounded t → IsBounded (load_peers_from fuel t s)
unfolding load_peers_from
load_peers_from-IsBounded zero t s b = b
load_peers_from-IsBounded (suc fuel) t s b = elim (Option-cases (scan_peer s)) [
  | inl end ↦ rw (load_peers_from-end (suc fuel) t s end) b
  | inr ((p, rest), read) ↦ rw (load_peers_from-read fuel t s rest p read) (
      load_peers_from-IsBounded fuel (add_peer t p.id p.host p.port) rest
        (add_peer-IsBounded t p.id p.host p.port (length-scan_peer s rest p read) b))
]

load_self-IsBounded : (t : Tcp) → IsBounded t → IsBounded (load_self t)
unfolding load_self
load_self-IsBounded t b = ground (arith, b)

set_data_dir-IsBounded : (t : Tcp) (dir : Text) → IsBounded t → IsBounded (set_data_dir t dir)
unfolding set_data_dir load_peers
set_data_dir-IsBounded t dir b =
    let t1 = load_self (record t { data_dir = copy 512 dir }) in
    let b1 = load_self-IsBounded (record t { data_dir = copy 512 dir }) b in
    elim (Bool-cases (is_empty t1.data_dir)) [
      | inl no_dir ↦ rw no_dir b1
      | inr has_dir ↦ (elim (Option-cases t1.peers_file) [
        | inl absent ↦ rw (has_dir, absent) b1
        | inr (file, there) ↦
            rw (has_dir, there) (load_peers_from-IsBounded (length file) t1 file b1)
      ])
    ]

Step-IsBounded : (l : Layout) {t u : Tcp} → Step l t u → IsBounded t → IsBounded u
unfolding recv recv_commands set_enabled recv_joins recv_fwd_cmds set_self start save_self listen
    stop
Step-IsBounded l (served {t} s) b = serve-IsBounded l t s b
Step-IsBounded l (received {t} capacity) b = ground (arith, b)
Step-IsBounded l (submitted {t} c) b = submit_command-IsBounded t c b
Step-IsBounded l (drained {t} capacity) b = ground (arith, b)
Step-IsBounded l (switched {t} on) b = ground (arith, b)
Step-IsBounded l (joined {t} capacity) b = ground (arith, b)
Step-IsBounded l (forwarded {t} capacity) b = ground (arith, b)
Step-IsBounded l (learnt {t} id host port fits) b = add_peer-IsBounded t id host port fits b
Step-IsBounded l (named {t} id host) b = b
Step-IsBounded l (loaded {t} dir) b = set_data_dir-IsBounded t dir b
Step-IsBounded l (started {t} opened) b = ground (arith, b)
Step-IsBounded l (listened {t} port opened) b = ground (arith, b)
Step-IsBounded l (stopped {t}) b = b

-- From a transport just initialised, whatever the listener and the main thread do in whatever
-- order, each operation whole and the names that are added fitting their array: no queue is longer
-- than its array, and the table of peers has every name once and fits its array.
pub Reach-IsBounded : (l : Layout) {t : Tcp} → Reach l t → IsBounded t
unfolding init
Reach-IsBounded l (begin port peers_file self_file) = ground arith
Reach-IsBounded l (next reached step) = Step-IsBounded l step (Reach-IsBounded l reached)
