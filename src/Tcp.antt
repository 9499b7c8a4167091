-- ===== src/Tcp.antt =====
-- The TCP transport (c/src/raft_tcp_transport.c, c/include/raft/raft_tcp_transport.h): its queues, its
-- table of peers and its files. The listener thread and the main thread are steps on one state;
-- the lock makes each step whole. What it sends is in Tcp/Sending.antt.
pub mod Peers
pub mod Frames
pub mod Sending
pub mod Wire
pub mod Listener
pub mod Cut
pub mod Table
pub mod Reach
mod Scan
pub mod File
use raft_rx.Prelude.{
  ℕ, zero, suc, Bool, true, false, not, ◌&&◌, ◌||◌, Option, none, some, List, [], ◌∷◌, ◌++◌, Text,
  is_empty, if◌then◌else◌, ltb, leb, ◌==◌, length, take, ◌-◌,
}
use raft_rx.Types.{Message, Command, max_nodes, max_peers, max_queue, max_id, copy}
use raft_rx.Decimal.{print_int}
use raft_rx.Phases.{Transport}
use raft_rx.Tcp.Peers.{
  Peer, max_host, put_peer, find_peer, write_peers, scan_peer, scan_string, scan_number, is_known,
}
use raft_rx.Tcp.Frames.{
  JoinRequest, Layout, Struct, Stream, Received, frame, receive, type_raft, type_join, type_cmd,
  join_original, join_forwarded, join_announce,
}

-- raft_tcp_transport_t, and the files peers.txt and self.txt of its directory. A port that is not
-- positive is 0.
pub record Tcp : Type 0 where
  pub listen_port : ℕ
  pub own_id : Text
  pub own_host : Text
  pub data_dir : Text
  pub peers : List Peer
  pub in_queue : List Message
  pub join_queue : List JoinRequest
  pub cmd_queue : List Command
  pub fwd_cmd_queue : List Command
  pub listener_started : Bool
  pub enabled : Bool
  pub shutdown : Bool
  pub peers_file : Option Text
  pub self_file : Option Text

unfoldable pub init : ℕ → Option Text → Option Text → Tcp
init port peers_file self_file = record {
  listen_port = port;
  own_id = [];
  own_host = [];
  data_dir = [];
  peers = [];
  in_queue = [];
  join_queue = [];
  cmd_queue = [];
  fwd_cmd_queue = [];
  listener_started = false;
  enabled = true;
  shutdown = false;
  peers_file = peers_file;
  self_file = self_file;
}

unfoldable pub save_peers : Tcp → Tcp
save_peers t =
    if is_empty t.data_dir then t else record t { peers_file = some (write_peers t.peers) }

unfoldable pub add_peer : Tcp → Text → Text → ℕ → Tcp
add_peer t id host port =
    let full = not (is_known t.peers id) && leb max_peers (length t.peers) in
    if full then t else save_peers (record t { peers = put_peer t.peers id host port })

-- The loop of `tcp_load_peers`: a round reads at least one byte, so the length of the file is enough.
-- `add_peer` writes the file again while it is read; it is short enough to be in the buffer of the
-- stream from the first read on.
unfoldable pub load_peers_from : ℕ → Tcp → Text → Tcp
load_peers_from zero t s = t
load_peers_from (suc fuel) t s = elim (scan_peer s) [
  | none ↦ t
  | some (p, rest) ↦ load_peers_from fuel (add_peer t p.id p.host p.port) rest
]

unfoldable pub load_peers : Tcp → Tcp
load_peers t =
    if is_empty t.data_dir
    then t
    else (elim t.peers_file [ none ↦ t | some s ↦ load_peers_from (length s) t s ])

unfoldable pub save_self : Tcp → Tcp
save_self t =
    if is_empty t.data_dir || (is_empty t.own_host || t.listen_port == 0) then t else record t {
      self_file = some (t.own_host ++ b' ' ∷ (print_int t.listen_port ++ b'\n' ∷ []));
    }

-- The fields that are still empty are filled from self.txt.
unfoldable pub load_self : Tcp → Tcp
load_self t = elim t.self_file [
  | none ↦ t
  | some s ↦
      (if is_empty t.data_dir then t else (elim (scan_string (max_host - 1) s) [
        | none ↦ t
        | some (host, r) ↦ (elim (scan_number r) [
          | none ↦ t
          | some (port, rest) ↦ record t {
            listen_port = if t.listen_port == 0 then port else t.listen_port;
            own_host = if is_empty t.own_host then host else t.own_host;
          }
        ])
      ]))
]

unfoldable pub set_data_dir : Tcp → Text → Tcp
set_data_dir t dir = load_peers (load_self (record t { data_dir = copy 512 dir }))

-- `opened` is whether socket, bind, listen and pthread_create succeed. The result is true for 0 and
-- false for -1, here and below.
unfoldable pub start : Tcp → Bool → Tcp × Bool
start t opened =
    if t.listener_started
    then (t, true)
    else (if t.listen_port == 0
        then (t, false)
        else (let t1 = save_self t in
            if opened
            then (record t1 { shutdown = false; listener_started = true }, true)
            else (t1, false)))

unfoldable pub listen : Tcp → ℕ → Bool → Tcp × Bool
listen t port opened =
    if port == 0 || t.listener_started
    then (t, false)
    else start (record t { listen_port = port }) opened

unfoldable pub stop : Tcp → Tcp
stop t = record t { shutdown = true; listener_started = false }

-- At the end of a queue with the given capacity, unless it is full.
unfoldable pub push : {A : Type 0} → ℕ → List A → A → List A
push capacity queue a = if ltb (length queue) capacity then queue ++ a ∷ [] else queue

-- What the listener does with what came over a connection. A message is dropped while the transport
-- is disabled.
unfoldable pub accept : Tcp → Received → Tcp
accept t (Received.message m) =
    if t.enabled then record t { in_queue = push max_queue t.in_queue m } else t
accept t (Received.join j) = record t { join_queue = push max_nodes t.join_queue j }
accept t (Received.command c) = record t { fwd_cmd_queue = push max_queue t.fwd_cmd_queue c }
accept t Received.refused = t

-- One round of `tcp_listener_thread` with a connection.
unfoldable pub serve : Layout → Tcp → Stream → Tcp
serve l t s = if t.shutdown then t else accept t (receive l s)

unfoldable pub recv : Tcp → ℕ → Tcp × List Message
recv t capacity =
    let out = take capacity t.in_queue in
    (if length out == 0 then t else record t { in_queue = [] }, out)

unfoldable pub submit_command : Tcp → Command → Tcp × Bool
submit_command t c =
    if leb max_queue (length t.cmd_queue)
    then (t, false)
    else (record t { cmd_queue = t.cmd_queue ++ c ∷ [] }, true)

unfoldable pub recv_commands : Tcp → ℕ → Tcp × List Command
recv_commands t capacity = (record t { cmd_queue = [] }, take capacity t.cmd_queue)

unfoldable pub set_enabled : Tcp → Bool → Tcp
set_enabled t on =
    if on
    then record t { enabled = true }
    else record t { enabled = false; in_queue = []; cmd_queue = [] }

unfoldable pub recv_joins : Tcp → ℕ → Tcp × List JoinRequest
recv_joins t capacity =
    let out = take capacity t.join_queue in
    (if length out == 0 then t else record t { join_queue = [] }, out)

unfoldable pub recv_fwd_cmds : Tcp → ℕ → Tcp × List Command
recv_fwd_cmds t capacity =
    let out = take capacity t.fwd_cmd_queue in
    (if length out == 0 then t else record t { fwd_cmd_queue = [] }, out)

unfoldable pub set_self : Tcp → Text → Text → Tcp
set_self t node_id host = record t { own_id = copy max_id node_id; own_host = copy max_host host }
