-- ===== src/Demo/Line.antt =====
-- The state of the command line of the demonstration (c/examples/demo_app/src/cli_fsm.h), and how it
-- finds addresses and reaches the leader (cli_fsm.c). What it prints on stdout is a list of lines; what
-- it prints on stderr is left out.
pub mod Show
pub mod Commands
pub mod Joins
pub mod Phases
pub mod Leader
use raft_rx.Prelude.{
  ℕ, ◌+◌, Bool, true, false, not, ◌&&◌, ◌||◌, Option, none, some, List, [], ◌∷◌, ◌++◌, Text, codes,
  same, is_empty, if◌then◌else◌, ltb, leb, ◌==◌, length, take,
}
use raft_rx.Types.{
  Node, Role, Command, LogEntry, max_id, max_op, max_key, max_value, max_nodes, copy,
}
use raft_rx.Decimal.{print_int}
use raft_rx.Members.{member_list_contains, is_leader_role}
use raft_rx.Phases.{Host}
use raft_rx.Lifecycle
use raft_rx.Kv.{Pair}
use raft_rx.Tcp.Peers.{Peer, find_peer, is_known}
use raft_rx.Tcp.Frames.{JoinRequest, Layout}
use raft_rx.Tcp.{Tcp, add_peer}
use raft_rx.Tcp.Sending.{Link, Network, tcp_transport, forward_cmd}

-- cli_user_t, with the node, its transport and its store. The store is the first part of what
-- `application.user` points to.
pub record Demo (U W : Type 0) : Type 0 where
  pub node_id : Text
  pub line : Option Text  -- `line`, if `has_line` is set
  pub prompt_needed : Bool
  pub quit_requested : Bool
  pub leave_pending : Bool
  pub last_role : Role
  pub last_term : ℕ
  pub last_voted_for : Text
  pub last_vote_count : ℕ
  pub rejoin : Option (Text × ℕ)  -- the address, if `rejoin_pending` is set
  pub pending_joins : List JoinRequest
  pub fwd_cmds : List Command
  pub host : Host (List Pair × U) (Link W)
  pub out : List Text  -- what has been printed

module _ {U W : Type 0} where
  abbrev pub node_of : Demo U W → Node (List Pair × U)
  node_of c = c.host.node

  abbrev pub tcp_of : Demo U W → Tcp
  tcp_of c = c.host.link.tcp

  abbrev pub with_node : Demo U W → Node (List Pair × U) → Demo U W
  with_node c n = record c { host = record c.host { node = n } }

  abbrev pub with_link : Demo U W → Link W → Demo U W
  with_link c k = record c { host = record c.host { link = k } }

  abbrev pub with_tcp : Demo U W → Tcp → Demo U W
  with_tcp c t = with_link c (record c.host.link { tcp = t })

  unfoldable pub say : Text → Demo U W → Demo U W
  say s c = record c { out = c.out ++ s ∷ [] }

  unfoldable pub find_peer_address : Demo U W → Text → Option (Text × ℕ)
  find_peer_address c id =
      let t = tcp_of c in
      if same id (node_of c).config.node_id
      then (if t.listener_started then some (t.own_host, t.listen_port) else none)
      else find_peer t.peers id

  -- One of the two loops of `collect_cluster_peers`, over the members of a half.
  unfoldable pub collect_peers : Demo U W → List Peer → List Text → List Peer
  collect_peers c peers [] = peers
  collect_peers c peers (id ∷ ids) =
      if is_known peers id || leb max_nodes (length peers)
      then collect_peers c peers ids
      else (elim (find_peer_address c id) [
        | none ↦ collect_peers c peers ids
        | some (host, port) ↦
            collect_peers c (peers ++ record { id = copy max_id id; host = host; port = port } ∷ [])
              ids
      ])

  unfoldable pub collect_cluster_peers : Demo U W → List Peer
  collect_cluster_peers c =
      let n = node_of c in
      let t = tcp_of c in
      let found =
        collect_peers c (collect_peers c [] n.config_state.old_members)
          n.config_state.new_members in
      if length found == 0 && t.listener_started
      then record { id = copy max_id n.config.node_id; host = t.own_host; port = t.listen_port }
        ∷ []
      else found

  unfoldable pub find_leader_address : Demo U W → Option (Text × ℕ)
  find_leader_address c =
      let id = (node_of c).leader_id in if is_empty id then none else find_peer (tcp_of c).peers id

  unfoldable pub peer_needs_update : Demo U W → Text → Text → ℕ → Bool
  peer_needs_update c id host port =
      if same id (node_of c).config.node_id then false else (elim (find_peer (tcp_of c).peers id) [
        | none ↦ true
        | some (known_host, known_port) ↦ not (same known_host host) || not (known_port == port)
      ])

abbrev pub same_command : Command → Command → Bool
same_command a b = same a.op b.op && (same a.key b.key && same a.value b.value)

unfoldable pub queue_has : List Command → Command → Bool
queue_has [] c = false
queue_has (d ∷ ds) c = same_command d c || queue_has ds c

unfoldable pub log_has : List LogEntry → Command → Bool
log_has [] c = false
log_has (e ∷ es) c = same_command e.command c || log_has es c

unfoldable pub peer_set_command : Text → Text → ℕ → Command
peer_set_command id host port = record {
  op = codes "cluster.peer_set";
  key = copy max_key id;
  value = copy max_value (host ++ b':' ∷ print_int port);
}

module _ {U W : Type 0} (l : Layout) (net : Network W) where
  unfoldable pub submit : Demo U W → Command → Demo U W × Bool
  submit c cmd =
      let (h, done) = Lifecycle.submit_command (tcp_transport l net) c.host cmd in
      (record c { host = h }, done)

  unfoldable pub forward_to_leader : Demo U W → Command → Demo U W × Bool
  forward_to_leader c cmd = elim (find_leader_address c) [
    | none ↦ (say (codes "leader unknown — cannot forward") c, false)
    | some (host, port) ↦
        let (k, done) = forward_cmd l net c.host.link host port cmd in
        (if done then with_link c k else say (codes "forward failed") (with_link c k), done)
  ]

  unfoldable pub queue_peer_set : Demo U W → Text → Text → ℕ → Demo U W
  queue_peer_set c id host port =
      let cmd = peer_set_command id host port in
      let n = node_of c in
      if same id n.config.node_id
      then c
      else (if is_leader_role n.state
          then (if log_has (take n.log_count n.log) cmd || queue_has (tcp_of c).cmd_queue cmd
              then c
              else (submit c cmd).0)
          else (elim (find_leader_address c) [
            | none ↦ c
            | some (leader_host, leader_port) ↦
                with_link c (forward_cmd l net c.host.link leader_host leader_port cmd).0
          ]))

  unfoldable pub learn_peer : Demo U W → Text → Text → ℕ → Bool → Demo U W
  learn_peer c id host port replicate =
      let changed = peer_needs_update c id host port in
      if same id (node_of c).config.node_id
      then c
      else (let c1 = with_tcp c (add_peer (tcp_of c) id host port) in
          if replicate && changed then queue_peer_set c1 id host port else c1)

  unfoldable pub queue_peer_sets : Demo U W → List Peer → Demo U W
  queue_peer_sets c [] = c
  queue_peer_sets c (p ∷ ps) = queue_peer_sets (queue_peer_set c p.id p.host p.port) ps

  unfoldable pub replicate_known_cluster_peers : Demo U W → Demo U W
  replicate_known_cluster_peers c =
      if is_leader_role (node_of c).state then queue_peer_sets c (collect_cluster_peers c) else c
