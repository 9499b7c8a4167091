-- ===== src/Tcp/Sending.antt =====
-- What the TCP transport sends (c/src/raft_tcp_transport.c: `tcp_send`, `tcp_send_join`, the join and
-- forward calls), and its function table. Sockets are a parameter, `Network`.
use raft_rx.Prelude.{
  ℕ, Bool, true, false, not, ◌||◌, none, some, List, [], ◌∷◌, Text, is_empty, if◌then◌else◌, ◌==◌,
  take,
}
use raft_rx.Types.{Message, Command, max_nodes, max_id, copy}
use raft_rx.Phases.{Transport}
use raft_rx.Tcp.Peers.{Peer, max_host, find_peer}
use raft_rx.Tcp.Frames.{
  JoinRequest, Layout, frame, type_raft, type_join, type_cmd, join_original, join_forwarded,
  join_announce,
}
use raft_rx.Tcp.{Tcp, recv, submit_command, recv_commands, set_enabled}

-- The sockets: whether a connection to an address takes all the bytes. Some may arrive even if not.
pub record Network (W : Type 0) : Type 0 where
  pub deliver : W → Text → ℕ → List ℕ → W × Bool

-- The transport with the sockets that it sends on.
pub record Link (W : Type 0) : Type 0 where
  pub tcp : Tcp
  pub wire : W

module _ {W : Type 0} (l : Layout) (net : Network W) where
  unfoldable pub send_join : Link W → Text → ℕ → JoinRequest → Link W × Bool
  send_join k host port j =
      let (w, done) = net.deliver k.wire host port (frame l.join type_join j) in
      (record k { wire = w }, done)

  unfoldable pub send : Link W → Message → Link W × Bool
  send k m = if not k.tcp.enabled then (k, true) else (elim (find_peer k.tcp.peers m.target) [
    | none ↦ (k, false)
    | some (host, port) ↦
        let (w, done) = net.deliver k.wire host port (frame l.message type_raft m) in
        (record k { wire = w }, done)
  ])

  unfoldable pub forward_cmd : Link W → Text → ℕ → Command → Link W × Bool
  forward_cmd k host port c =
      let (w, done) = net.deliver k.wire host port (frame l.command type_cmd c) in
      (record k { wire = w }, done)

  unfoldable pub request_join : Link W → Text → Text → ℕ → Text → ℕ → Link W × Bool
  request_join k my_id my_host my_port host port = send_join k host port (record {
    node_id = copy max_id my_id;
    host = copy max_host my_host;
    port = my_port;
    forwarded = join_original;
    cluster_join = false;
    members = [];
  })

  unfoldable pub send_cluster_join : Link W → List Peer → Text → ℕ → ℕ → Link W × Bool
  send_cluster_join k members host port forwarded =
      if is_empty k.tcp.own_id || (is_empty k.tcp.own_host || k.tcp.listen_port == 0)
      then (k, false)
      else send_join k host port (record {
        node_id = copy max_id k.tcp.own_id;
        host = copy max_host k.tcp.own_host;
        port = k.tcp.listen_port;
        forwarded = forwarded;
        cluster_join = true;
        members = take max_nodes members;
      })

  unfoldable pub request_cluster_join : Link W → List Peer → Text → ℕ → Link W × Bool
  request_cluster_join k members host port = send_cluster_join k members host port join_original

  unfoldable pub flood_from : Link W → JoinRequest → List Peer → Link W
  flood_from k j [] = k
  flood_from k j (p ∷ ps) = flood_from (send_join k p.host p.port j).0 j ps

  unfoldable pub flood_join : Link W → JoinRequest → Link W
  flood_join k j = flood_from k (record j { forwarded = join_forwarded }) k.tcp.peers

  unfoldable pub announce_self : Link W → Text → ℕ → Link W × Bool
  announce_self k host port =
      if is_empty k.tcp.own_id
      then (k, true)
      else send_join k host port (record {
        node_id = copy max_id k.tcp.own_id;
        host = copy max_host k.tcp.own_host;
        port = k.tcp.listen_port;
        forwarded = join_announce;
        cluster_join = false;
        members = [];
      })

  -- `raft_tcp_transport_make`
  unfoldable pub tcp_transport : Transport (Link W)
  tcp_transport = record {
    send = send;
    recv = λ k capacity. let (t, out) = recv k.tcp capacity in (record k { tcp = t }, out);
    submit_command = λ k c. let (t, done) = submit_command k.tcp c in (record k { tcp = t }, done);
    recv_commands =
        λ k capacity. let (t, out) = recv_commands k.tcp capacity in (record k { tcp = t }, out);
    set_enabled = some (λ k on. record k { tcp = set_enabled k.tcp on });
  }
