-- ===== src/Demo.antt =====
-- The demonstration program (c/examples/demo_app/src): its application (demo_kv_app.c), which wraps the
-- key-value store, its arguments (demo_args.c) and what main.c builds of them.
pub mod Line
pub mod Deleting
use raft_rx.Prelude.{
  ℕ, ◌+◌, Bool, true, false, not, ◌&&◌, ◌||◌, Option, none, some, List, [], ◌∷◌, ◌++◌, Text, codes,
  same, is_empty, if◌then◌else◌, ltb, leb, ◌==◌, length, take, map,
}
use raft_rx.Types.{Application, Command, NodeConfig, max_id, max_nodes, max_peers, copy}
use raft_rx.Decimal.{atoi}
use raft_rx.Kv.{Pair, kv_apply, kv_snapshot, kv_restore_snapshot}
use raft_rx.Tcp.{Tcp, add_peer, set_self, set_data_dir}
use raft_rx.Tcp.Peers.{Peer, max_host}
use raft_rx.Cli.{parse_host_port}

-- The callback `peer_set` works on a state `U`; a null pointer is `none`.
module _ {U : Type 0} (peer_set : Option (U → Text → Text → U)) where
  unfoldable pub demo_apply : List Pair × U → Command → List Pair × U
  demo_apply (kv, u) c =
      if same c.op (codes "cluster.peer_set")
      then (kv, elim peer_set [ none ↦ u | some f ↦ f u c.key c.value ])
      else (kv_apply kv c, u)

  unfoldable pub demo_application : Application (List Pair × U)
  demo_application = record {
    apply = some demo_apply;
    reload = some (λ s. ([], s.1));
    snapshot = some (λ s size. kv_snapshot s.0 size);
    restore_snapshot = some (λ s bytes. (kv_restore_snapshot bytes, s.1));
  }

-- `register_peer_from_app`, the `peer_set` of main.c.
unfoldable pub register_peer : Tcp → Text → Text → Tcp
register_peer t node_id address =
    if same node_id t.own_id then t else (elim (parse_host_port address 256) [
      | none ↦ t
      | some (host, port) ↦ add_peer t node_id host port
    ])

-- demo_args_t. A port of 0 stands for one that is not positive.
pub record Args : Type 0 where
  pub node_id : Text
  pub port : ℕ
  pub port_supplied : Bool
  pub host : Text
  pub data_dir : Text
  pub initial_members : List Text
  pub peers : List Peer
  pub join_host : Text
  pub join_port : ℕ

abbrev pub default_args : Args
default_args = record {
  node_id = [];
  port = 0;
  port_supplied = false;
  host = codes "127.0.0.1";
  data_dir = codes "var/raft";
  initial_members = [];
  peers = [];
  join_host = [];
  join_port = 0;
}

-- The text up to the first equals sign, and what follows it.
unfoldable pub split_first : Text → Option (Text × Text)
split_first [] = none
split_first (c ∷ s) =
    let rest = split_first s in
    if c == b'=' then some ([], s) else (elim rest [ none ↦ none | some (a, b) ↦ some (c ∷ a, b) ])

unfoldable pub parse_peer : Text → Option Peer
parse_peer arg = elim (split_first arg) [
  | none ↦ none
  | some (id, address) ↦
      (if is_empty id || leb max_id (length id) then none else (elim (parse_host_port address 256) [
        | none ↦ none
        | some (host, port) ↦ some (record { id = id; host = host; port = port })
      ]))
]

-- The loop over argv; `none` where the program ends. Where there is no room for another member or
-- peer, the value is not skipped.
unfoldable pub parse_loop : Args → List Text → Option Args
parse_loop a [] = some a
parse_loop a (flag ∷ []) = none
parse_loop a (flag ∷ value ∷ rest) =
    if same flag (codes "--id")
    then parse_loop (record a { node_id = copy max_id value }) rest
    else (if same flag (codes "--port")
        then parse_loop (record a { port = atoi value; port_supplied = true }) rest
        else (if same flag (codes "--host")
            then parse_loop (record a { host = copy max_host value }) rest
            else (if same flag (codes "--data")
                then parse_loop (record a { data_dir = copy 256 value }) rest
                else (if same flag (codes "--member")
                    then (if ltb (length a.initial_members) max_nodes
                        then parse_loop
                            (record a {
                              initial_members = a.initial_members ++ copy max_id value ∷ [];
                            })
                            rest
                        else parse_loop a (value ∷ rest))
                    else (if same flag (codes "--peer")
                        then (if ltb (length a.peers) max_peers
                            then (elim (parse_peer value) [
                              | none ↦ none
                              | some p ↦ parse_loop (record a { peers = a.peers ++ p ∷ [] }) rest
                            ])
                            else parse_loop a (value ∷ rest))
                        else (if same flag (codes "--join")
                            then (elim (parse_host_port value 256) [
                              | none ↦ none
                              | some (host, port) ↦
                                  parse_loop (record a { join_host = host; join_port = port }) rest
                            ])
                            else none))))))

unfoldable pub parse_args : List Text → Option Args
parse_args argv = elim (parse_loop default_args argv) [
  | none ↦ none
  | some a ↦
      (if is_empty a.node_id
        then none
        else (if ltb 0 a.join_port && (not a.port_supplied || a.port == 0) then none else some a))
]

unfoldable pub add_peers : Tcp → List Peer → Tcp
add_peers t [] = t
add_peers t (p ∷ ps) = add_peers (add_peer t p.id p.host p.port) ps

-- The transport of main.c, from the state that `raft_tcp_transport_init` gives.
unfoldable pub configure_transport : Tcp → Args → Tcp
configure_transport t a =
    add_peers
      (set_data_dir (set_self t a.node_id a.host) (copy 512 (a.data_dir ++ b'/' ∷ a.node_id)))
      a.peers

unfoldable pub make_raft_config : Args → NodeConfig
make_raft_config a = record {
  node_id = copy max_id a.node_id;
  peers = map (λ p. copy max_id p.id) a.peers;
  initial_members = map (copy max_id) a.initial_members;
  learner = ltb 0 a.join_port;
  election_timeout_ms = 500;
  heartbeat_interval_ms = 100;
}
