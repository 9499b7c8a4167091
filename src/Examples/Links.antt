-- ===== src/Examples/Links.antt =====
-- The layer below the MQTT transport and a cluster at concrete inputs.
use raft_rx.Prelude.{
  ℕ, ◌+◌, ◌≡◌, ◌⊎◌, true, false, none, some, [], ◌∷◌, ◌++◌, codes, arith, refl, length, ltb,
  if◌then◌else◌,
}
use raft_rx.Types.{max_nodes, max_queue, max_id, copy}
use raft_rx.Storage.{no_disk}
use raft_rx.Kv.{kv_application}
use raft_rx.Mqtt.{Config, Packet}
use raft_rx.Mqtt.Posix.{Client, Ring, no_ring, make, connect, push, pop, cut_packet}
use raft_rx.Mqtt.Posix.Fifo.{IsRing, waiting_of, dequeue, waiting_of-push, waiting_of-pop}
use raft_rx.Mqtt.Posix.Session.{connect_settles}
use raft_rx.Lifecycle.{node_init}
use raft_rx.Memory.{init, find_node}
use raft_rx.Cluster.{Cluster, Machines, cluster_init, add_node}
use raft_rx.Cluster.Nodes.{position_or, IsRegistered, add_node-IsRegistered}
use raft_rx.Examples.Nodes.{State, idle_node}

abbrev one_packet : Packet
one_packet = (codes "raft/c/n1", 1 ∷ 2 ∷ [])

no_ring-IsRing : IsRing no_ring
unfolding no_ring
no_ring-IsRing = record {
  size = refl;
  head_low = omega arith;
  tail_low = omega arith;
  room = omega arith;
}

waiting_of-push_example :
    IsRing (push 4096 no_ring one_packet)
    × (waiting_of (push 4096 no_ring one_packet) ≡ (
        if ltb (length (waiting_of no_ring)) max_queue
        then waiting_of no_ring ++ cut_packet 4096 one_packet ∷ []
        else waiting_of no_ring))
waiting_of-push_example = waiting_of-push 4096 no_ring one_packet no_ring-IsRing

abbrev ring_of_one : Ring
ring_of_one = push 4096 no_ring one_packet

waiting_of-pop_example :
    IsRing (pop 128 4096 ring_of_one).0
    × ((pop 128 4096 ring_of_one).1 ≡ (dequeue 128 4096 (waiting_of ring_of_one)).0)
    × (waiting_of (pop 128 4096 ring_of_one).0 ≡ (dequeue 128 4096 (waiting_of ring_of_one)).1)
waiting_of-pop_example = waiting_of-pop 128 4096 ring_of_one waiting_of-push_example.0

-- Libraries that count their calls; the thread cannot be started.
abbrev counting : Client ℕ
counting = record {
  tls_connect = λ l cfg. (l + 1, true);
  mqtt_init = λ l. (l + 1, true);
  mqtt_connect = λ l cfg. (l + 1, true);
  thread_create = λ l. (l + 1, false);
  tls_shutdown = λ l. l + 1;
  tls_close = λ l. l + 1;
  packet_id = λ l. (l + 1, 1);
  mqtt_publish = λ l topic payload qos id. (l + 1, true);
  mqtt_subscribe = λ l topic qos id. (l + 1, true);
  process_loop = λ l. (l + 1, true);
  thread_join = λ l. l + 1;
  mqtt_disconnect = λ l. l + 1;
}

abbrev some_config : Config
some_config = record { cluster_id = codes "c"; node_id = codes "n1"; qos = 1 }

connect_settles_example :
    let (p', done) = connect counting (make 0) some_config in
    (p'.has_ssl ≡ done) × (p'.thread_started ≡ done) × (p'.ring ≡ no_ring)
unfolding make
connect_settles_example = connect_settles counting (make 0) some_config refl refl

-- A runtime that takes every machine and runs none.
abbrev idle_machines : Machines State ℕ
idle_machines = record { add_machine = λ r at period. (r + 1, true); run_due = λ c. (c, true) }

abbrev no_nodes : Cluster State ℕ
no_nodes = cluster_init 0

add_node-IsRegistered_example :
    let at = length no_nodes.nodes in
    let name = copy max_id idle_node.config.node_id in
    let node = node_init idle_node.config kv_application [] no_disk no_nodes.clock_ms in
    let added = (idle_machines.add_machine no_nodes.runtime at 1000).1 in
    let (c', result) =
      add_node idle_machines no_nodes idle_node.config no_disk kv_application [] 1000 in
    IsRegistered c'
    × (((at ≡ max_nodes) × (c' ≡ no_nodes) × (result ≡ none))
        ⊎ ((c'.nodes ≡ no_nodes.nodes ++ node ∷ [])
            × (find_node c'.transport name
                ≡ some (position_or (find_node no_nodes.transport name) at))
            × (result ≡ (if added then some at else none))))
unfolding cluster_init init
add_node-IsRegistered_example =
    add_node-IsRegistered idle_machines no_nodes idle_node.config no_disk kv_application [] 1000
      (refl, omega arith)
