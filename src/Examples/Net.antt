-- ===== src/Examples/Net.antt =====
-- The TCP transport and the two command lines at concrete values.
use raft_rx.Prelude.{
  ℕ, ◌+◌, ◌≡◌, zero, suc, replicate, true, false, some, none, List, [], ◌∷◌, ◌++◌, codes, arith,
  refl, length, take, same, ◌&&◌, ◌||◌, ltb, if◌then◌else◌, not, is_empty, ◌⊎◌, ◌<◌, Option,
  Text-discrete, ℕ_discrete,
}
use raft_rx.Types.{Message, leader, follower, request_vote, new_message, max_peers, max_nodes, copy}
use raft_rx.Members.{member_list_contains, is_leader, self_is_member}
use raft_rx.Kv.{Pair, kv_apply}
use raft_rx.Storage.{no_disk}
use raft_rx.Decimal.{is_blank}
use raft_rx.Tcp.{Tcp, init, add_peer, serve, save_peers, load_peers}
use raft_rx.Tcp.Peers.{Peer, max_host, find_peer, is_known}
use raft_rx.Tcp.Frames.{
  JoinRequest, Layout, frame, header_bytes, write_u32, type_raft, type_join, type_cmd,
}
use raft_rx.Tcp.Sending.{Link, Network, send, send_join, forward_cmd}
use raft_rx.Tcp.Listener.{Delivers, sends_arrive}
use raft_rx.Tcp.Wire.{IsFlowing}
use raft_rx.Tcp.Cut.{serve-cut}
use raft_rx.Tcp.Table.{find_peer-add_peer}
use raft_rx.Tcp.Reach.{begin, next, served, learnt, Reach-IsBounded, IsBounded}
use raft_rx.Tcp.File.{load_peers-save_peers}
use raft_rx.Cli.Pending.{run_from, run_from-enough}
use raft_rx.Counter.{counter_application}
use raft_rx.Counter.Line.{CounterCli}
use raft_rx.Counter.Phases.{handle_pending_joins}
use raft_rx.Counter.Leader.{handle_pending_joins-requests_last}
use raft_rx.Demo.{demo_application}
use raft_rx.Demo.Line.{Demo}
use raft_rx.Demo.Line.Joins.{handle_join}
use raft_rx.Demo.Line.Leader.{handle_join-requests}
use raft_rx.Demo.Line.Commands.{plain_command, cmd_delete}
use raft_rx.Demo.Deleting.{applied, cmd_delete-keeps_store}
use raft_rx.Examples.Nodes.{idle_with, set_x}

abbrev vote_for_n2 : Message
vote_for_n2 = record (new_message request_vote) { source = codes "n1"; target = codes "n2" }

abbrev join_n3 : JoinRequest
join_n3 = record {
  node_id = codes "n3";
  host = codes "h3";
  port = 7003;
  forwarded = 0;
  cluster_join = false;
  members = [];
}

-- Structs of two bytes.
abbrev layout : Layout
layout = record {
  message = record { size = 2; bytes = λ m. 1 ∷ 2 ∷ []; read = λ bs. vote_for_n2 };
  join = record { size = 2; bytes = λ j. 3 ∷ 4 ∷ []; read = λ bs. join_n3 };
  command = record { size = 2; bytes = λ c. 5 ∷ 6 ∷ []; read = λ bs. set_x (codes "1") };
}

-- A network that takes everything and keeps it.
abbrev network : Network (List (List ℕ))
network = record { deliver = λ w host port bytes. (w ++ bytes ∷ [], true) }

abbrev n2 : Peer
n2 = record { id = codes "n2"; host = codes "h2"; port = 7002 }

abbrev tcp : Tcp
tcp = record (init 7001 none none) {
  own_id = codes "n1";
  own_host = codes "h1";
  data_dir = codes "d";
  peers = n2 ∷ [];
}

abbrev link : Link (List (List ℕ))
link = record { tcp = tcp; wire = [] }

-- Calls of recv that find one byte each.
abbrev one_by_one : List ℕ
one_by_one = replicate 14 1

replicate-IsFlowing : (n : ℕ) → IsFlowing (replicate n 1)
replicate-IsFlowing zero = tt
replicate-IsFlowing (suc n) = (omega arith, replicate-IsFlowing n)

sends_arrive_example :
    ((bytes : List ℕ) × Delivers network link
        (codes "h2")
        7002
        bytes
        (send layout network link vote_for_n2)
      × (serve layout tcp (record { bytes = bytes; ready = one_by_one })
          ≡ record tcp { in_queue = vote_for_n2 ∷ [] }))
    × ((bytes : List ℕ) × Delivers network link
          (codes "h2")
          7002
          bytes
          (send_join layout network link (codes "h2") 7002 join_n3)
        × (serve layout tcp (record { bytes = bytes; ready = one_by_one })
            ≡ record tcp { join_queue = join_n3 ∷ [] }))
    × ((bytes : List ℕ) × Delivers network link
          (codes "h2")
          7002
          bytes
          (forward_cmd layout network link (codes "h2") 7002 (set_x (codes "1")))
        × (serve layout tcp (record { bytes = bytes; ready = one_by_one })
            ≡ record tcp { fwd_cmd_queue = set_x (codes "1") ∷ [] }))
unfolding find_peer Text-discrete ℕ_discrete init
sends_arrive_example =
    sends_arrive layout network link (codes "h2") 7002 tcp one_by_one vote_for_n2 join_n3
      (set_x (codes "1")) (refl, refl)
      (((refl, refl), omega arith), ((refl, refl), omega arith), ((refl, refl), omega arith))
      (replicate-IsFlowing 14) (omega arith, omega arith, omega arith)
      (refl, refl, omega arith, omega arith, omega arith)

serve-cut_example :
    (serve layout tcp (record {
      bytes = take 13 (frame layout.message type_raft vote_for_n2);
      ready = one_by_one;
    })
      ≡ tcp)
    × (serve layout tcp
          (record { bytes = take 5 (frame layout.join type_join join_n3); ready = one_by_one })
        ≡ tcp)
    × (serve layout tcp (record {
      bytes = take 0 (frame layout.command type_cmd (set_x (codes "1")));
      ready = one_by_one;
    })
        ≡ tcp)
unfolding frame header_bytes write_u32
serve-cut_example =
    serve-cut layout tcp one_by_one vote_for_n2 join_n3 (set_x (codes "1")) 13 5 0
      (((refl, refl), omega arith), ((refl, refl), omega arith), ((refl, refl), omega arith))
      (omega arith, omega arith, omega arith)

find_peer-add_peer_example :
    find_peer (add_peer tcp (codes "n3") (codes "h3") 7003).peers (codes "n3") ≡ (
      if same (codes "n3") (codes "n3")
        && (is_known tcp.peers (codes "n3") || ltb (length tcp.peers) max_peers)
      then some (copy max_host (codes "h3"), 7003)
      else find_peer tcp.peers (codes "n3"))
find_peer-add_peer_example =
    find_peer-add_peer tcp (codes "n3") (codes "h3") 7003 (codes "n3") (omega arith)

Reach-IsBounded_example : IsBounded (
    serve layout
      (add_peer (init 7001 none none) (codes "n2") (codes "h2") 7002)
      (record { bytes = frame layout.message type_raft vote_for_n2; ready = one_by_one }))
Reach-IsBounded_example = Reach-IsBounded layout (
    next (next (begin 7001 none none) (learnt (codes "n2") (codes "h2") 7002 (omega arith)))
      (served (record { bytes = frame layout.message type_raft vote_for_n2; ready = one_by_one })))

load_peers-save_peers_example :
    (load_peers (record tcp { peers = []; peers_file = (save_peers tcp).peers_file })).peers
    ≡ n2 ∷ []
unfolding is_blank is_known
load_peers-save_peers_example =
    load_peers-save_peers tcp (record tcp { peers = []; peers_file = (save_peers tcp).peers_file })
      refl (((refl, (refl, (refl, tt)), omega arith), (refl, (refl, (refl, tt)), omega arith), tt))
      ((refl, tt), omega arith) refl refl refl

-- A body that gives up the requests of even length.
abbrev step : ℕ → List ℕ → ℕ × Option (List ℕ)
step c [] = (c + 1, none)
step c (j ∷ js) = (c + 1, some (j ∷ js))

run_from-enough_example :
    run_from [] step 7 0 0 ([] ∷ (5 ∷ []) ∷ [] ∷ [])
    ≡ run_from [] step 3 0 0 ([] ∷ (5 ∷ []) ∷ [] ∷ [])
run_from-enough_example =
    run_from-enough [] step 3 7 0 0 ([] ∷ (5 ∷ []) ∷ [] ∷ []) (omega arith) (omega arith)

abbrev counter : CounterCli (List (List ℕ))
counter = record {
  node_id = codes "n1";
  line = none;
  prompt_needed = false;
  quit_requested = false;
  last_role = follower;
  last_term = 0;
  pending_joins = join_n3 ∷ [];
  fwd_cmds = set_x (codes "1") ∷ [];
  host = record {
    node = record (idle_with counter_application 0) { state = leader };
    link = link;
    disk = no_disk;
  };
  out = [];
}

abbrev join_n4 : JoinRequest
join_n4 = record join_n3 { node_id = codes "n4"; host = codes "h4"; port = 7004 }

abbrev join_n5 : JoinRequest
join_n5 = record join_n4 { node_id = codes "n5" }

abbrev two_joins : CounterCli (List (List ℕ))
two_joins = record counter { pending_joins = join_n4 ∷ join_n5 ∷ [] }

handle_pending_joins-requests_last_example :
    let members = (idle_with counter_application 0).config_state.old_members in
    let c' = handle_pending_joins layout network two_joins in
    let n' = c'.host.node in
    (c'.pending_joins ≡ [])
    × (n'.requested_membership_pending ≡ true)
    × (member_list_contains n'.requested_membership (codes "n4") ≡ (
        not (is_empty (codes "n4"))
        && (member_list_contains members (codes "n4") || same (codes "n5") (codes "n4"))))
unfolding Text-discrete ℕ_discrete is_leader self_is_member member_list_contains
handle_pending_joins-requests_last_example =
    handle_pending_joins-requests_last layout network two_joins join_n4 join_n5 (codes "n4") refl
      ((omega arith, (omega arith, (omega arith, tt))), omega arith) refl (refl, refl) (refl, refl)
      ((omega arith, omega arith), (omega arith, omega arith))

abbrev demo : Demo ℕ (List (List ℕ))
demo = record {
  node_id = codes "n1";
  line = none;
  prompt_needed = false;
  quit_requested = false;
  leave_pending = false;
  last_role = follower;
  last_term = 0;
  last_voted_for = [];
  last_vote_count = 0;
  rejoin = none;
  pending_joins = join_n3 ∷ record join_n3 { cluster_join = true; members = n2 ∷ [] } ∷ [];
  fwd_cmds = set_x (codes "1") ∷ [];
  host = record {
    node = record (idle_with (demo_application none) ([], 0)) { state = leader };
    link = link;
    disk = no_disk;
  };
  out = [];
}

handle_join-requests_example :
    let n = demo.host.node in
    let members = n.config_state.old_members in
    let (c', left) = handle_join layout network demo join_n4 in
    let n' = c'.host.node in
    (left ≡ none)
    × (((length members ≡ max_nodes) × (n' ≡ n))
        ⊎ ((length members < max_nodes)
            × (n'.requested_membership_pending ≡ true)
            × (member_list_contains n'.requested_membership (codes "n4") ≡ (
                not (is_empty (codes "n4"))
                && (member_list_contains members (codes "n4") || same (codes "n4") (codes "n4"))))))
unfolding Text-discrete ℕ_discrete is_leader self_is_member member_list_contains
handle_join-requests_example =
    handle_join-requests layout network demo join_n4 (codes "n4") refl
      ((omega arith, (omega arith, (omega arith, tt))), omega arith) (refl, refl)
      (omega arith, omega arith)

-- The store has the key "x".
abbrev store : List Pair × ℕ
store = (kv_apply [] (set_x (codes "1")), 0)

cmd_delete-keeps_store_example :
    let queue = demo.host.link.tcp.cmd_queue in
    let queue' = (cmd_delete layout network demo (codes "x")).host.link.tcp.cmd_queue in
    (queue' ≡ queue ++ plain_command (codes "delete") (codes "x") [] ∷ [])
    × (applied none store queue' ≡ applied none store queue)
unfolding Text-discrete ℕ_discrete is_leader self_is_member member_list_contains init
cmd_delete-keeps_store_example =
    cmd_delete-keeps_store layout network none demo (codes "x") store refl (omega arith)
