-- ===== src/Examples/Parts.antt =====
-- Member lists, texts and files, the in-memory transport and the key-value store at concrete values.
use raft_rx.Prelude.{
  ℕ, ◌≤◌, ◌<◌, ◌≡◌, true, not, ◌&&◌, ◌||◌, some, List, [], ◌∷◌, ◌++◌, Text, codes, arith, refl,
  length, take, ltb, same, if◌then◌else◌, replicate, get_or, Text-discrete, ℕ_discrete, zero, suc,
}
use raft_rx.Types.{
  Message, ClusterConfiguration, max_queue, max_nodes, max_peers, max_value, request_vote,
  new_message,
}
use raft_rx.Members.{member_list_contains, normalize_members, peers_of}
use raft_rx.Members.Normalize.{normalize_members_unique}
use raft_rx.Members.Peers.{contains-peers_of}
use raft_rx.Codec.{encode_member_list, decode_member_list, decode-encode}
use raft_rx.Storage.SnapshotFile.{write_snapshot, read_snapshot, read-write_snapshot}
use raft_rx.Memory.{Memory, send, recv_for}
use raft_rx.Memory.Delivery.{IsSized, waiting, is_registered, waiting-send, waiting-recv_for}
use raft_rx.Kv.{get, kv_apply, has_key}
use raft_rx.Kv.Lookup.{get-kv_apply}
use raft_rx.Examples.Nodes.{State, set_x}

abbrev unsorted : List Text
unsorted = codes "n2" ∷ codes "n1" ∷ codes "n2" ∷ []

abbrev sorted : List Text
sorted = codes "n1" ∷ codes "n2" ∷ []

normalize_members_unique_example : normalize_members unsorted 8 ≡ normalize_members sorted 8
unfolding member_list_contains
normalize_members_unique_example =
    normalize_members_unique unsorted sorted 8 (omega arith, (omega arith, (omega arith, tt)))
      (omega arith, (omega arith, tt)) (omega arith) (omega arith) (λ x. ground arith)

abbrev joint_configuration : ClusterConfiguration
joint_configuration = record {
  old_members = sorted;
  new_members = codes "n1" ∷ codes "n3" ∷ [];
  index = 4;
}

contains-peers_of_example :
    (length (peers_of (codes "n1") joint_configuration) ≤ max_peers)
    × (length (peers_of (codes "n1") joint_configuration) < max_peers
        → (x : Text)
        → member_list_contains (peers_of (codes "n1") joint_configuration) x ≡ (
            not (same x (codes "n1"))
            && (member_list_contains sorted x
                || member_list_contains (codes "n1" ∷ codes "n3" ∷ []) x)))
contains-peers_of_example =
    contains-peers_of (codes "n1") joint_configuration (omega arith, (omega arith, tt))
      (omega arith, (omega arith, tt))

decode-encode_example : decode_member_list (encode_member_list sorted max_value) max_nodes ≡ sorted
unfolding member_list_contains Text-discrete ℕ_discrete
decode-encode_example =
    decode-encode sorted (omega arith, (omega arith, tt))
      (refl, ((omega arith), ((omega arith), tt)), (refl, ((omega arith), ((omega arith), tt)), tt))
      (refl, refl, (refl, refl, tt)) (omega arith)

read-write_snapshot_example :
    read_snapshot 3 1 (some (write_snapshot 3 1 (codes "x=1"))) ≡ some (codes "x=1")
read-write_snapshot_example =
    read-write_snapshot 3 1 3 1 (codes "x=1") (omega arith) (omega arith) (omega arith)

abbrev two_nodes : Memory
two_nodes = record {
  node_ids = sorted;
  queues = replicate max_nodes [];
  client_queues = replicate max_nodes [];
}

no_queue : (n i : ℕ) → length (get_or (replicate {A = List Message} n []) i []) ≤ max_queue
no_queue zero i = omega arith
no_queue (suc n) zero = omega arith
no_queue (suc n) (suc i) = no_queue n i

two_nodes-IsSized : IsSized two_nodes
two_nodes-IsSized = record {
  names = omega arith;
  slots = refl;
  bounded = λ i. no_queue max_nodes i;
}

abbrev hello : Message
hello = record (new_message request_vote) { target = codes "n2" }

waiting-send_example :
    ((send two_nodes hello).1 ≡ (
      is_registered two_nodes (codes "n2")
      && ltb (length (waiting two_nodes (codes "n2"))) max_queue))
    × (waiting (send two_nodes hello).0 (codes "n2") ≡ (
        if same (codes "n2") (codes "n2") && (send two_nodes hello).1
        then waiting two_nodes (codes "n2") ++ hello ∷ []
        else waiting two_nodes (codes "n2")))
waiting-send_example = waiting-send two_nodes hello (codes "n2") two_nodes-IsSized

waiting-recv_for_example :
    ((recv_for two_nodes (codes "n2") 4).1 ≡ take 4 (waiting two_nodes (codes "n2")))
    × (max_queue ≤ 4 → (recv_for two_nodes (codes "n2") 4).1 ≡ waiting two_nodes (codes "n2"))
    × (waiting (recv_for two_nodes (codes "n2") 4).0 (codes "n1")
        ≡ (if same (codes "n1") (codes "n2") then [] else waiting two_nodes (codes "n1")))
waiting-recv_for_example = waiting-recv_for two_nodes (codes "n2") (codes "n1") 4 two_nodes-IsSized

abbrev one_pair : State
one_pair = record { key = codes "x"; value = codes "1"; used = true } ∷ []

get-kv_apply_example : get (kv_apply one_pair (set_x (codes "2"))) (codes "x") ≡ codes "2"
unfolding has_key Text-discrete ℕ_discrete
get-kv_apply_example =
    get-kv_apply one_pair (set_x (codes "2")) (codes "x") (λ _. refl, tt) (omega arith, omega arith)
      (λ _. omega arith)
