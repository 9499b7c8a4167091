-- ===== src/Examples/Broker.antt =====
-- The MQTT transport at concrete values.
use raft_rx.Prelude.{
  ◌≡◌, true, List, [], ◌∷◌, ◌++◌, Text, codes, arith, refl, take, drop, replicate, Text-discrete,
  ℕ_discrete,
}
use raft_rx.Types.{max_id, copy}
use raft_rx.Tcp.Frames.{Struct}
use raft_rx.Types.{Message, request_vote, new_message}
use raft_rx.Mqtt.{Hal, Mqtt, Packet, init, recv, recv_joins}
use raft_rx.Mqtt.Slots.{before_nul, empty_slot}
use raft_rx.Mqtt.Inbox.{inbox_of, recv-inbox, recv_joins-recv}

-- A layer below whose state is the packets that have arrived.
abbrev hal : Hal (List Packet)
hal = record {
  connect = λ b config. (b, true);
  publish = λ b topic payload qos. (b, true);
  subscribe = λ b topic qos. (b, true);
  poll = λ b. b;
  arrived = λ b. ([], b);
  disconnect = λ b. b;
}

-- A struct of sixteen bytes.
abbrev message : Struct Message
message = record { size = 16; bytes = λ m. replicate 16 1; read = λ bs. new_message request_vote }

abbrev joins : Text
joins = codes "raft/c/join"

abbrev inbox : Text
inbox = codes "raft/c/n1"

-- A transport to which a message with a byte too many has come, with a slot that has held "node12".
abbrev mqtt : Mqtt (List Packet)
mqtt = record (init (record { cluster_id = codes "c"; node_id = codes "n1"; qos = 0 }) []) {
  hal = (inbox, replicate 17 1) ∷ [];
  inbox_topic = inbox;
  join_topic = joins;
  join_queue = (codes "node12" ++ replicate 10 0) ∷ replicate 7 empty_slot;
}

recv-inbox_example :
    (recv hal message mqtt 64).1 ≡ take 64 (inbox_of message inbox ((inbox, replicate 17 1) ∷ []))
unfolding init
recv-inbox_example = recv-inbox hal message mqtt 64 refl

recv_joins-recv_example :
    (recv_joins hal (recv hal message (record mqtt { hal = (joins, codes "n3") ∷ [] }) 64).0 8).1
    ≡ copy max_id (codes "n3" ++ before_nul (drop 2 (codes "node12" ++ replicate 10 0))) ∷ []
unfolding Text-discrete ℕ_discrete init
recv_joins-recv_example =
    recv_joins-recv hal message (record mqtt { hal = (joins, codes "n3") ∷ [] }) [] (codes "n3")
      (codes "node12" ++ replicate 10 0) (replicate 7 empty_slot) 63 7 (refl, refl)
      (omega arith, omega arith) (refl, refl) (refl, refl)
      ((omega arith, (omega arith, tt)), omega arith, omega arith) (refl, refl)
