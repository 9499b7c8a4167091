-- ===== src/Mqtt.antt =====
-- The MQTT transport (c/src/raft_mqtt_transport.c, c/include/raft/raft_mqtt_transport.h) and its joins
-- (c/src/raft_mqtt_join.c). The layer below is a parameter, `Hal`, by what
-- c/include/raft/raft_mqtt_hal.h says of it.
pub mod Slots
pub mod Inbox
pub mod Posix
use raft_rx.Prelude.{
  ℕ, zero, suc, ◌+◌, ◌-◌, Bool, true, false, not, ◌&&◌, Option, none, some, List, [], ◌∷◌, ◌++◌,
  Text, codes, same, is_empty, if◌then◌else◌, ltb, leb, ◌==◌, length, take, drop, map, set, get_or,
  replicate,
}
use raft_rx.Types.{Message, Command, max_id, max_nodes, max_queue, copy}
use raft_rx.Phases.{Transport}
use raft_rx.Tcp.Frames.{Struct}
use raft_rx.Mqtt.Slots.{write_slot, name_of, empty_slot}

-- raft_mqtt_config_t, without what only `connect` reads.
pub record Config : Type 0 where
  pub cluster_id : Text
  pub node_id : Text
  pub qos : ℕ

abbrev pub Packet : Type 0
Packet = Text × List ℕ

-- The layer below: its state has a queue of packets, which recv_raw drains one at a time, each cut to
-- the caller's buffers as `received` does it; `arrived` is which packets have come to it since the
-- last look. The result of the others is true for 0.
pub record Hal (B : Type 0) : Type 0 where
  pub connect : B → Config → B × Bool
  pub publish : B → Text → List ℕ → ℕ → B × Bool
  pub subscribe : B → Text → ℕ → B × Bool
  pub poll : B → B
  pub arrived : B → B × List Packet
  pub disconnect : B → B

-- raft_mqtt_transport_t, with the layer below and its queue. `join_queue` is all the slots of the array.
pub record Mqtt (B : Type 0) : Type 0 where
  pub hal : B
  pub waiting : List Packet
  pub config : Config
  pub inbox_topic : Text
  pub join_topic : Text
  pub join_queue : List (List ℕ)
  pub join_count : ℕ
  pub cmd_queue : List Command
  pub enabled : Bool
  pub started : Bool

abbrev pub topic_of : Text → Text → Text
topic_of cluster last = copy 128 (codes "raft/" ++ (cluster ++ b'/' ∷ last))

module _ {B : Type 0} where
  unfoldable pub init : Config → B → Mqtt B
  init config hal = record {
    hal = hal;
    waiting = [];
    config = config;
    inbox_topic = topic_of config.cluster_id config.node_id;
    join_topic = [];
    join_queue = replicate max_nodes empty_slot;
    join_count = 0;
    cmd_queue = [];
    enabled = true;
    started = false;
  }

  unfoldable pub route_join : Mqtt B → Text → List ℕ → Mqtt B
  route_join t topic payload =
      if not (is_empty t.join_topic)
        && (same topic t.join_topic
            && (ltb 0 (length payload)
                && (ltb (length payload) max_id && ltb t.join_count max_nodes)))
      then record t {
        join_queue =
            set t.join_queue t.join_count
              (write_slot (get_or t.join_queue t.join_count []) payload);
        join_count = t.join_count + 1;
      }
      else t

  unfoldable pub submit_command : Mqtt B → Command → Mqtt B × Bool
  submit_command t c =
      if leb max_queue (length t.cmd_queue)
      then (t, false)
      else (record t { cmd_queue = t.cmd_queue ++ c ∷ [] }, true)

  unfoldable pub recv_commands : Mqtt B → ℕ → Mqtt B × List Command
  recv_commands t capacity = (record t { cmd_queue = [] }, take capacity t.cmd_queue)

-- A packet as recv_raw writes it into a topic of 128 bytes and a payload of `size` bytes.
abbrev pub received : ℕ → Packet → Packet
received size (topic, payload) = (copy 128 topic, take size payload)

module _ {B : Type 0} (message : Struct Message) where
  -- The loop over the packets that wait, with the room that is left: what it hands out, and the packets
  -- that it has not come to.
  unfoldable pub recv_from : Mqtt B → ℕ → List Packet → Mqtt B × (List Message × List Packet)
  recv_from t zero ps = (t, ([], ps))
  recv_from t (suc room) [] = (t, ([], []))
  recv_from t (suc room) (p ∷ ps) =
      let (topic, payload) = received message.size p in
      if length payload == message.size && same topic t.inbox_topic
      then (if t.enabled
          then (let (t1, (out, left)) = recv_from t room ps in
              (t1, (message.read payload ∷ out, left)))
          else recv_from t (suc room) ps)
      else recv_from (route_join t topic payload) (suc room) ps

module _ {B : Type 0} (hal : Hal B) where
  unfoldable pub set_enabled : Mqtt B → Bool → Mqtt B
  set_enabled t on =
      if on
      then record t { enabled = true }
      else record t { enabled = false; hal = (hal.arrived t.hal).0; waiting = []; cmd_queue = [] }

  unfoldable pub start : Mqtt B → Mqtt B × Bool
  start t =
      if t.started
      then (t, true)
      else (let (b, connected) = hal.connect t.hal t.config in
          if not connected
          then (record t { hal = b }, false)
          else (let (b1, subscribed) = hal.subscribe b t.inbox_topic t.config.qos in
              if subscribed
              then (record t { hal = b1; started = true }, true)
              else (record t { hal = hal.disconnect b1 }, false)))

  unfoldable pub stop : Mqtt B → Mqtt B
  stop t = if t.started then record t { hal = hal.disconnect t.hal; started = false } else t

  -- The first call of `raft_mqtt_transport_recv_joins` subscribes to the joins and announces the node.
  unfoldable pub announce : Mqtt B → Mqtt B
  announce t =
      if not (is_empty t.join_topic)
      then t
      else (let topic = topic_of t.config.cluster_id (codes "join") in
          let b = (hal.subscribe t.hal topic t.config.qos).0 in
          record t {
            join_topic = topic;
            hal = (hal.publish b topic t.config.node_id t.config.qos).0;
          })

  unfoldable pub recv_joins : Mqtt B → ℕ → Mqtt B × List Text
  recv_joins t capacity =
      let t1 = announce t in
      (record t1 { join_count = 0 }, map name_of (take capacity (take t1.join_count t1.join_queue)))

module _ {B : Type 0} (hal : Hal B) (message : Struct Message) where
  unfoldable pub send : Mqtt B → Message → Mqtt B × Bool
  send t m =
      if not t.enabled
      then (t, true)
      else (let topic = topic_of t.config.cluster_id m.target in
          let (b, done) = hal.publish t.hal topic (message.bytes m) t.config.qos in
          (record t { hal = b }, done))

  unfoldable pub recv : Mqtt B → ℕ → Mqtt B × List Message
  recv t capacity =
      let (b, packets) = hal.arrived (hal.poll t.hal) in
      let (t1, (out, left)) =
        recv_from message (record t { hal = b }) capacity (t.waiting ++ packets) in
      (record t1 { waiting = left }, out)

  -- `raft_mqtt_transport_make`
  unfoldable pub mqtt_transport : Transport (Mqtt B)
  mqtt_transport = record {
    send = send;
    recv = recv;
    submit_command = submit_command;
    recv_commands = recv_commands;
    set_enabled = some (set_enabled hal);
  }
