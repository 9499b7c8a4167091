-- ===== src/Mqtt/Posix.antt =====
-- The POSIX layer below the MQTT transport (c/src/raft_mqtt_hal_posix.c,
-- c/include/raft/raft_mqtt_hal_posix.h). The libraries under it, OpenSSL, coreMQTT and pthread, are the
-- parameter `Client`. The lock makes each access to the ring one step.
pub mod Fifo
pub mod Session
use raft_rx.Prelude.{
  ℕ, ◌+◌, ◌-◌, ◌%◌, Bool, true, false, not, Option, none, some, List, [], ◌∷◌, Text, if◌then◌else◌,
  ltb, leb, ◌==◌, length, take, get_or, set, replicate,
}
use raft_rx.Types.{max_queue, copy}
use raft_rx.Mqtt.{Config, Packet}
use raft_rx.Mqtt.Slots.{before_nul}

-- size_t, of 64 bits.
abbrev pub size_mod : ℕ
size_mod = 18446744073709551616

-- A slot of the ring: the string in the char[128], and the first `payload_len` bytes of the payload.
pub record Slot : Type 0 where
  pub topic : Text
  pub payload : List ℕ

abbrev pub no_slot : Slot
no_slot = record { topic = []; payload = [] }

pub record Ring : Type 0 where
  pub slots : List Slot
  pub head : ℕ
  pub tail : ℕ

-- What the context holds of the connection, beside the client's own state `L`.
pub record Posix (L : Type 0) : Type 0 where
  pub client : L
  pub has_ssl : Bool
  pub ring : Ring
  pub shutdown : Bool
  pub thread_started : Bool

-- The functions of the libraries, in the order the layer calls them; true is success.
pub record Client (L : Type 0) : Type 0 where
  pub tls_connect : L → Config → L × Bool
  pub mqtt_init : L → L × Bool
  pub mqtt_connect : L → Config → L × Bool
  pub thread_create : L → L × Bool
  pub tls_shutdown : L → L
  pub tls_close : L → L
  pub packet_id : L → L × ℕ
  pub mqtt_publish : L → Text → List ℕ → ℕ → ℕ → L × Bool
  pub mqtt_subscribe : L → Text → ℕ → ℕ → L × Bool
  pub process_loop : L → L × Bool
  pub thread_join : L → L
  pub mqtt_disconnect : L → L

unfoldable pub no_ring : Ring
no_ring = record { slots = replicate max_queue no_slot; head = 0; tail = 0 }

-- `capacity` is the size of the payload array, sizeof(raft_message_t) + 4.
module _ (capacity : ℕ) where
  unfoldable pub cut_packet : Packet → Slot
  cut_packet (topic, payload) = record {
    topic = before_nul (take 127 topic);
    payload = take capacity payload;
  }

  -- `posix_mqtt_event_cb`, for a PUBLISH: the packet is dropped if the ring is full.
  unfoldable pub push : Ring → Packet → Ring
  unfolding cut_packet
  push r p =
      if ltb ((r.tail + (size_mod - r.head)) % size_mod) max_queue
      then record r {
        slots = set r.slots (r.tail % max_queue) (cut_packet p);
        tail = (r.tail + 1) % size_mod;
      }
      else r

-- `posix_hal_recv_raw` into buffers of the two sizes, `none` for 0.
unfoldable pub view : ℕ → ℕ → Slot → Packet
view topic_max payload_max s = (copy topic_max s.topic, take payload_max s.payload)

unfoldable pub pop : ℕ → ℕ → Ring → Ring × Option Packet
unfolding view
pop topic_max payload_max r = if r.head == r.tail then (r, none) else (
  record r { head = (r.head + 1) % size_mod },
  some (view topic_max payload_max (get_or r.slots (r.head % max_queue) no_slot)),
)

module _ {L : Type 0} (client : Client L) where
  -- The label `fail` of `posix_hal_connect`.
  unfoldable pub give_up : Posix L → L → Posix L × Bool
  give_up p l = (record p { client = client.tls_close l; has_ssl = false }, false)

  unfoldable pub connect : Posix L → Config → Posix L × Bool
  unfolding give_up
  connect p cfg =
      let (l1, secured) = client.tls_connect p.client cfg in
      if not secured
      then (record p { client = l1 }, false)
      else (let p1 = record p { has_ssl = true } in
          let (l2, ready) = client.mqtt_init l1 in
          if not ready
          then give_up p1 l2
          else (let (l3, connected) = client.mqtt_connect l2 cfg in
              if not connected
              then give_up p1 l3
              else (let (l4, created) = client.thread_create l3 in
                  let p2 = record p1 { shutdown = false } in
                  if not created
                  then give_up p2 l4
                  else (record p2 { client = l4; thread_started = true }, true))))

  unfoldable pub publish : Posix L → Text → List ℕ → ℕ → Posix L × Bool
  publish p topic payload qos =
      let (l1, id) = if ltb 0 qos then client.packet_id p.client else (p.client, 0) in
      let (l2, done) =
        client.mqtt_publish l1 (take (length topic % 65536) topic)
          (take (length payload % 65536) payload) qos id in
      (record p { client = l2 }, done)

  unfoldable pub subscribe : Posix L → Text → ℕ → Posix L × Bool
  subscribe p topic qos =
      let (l1, id) = client.packet_id p.client in
      let (l2, accepted) = client.mqtt_subscribe l1 (take (length topic % 65536) topic) qos id in
      if not accepted
      then (record p { client = l2 }, false)
      else (let (l3, done) = client.process_loop l2 in (record p { client = l3 }, done))

  unfoldable pub disconnect : Posix L → Posix L
  disconnect p =
      let p1 =
        if p.thread_started
        then record p {
          client = client.thread_join p.client;
          shutdown = true;
          thread_started = false;
        }
        else p in
      if p1.has_ssl
      then record p1 {
        client = client.tls_close (client.tls_shutdown (client.mqtt_disconnect p1.client));
        has_ssl = false;
      }
      else p1

-- `raft_mqtt_hal_posix_make` over a zeroed context.
unfoldable pub make : {L : Type 0} → L → Posix L
unfolding no_ring
make l = record {
  client = l;
  has_ssl = false;
  ring = no_ring;
  shutdown = false;
  thread_started = false;
}
