-- ===== src/Mqtt/Inbox.antt =====
-- What the MQTT transport hands to the node, and the names that it hands to the program
-- (c/src/raft_mqtt_transport.c, `mqtt_recv`; c/src/raft_mqtt_join.c).
use raft_rx.Prelude.{
  ℕ, zero, suc, ◌-◌, ◌<◌, ◌≤◌, leb, ◌≡◌, true, false, ◌&&◌, List, [], ◌∷◌, ◌++◌, Text, same,
  is_empty, if◌then◌else◌, ◌==◌, length, take, take_all, Text-discrete, drop, get_or, arith, refl,
  ap, ◌∙◌, Bool-cases, inl, inr,
}
use raft_rx.Types.{Message, max_id, copy}
use raft_rx.Tcp.Frames.{Struct}
use raft_rx.Mqtt.{Hal, Mqtt, Packet, route_join, recv_from, recv, announce, recv_joins}
use raft_rx.Mqtt.Slots.{write_slot, before_nul, name_of, HasNoNul, before_nul-write_slot}

-- The messages among packets: those with at least the bytes of a message whose topic, cut to 127
-- bytes, is that of the inbox; what lies behind the first bytes is not read.
unfoldable pub inbox_of : Struct Message → Text → List Packet → List Message
inbox_of s inbox [] = []
inbox_of s inbox ((topic, payload) ∷ ps) =
    let rest = inbox_of s inbox ps in
    if leb s.size (length payload) && same (copy 128 topic) inbox
    then s.read (take s.size payload) ∷ rest
    else rest

length-take_full : (n : ℕ) (xs : List ℕ) → (length (take n xs) == n) ≡ leb n (length xs)
length-take_full zero xs = ground arith
length-take_full (suc n) [] = ground arith
length-take_full (suc n) (x ∷ xs) = ground (arith, length-take_full n xs)

route_join-keeps :
    {B : Type 0} (t : Mqtt B) (topic : Text) (payload : List ℕ)
    → ((route_join t topic payload).enabled ≡ t.enabled)
      × ((route_join t topic payload).inbox_topic ≡ t.inbox_topic)
unfolding route_join
route_join-keeps t topic payload = ground arith

module _ {B : Type 0} (message : Struct Message) where
  recv_from-inbox :
      (ps : List Packet) (t : Mqtt B) (room : ℕ)
      → t.enabled ≡ true
      → (recv_from message t room ps).1.0 ≡ take room (inbox_of message t.inbox_topic ps)
  unfolding recv_from inbox_of
  recv_from-inbox [] t zero on = refl
  recv_from-inbox (p ∷ ps) t zero on = refl
  recv_from-inbox [] t (suc room) on = refl
  recv_from-inbox ((topic, payload) ∷ ps) t (suc room) on =
      let cut = take message.size payload in
      let full = length-take_full message.size payload in
      elim (Bool-cases (length cut == message.size && same (copy 128 topic) t.inbox_topic)) [
        | inl mine ↦ ground (arith, mine, full, on, recv_from-inbox ps t room on)
        | inr other ↦
            let t1 = route_join t (copy 128 topic) cut in
            let (enabled, inbox) = route_join-keeps t (copy 128 topic) cut in
            ground
              (arith, other, full, enabled, inbox, recv_from-inbox ps t1 (suc room) (enabled ∙ on))
      ]

-- A transport that is enabled hands out, of the packets that wait in the layer below, exactly those
-- with at least the bytes of a message whose topic, cut to 127 bytes, is that of the inbox: each
-- read from its first bytes, in their order and as many as there is room for, whatever else lies
-- between them.
pub recv-inbox :
    {B : Type 0} (hal : Hal B) (message : Struct Message) (t : Mqtt B) (capacity : ℕ)
    → t.enabled ≡ true
    → (recv hal message t capacity).1
      ≡ take capacity
          (inbox_of message t.inbox_topic (t.waiting ++ (hal.arrived (hal.poll t.hal)).1))
unfolding recv
recv-inbox hal message t capacity on =
    let (b, packets) = hal.arrived (hal.poll t.hal) in
    recv_from-inbox message (t.waiting ++ packets) (record t { hal = b }) capacity on

module _ {B : Type 0} where
  recv_from-join :
      (message : Struct Message) (t : Mqtt B) (room : ℕ) (payload : List ℕ)
      → same t.join_topic t.inbox_topic ≡ false
      → (length t.join_topic < 128) × (length payload < message.size)
      → recv_from message t (suc room) ((t.join_topic, payload) ∷ [])
        ≡ (route_join t t.join_topic payload, ([], []))
  unfolding recv_from Text-discrete route_join copy write_slot
  recv_from-join message t room payload apart (topic, short) =
      rw
        (
          take_all 127 t.join_topic (omega (arith, topic)),
          take_all message.size payload (omega (arith, short)),
          apart,
        )
        ground (arith, short)

  route_join-first :
      (t : Mqtt B) (payload slot : List ℕ) (slots : List (List ℕ))
      → is_empty t.join_topic ≡ false
      → t.join_queue ≡ slot ∷ slots
      → t.join_count ≡ 0
      → (0 < length payload) × (length payload < max_id)
      → ((route_join t t.join_topic payload).join_queue ≡ write_slot slot payload ∷ slots)
        × ((route_join t t.join_topic payload).join_count ≡ 1)
        × ((route_join t t.join_topic payload).join_topic ≡ t.join_topic)
  unfolding route_join
  route_join-first t payload slot slots active queue fresh (some, short) =
      ground (arith, active, queue, fresh, some, short)

  recv_joins-first :
      (hal : Hal B) (t : Mqtt B) (slot : List ℕ) (slots : List (List ℕ)) (room : ℕ)
      → is_empty t.join_topic ≡ false
      → t.join_queue ≡ slot ∷ slots
      → t.join_count ≡ 1
      → (recv_joins hal t (suc room)).1 ≡ name_of slot ∷ []
  unfolding recv_joins announce
  recv_joins-first hal t slot slots zero active queue one = rw (active, queue, one) refl
  recv_joins-first hal t slot slots (suc room) active queue one = rw (active, queue, one) refl

  -- A transport that listens for joins, on a topic of fewer than 128 bytes other than its inbox,
  -- has none queued and has a first slot that ends in NUL, and a message takes at least 16 bytes:
  -- if nothing waits but a join with a name of 1 to 15 bytes without NUL, then a receive with room
  -- and the next draining of joins with room hand out one name, and that is the name followed by
  -- what the slot held behind it, cut to 15 bytes.
  pub recv_joins-recv :
      (hal : Hal B) (message : Struct Message) (t : Mqtt B) (b : B) (name : Text) (slot : List ℕ)
      (slots : List (List ℕ)) (capacity room : ℕ)
      → (is_empty t.join_topic ≡ false) × (same t.join_topic t.inbox_topic ≡ false)
      → (length t.join_topic < 128) × (max_id ≤ message.size)
      → (t.join_queue ≡ slot ∷ slots) × (t.join_count ≡ 0)
      → (length slot ≡ max_id) × (get_or slot (max_id - 1) 0 ≡ 0)
      → HasNoNul name × (0 < length name) × (length name < max_id)
      → (t.waiting ≡ []) × (hal.arrived (hal.poll t.hal) ≡ (b, (t.join_topic, name) ∷ []))
      → (recv_joins hal (recv hal message t (suc capacity)).0 (suc room)).1
        ≡ copy max_id (name ++ before_nul (drop (length name) slot)) ∷ []
  unfolding recv name_of
  recv_joins-recv hal message t b name slot slots capacity room (active, apart) (fits, size_ok)
        (queue, fresh) (size, end) (nul, some, short) (idle, poll) =
      let t1 = record t { hal = b; waiting = [] } in
      let (queued, one, topic) =
        route_join-first t1 name slot slots active queue fresh (some, short) in
      rw (idle, poll, recv_from-join message t1 capacity name apart (fits, omega arith))
        (recv_joins-first hal (record (route_join t1 t.join_topic name) { waiting = [] })
            (write_slot slot name) slots room (ap is_empty topic ∙ active) queued one
          ∙ ap (λ s. copy max_id s ∷ []) (before_nul-write_slot slot name size end nul short))
