-- ===== src/Memory/Delivery.antt =====
-- The queues of the in-process transport by the name they belong to (c/src/raft_transport.c).
use raft_rx.Prelude.{
  take_all, ℕ, zero, suc, ◌≤◌, ◌<◌, ◌≡◌, Bool, true, false, none, some, List, [], ◌∷◌, ◌++◌, Text,
  same, if◌then◌else◌, length, take, get_or, set, arith, get_or-set_self, get_or-set_ne,
  length-append, length-set, Option-cases, inl, inr, ◌&&◌, ltb,
}
use raft_rx.Types.{Message, max_nodes, max_queue}
use raft_rx.Members.{index_of}
use raft_rx.Memory.{Memory, find_node, push_at, drain_at, send, recv_for}

index_of-lt : (ids : List Text) (id : Text) (i : ℕ) → index_of ids id ≡ some i → i < length ids
unfolding index_of
index_of-lt [] id i h = cc
index_of-lt (x ∷ ids) id zero h = omega arith
index_of-lt (x ∷ ids) id (suc i) h = ground (arith, index_of-lt ids id i)

-- Two names do not share a position.
index_of-injective :
    (ids : List Text) (a b : Text) (i : ℕ)
    → index_of ids a ≡ some i
    → index_of ids b ≡ some i
    → a ≡ b
unfolding index_of
index_of-injective [] a b i h k = cc
index_of-injective (x ∷ ids) a b zero h k = ground arith
index_of-injective (x ∷ ids) a b (suc i) h k = ground (arith, index_of-injective ids a b i)

-- A slot for every name, and no queue over its capacity.
pub record IsSized (t : Memory) : Type 0 where
  pub names : length t.node_ids ≤ max_nodes
  pub slots : length t.queues ≡ max_nodes
  pub bounded : (i : ℕ) → length (get_or t.queues i []) ≤ max_queue

-- The messages that wait for a name, oldest first.
pub waiting : Memory → Text → List Message
waiting t id = elim (find_node t id) [ none ↦ [] | some i ↦ get_or t.queues i [] ]

waiting-found :
    (t : Memory) (id : Text) (i : ℕ) → find_node t id ≡ some i → waiting t id ≡ get_or t.queues i []
unfolding waiting
waiting-found t id i e = ground arith

waiting-unknown : (t : Memory) (id : Text) → find_node t id ≡ none → waiting t id ≡ []
unfolding waiting
waiting-unknown t id e = ground arith

-- Writing the queue of one name changes what waits for that name alone.
waiting-set :
    (t : Memory) (a id : Text) (i : ℕ) (queue : List Message)
    → IsSized t
    → find_node t a ≡ some i
    → waiting (record t { queues = set t.queues i queue }) id
      ≡ (if same id a then queue else waiting t id)
unfolding waiting
waiting-set t a id i queue z e = elim (Option-cases (find_node t id)) [
  | inl unknown ↦ ground arith
  | inr (j, known) ↦ ground (
    arith,
    index_of-lt t.node_ids a i e,
    z.slots,
    z.names,
    index_of-injective t.node_ids a id i e,
    get_or-set_self t.queues i queue [],
    get_or-set_ne t.queues i j queue [],
  )
]

abbrev pub is_registered : Memory → Text → Bool
is_registered t id = elim (find_node t id) [ none ↦ false | some i ↦ true ]

-- On a transport whose queues are within their capacity, a message is taken exactly if its target
-- is registered and has room; then it is the last that waits for the target, and what waits for
-- other names is kept.
pub waiting-send :
    (t : Memory) (m : Message) (id : Text)
    → IsSized t
    → ((send t m).1 ≡ (is_registered t m.target && ltb (length (waiting t m.target)) max_queue))
      × (waiting (send t m).0 id
          ≡ (if same id m.target && (send t m).1 then waiting t id ++ m ∷ [] else waiting t id))
unfolding send push_at
waiting-send t m id z = elim (Option-cases (find_node t m.target)) [
  | inl unknown ↦ (ground arith, ground arith)
  | inr (i, known) ↦
      let here = waiting-found t m.target i known in
      (
        ground (arith, here),
        ground (arith, here, waiting-set t m.target id i (get_or t.queues i [] ++ m ∷ []) z known),
      )
]

-- On a transport whose queues are within their capacity, draining a name hands out its oldest
-- messages, all of them at the capacity that the nodes use, and leaves none; what waits for other
-- names is kept.
pub waiting-recv_for :
    (t : Memory) (id other : Text) (capacity : ℕ)
    → IsSized t
    → ((recv_for t id capacity).1 ≡ take capacity (waiting t id))
      × (max_queue ≤ capacity → (recv_for t id capacity).1 ≡ waiting t id)
      × (waiting (recv_for t id capacity).0 other ≡ (if same other id then [] else waiting t other))
unfolding recv_for drain_at
waiting-recv_for t id other capacity z = elim (Option-cases (find_node t id)) [
  | inl unknown ↦
      let empty = waiting-unknown t id unknown in
      (
        ground (arith, empty, take_all {A = Message} capacity []),
        λ le. ground (arith, empty),
        ground (arith, empty),
      )
  | inr (i, known) ↦
      let here = waiting-found t id i known in
      (
        ground (arith, here),
        λ le. ground (arith, here, take_all capacity (get_or t.queues i []), z.bounded i),
        ground (arith, waiting-set t id other i [] z known),
      )
]

-- Sending on a transport whose queues are within their capacity leaves them within it.
send-IsSized : (t : Memory) (m : Message) → IsSized t → IsSized (send t m).0
unfolding send push_at
send-IsSized t m z = elim (Option-cases (find_node t m.target)) [
  | inl unknown ↦ rw (unknown, send) z
  | inr (i, known) ↦
      rw (known, send)
        (record {
          names = z.names;
          slots = ground (arith, z.slots, length-set t.queues i (get_or t.queues i [] ++ m ∷ []));
          bounded = λ j. ground (
            arith,
            z.bounded j,
            z.bounded i,
            z.slots,
            z.names,
            index_of-lt t.node_ids m.target i known,
            length-append (get_or t.queues i []) (m ∷ []),
            get_or-set_self t.queues i (get_or t.queues i [] ++ m ∷ []) [],
            get_or-set_ne t.queues i j (get_or t.queues i [] ++ m ∷ []) [],
          );
        })
]
