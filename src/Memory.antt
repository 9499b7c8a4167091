-- ===== src/Memory.antt =====
-- The in-process transport (c/src/raft_transport.c): a queue of messages and a queue of commands
-- for each of `max_nodes` nodes, by the position of its name among those registered.
pub mod Delivery
use raft_rx.Prelude.{
  ℕ, Bool, true, false, Option, none, some, List, [], ◌∷◌, ◌++◌, Text, if◌then◌else◌, leb, length,
  take, get_or, set, replicate,
}
use raft_rx.Types.{Message, Command, max_nodes, max_queue, max_id, copy}
use raft_rx.Members.{index_of}
use raft_rx.Phases.{Transport}

pub record Memory : Type 0 where
  pub node_ids : List Text
  pub queues : List (List Message)
  pub client_queues : List (List Command)

unfoldable pub init : Memory
init = record {
  node_ids = [];
  queues = replicate max_nodes [];
  client_queues = replicate max_nodes [];
}

-- `transport_find_node`, with `none` for -1.
abbrev pub find_node : Memory → Text → Option ℕ
find_node t id = index_of t.node_ids id

-- The results of these functions are true for 0 and false for -1.
unfoldable pub register_node : Memory → Text → Memory × Bool
register_node t id =
    if leb max_nodes (length t.node_ids)
    then (t, false)
    else (record t { node_ids = t.node_ids ++ copy max_id id ∷ [] }, true)

-- At the end of the queue of a position, unless it is full.
module _ {A : Type 0} where
  pub push_at : List (List A) → ℕ → A → List (List A) × Bool
  push_at queues i a =
      let queue = get_or queues i [] in
      if leb max_queue (length queue)
      then (queues, false)
      else (set queues i (queue ++ a ∷ []), true)

  -- The first elements of the queue of a position, which is empty afterwards.
  pub drain_at : List (List A) → ℕ → ℕ → List (List A) × List A
  drain_at queues i capacity = (set queues i [], take capacity (get_or queues i []))

pub send : Memory → Message → Memory × Bool
unfolding push_at
send t m = elim (find_node t m.target) [
  | none ↦ (t, false)
  | some i ↦ let (queues, done) = push_at t.queues i m in (record t { queues = queues }, done)
]

pub recv_for : Memory → Text → ℕ → Memory × List Message
unfolding drain_at
recv_for t id capacity = elim (find_node t id) [
  | none ↦ (t, [])
  | some i ↦ let (queues, out) = drain_at t.queues i capacity in (record t { queues = queues }, out)
]

unfoldable pub submit_client_command : Memory → Text → Command → Memory × Bool
unfolding push_at
submit_client_command t id c = elim (find_node t id) [
  | none ↦ (t, false)
  | some i ↦
      let (queues, done) = push_at t.client_queues i c in
      (record t { client_queues = queues }, done)
]

unfoldable pub recv_client_commands : Memory → Text → ℕ → Memory × List Command
unfolding drain_at
recv_client_commands t id capacity = elim (find_node t id) [
  | none ↦ (t, [])
  | some i ↦
      let (queues, out) = drain_at t.client_queues i capacity in
      (record t { client_queues = queues }, out)
]

-- `raft_mem_transport_make`: the vtable of a node, over the cluster's transport.
unfoldable pub mem_transport : Text → Transport Memory
mem_transport id = record {
  send = send;
  recv = λ t capacity. recv_for t id capacity;
  submit_command = λ t c. submit_client_command t id c;
  recv_commands = λ t capacity. recv_client_commands t id capacity;
  set_enabled = none;
}
