-- ===== src/Phases.antt =====
-- The phases of a tick (c/src/raft.c): `raft_node_latch_inputs`, `raft_node_dump_outputs`, and
-- between them the evaluation of the role machine. The transport is its vtable
-- (c/include/raft/raft.h), over a state `T`. The clock is an argument, `now`.
pub mod Safe
pub mod Saved
pub mod Requests
pub mod Votes
pub mod Recovery
use raft_rx.Prelude.{ℕ, Bool, false, not, Option, List, [], ◌∷◌, ◌++◌, if◌then◌else◌, ltb, length}
use raft_rx.Types.{
  Node, Message, MessageKind, Command, request_vote, request_vote_response, append_entries,
  append_entries_response, max_queue, max_log,
}
use raft_rx.Members.{is_leader}
use raft_rx.Replication.{handle_append_entries_response, advance_commit_index}
use raft_rx.Membership.{append_own, maybe_drive_membership}
use raft_rx.Storage.{Disk, node_save}
use raft_rx.Compaction.{should_compact, do_compact}
use raft_rx.Apply.{apply_committed}
use raft_rx.Fsm.{Runtime, evaluate}

-- raft_transport_t. `set_enabled` may be null.
pub record Transport (T : Type 0) : Type 0 where
  pub send : T → Message → T × Bool
  pub recv : T → ℕ → T × List Message
  pub submit_command : T → Command → T × Bool
  pub recv_commands : T → ℕ → T × List Command
  pub set_enabled : Option (T → Bool → T)

-- A node with what it works on: its transport and its disk.
pub record Host (S T : Type 0) : Type 0 where
  pub node : Node S
  pub link : T
  pub disk : Disk

enqueue : List Message → Message → List Message
enqueue queue m = if ltb (length queue) max_queue then queue ++ m ∷ [] else queue

module _ {S : Type 0} where
  -- The `switch` over the kind of a message.
  sort_by : MessageKind → Node S → Message → Node S
  unfolding enqueue
  sort_by append_entries n m = record n {
    pending_append_entries = enqueue n.pending_append_entries m;
  }
  sort_by request_vote n m = record n { pending_vote_requests = enqueue n.pending_vote_requests m }
  sort_by request_vote_response n m = record n { pending_votes = enqueue n.pending_votes m }
  sort_by append_entries_response n m = handle_append_entries_response n m

  unfoldable pub take_messages : Node S → List Message → Node S
  unfolding sort_by
  take_messages n [] = n
  take_messages n (m ∷ ms) = take_messages (sort_by m.kind n m) ms

  unfoldable pub take_commands : Node S → List Command → Node S
  take_commands n [] = n
  take_commands n (c ∷ cs) =
      if ltb n.log_count max_log then take_commands (append_own n c) cs else n

  unfoldable pub clear_pending : Node S → Node S
  clear_pending n = record n {
    pending_append_entries = [];
    pending_vote_requests = [];
    pending_votes = [];
  }

module _ {S : Type 0} where
  compact_if_due : Node S → Disk → Node S × Disk
  compact_if_due n d = if should_compact n then do_compact n d else (n, d)

  save_if_dirty : Node S → Disk → Node S × Disk
  save_if_dirty n d =
      if n.persist_dirty then (record n { persist_dirty = false }, node_save n d) else (n, d)

module _ {T : Type 0} (tr : Transport T) where
  unfoldable pub send_all : T → List Message → T
  send_all l [] = l
  send_all l (m ∷ ms) = send_all (tr.send l m).0 ms

module _ {S T : Type 0} (tr : Transport T) where
  unfoldable pub latch_inputs : Host S T → Host S T
  latch_inputs h =
      if not h.node.running
      then record h { node = record (clear_pending h.node) { outbox = [] } }
      else (let (l1, messages) = tr.recv h.link max_queue in
          let n1 = take_messages (clear_pending h.node) messages in
          let (l2, commands) = tr.recv_commands l1 max_queue in
          record h { node = if is_leader n1 then take_commands n1 commands else n1; link = l2 })

  unfoldable pub dump_outputs : Host S T → Host S T
  unfolding compact_if_due save_if_dirty
  dump_outputs h =
      if not h.node.running
      then record h { node = record h.node { outbox = [] } }
      else (let n1 = if is_leader h.node then advance_commit_index h.node else h.node in
          let n2 = maybe_drive_membership (apply_committed n1) in
          let (n3, d3) = compact_if_due n2 h.disk in
          let (n4, d4) = save_if_dirty n3 d3 in
          record {
            node = record n4 { outbox = [] };
            link = send_all tr h.link n4.outbox;
            disk = d4;
          })

  -- One tick of one node.
  unfoldable pub tick : Runtime S → Host S T → ℕ → Host S T
  tick r h now =
      let h1 = latch_inputs h in dump_outputs (record h1 { node = evaluate r h1.node now })
