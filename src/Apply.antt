-- ===== src/Apply.antt =====
-- The loop of `raft_node_dump_outputs` that applies committed entries (c/src/raft.c).
pub mod Committed
use raft_rx.Prelude.{ℕ, zero, suc, ◌+◌, ◌-◌, if◌then◌else◌, ltb, true}
use raft_rx.Types.{Node}
use raft_rx.LogIndex.{entry_at}
use raft_rx.Membership.{apply_command}

module _ {S : Type 0} where
  -- One round.
  unfoldable pub apply_next : Node S → Node S
  apply_next n =
      let n1 = record n { last_applied = n.last_applied + 1 } in
      record (apply_command n1 (entry_at n1 n1.last_applied).command) { persist_dirty = true }

  -- while (last_applied < commit_index), on fuel.
  unfoldable pub apply_loop : ℕ → Node S → Node S
  apply_loop zero n = n
  apply_loop (suc fuel) n =
      let rest = apply_loop fuel (apply_next n) in
      if ltb n.last_applied n.commit_index then rest else n

  unfoldable pub apply_committed : Node S → Node S
  unfolding apply_loop
  apply_committed n = apply_loop (n.commit_index - n.last_applied) n
