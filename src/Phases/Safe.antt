-- ===== src/Phases/Safe.antt =====
-- The log of a node across a whole tick (c/src/raft.c): the input phase, the evaluation of the role
-- machine and the output phase.
use raft_rx.Prelude.{
  ℕ, ◌≡◌, inl, inr, true, false, if◌then◌else◌, not, List, [], ◌∷◌, ltb, arith, Bool-cases, dec_lt,
}
use raft_rx.Types.{
  Node, Message, MessageKind, Command, max_log, max_queue, request_vote, request_vote_response,
  append_entries, append_entries_response,
}
use raft_rx.LogIndex.{last_log_index}
use raft_rx.Members.{is_leader}
use raft_rx.Replication.{advance_commit_index}
use raft_rx.Replication.Safe.{
  SameLog-IsWellFormed, advance_commit_index-IsWellFormed,
  handle_append_entries_response-IsWellFormed,
}
use raft_rx.Membership.{append_own, maybe_drive_membership}
use raft_rx.Membership.Safe.{append_own-IsWellFormed, maybe_drive_membership-IsWellFormed}
use raft_rx.Storage.{Disk}
use raft_rx.Compaction.{should_compact}
use raft_rx.Compaction.Keeps.{do_compact-Compacted}
use raft_rx.Apply.{apply_committed}
use raft_rx.Apply.Committed.{apply_committed-Applied}
use raft_rx.Follower.Invariant.{IsWellFormed}
use raft_rx.Fsm.{Runtime, evaluate}
use raft_rx.Fsm.Safety.{evaluate-IsWellFormed}
use raft_rx.Phases.{
  Host, Transport, sort_by, take_messages, take_commands, clear_pending, compact_if_due,
  save_if_dirty, latch_inputs, dump_outputs, tick,
}

module _ {S : Type 0} where
  sort_by-IsWellFormed :
      (k : MessageKind) (n : Node S) (m : Message) → IsWellFormed n → IsWellFormed (sort_by k n m)
  unfolding sort_by
  sort_by-IsWellFormed append_entries n m v = SameLog-IsWellFormed n _ (ground arith) v
  sort_by-IsWellFormed request_vote n m v = SameLog-IsWellFormed n _ (ground arith) v
  sort_by-IsWellFormed request_vote_response n m v = SameLog-IsWellFormed n _ (ground arith) v
  sort_by-IsWellFormed append_entries_response n m v =
      handle_append_entries_response-IsWellFormed n m v

  take_messages-IsWellFormed :
      (n : Node S) (ms : List Message) → IsWellFormed n → IsWellFormed (take_messages n ms)
  unfolding take_messages
  take_messages-IsWellFormed n [] v = v
  take_messages-IsWellFormed n (m ∷ ms) v =
      take_messages-IsWellFormed (sort_by m.kind n m) ms (sort_by-IsWellFormed m.kind n m v)

  take_commands-IsWellFormed :
      (n : Node S) (cs : List Command) → IsWellFormed n → IsWellFormed (take_commands n cs)
  unfolding take_commands
  take_commands-IsWellFormed n [] v = v
  take_commands-IsWellFormed n (c ∷ cs) v = elim (dec_lt n.log_count max_log) [
    | no full ↦ let e : ltb n.log_count max_log ≡ false = ground arith in rw e v
    | yes free ↦
        let e : ltb n.log_count max_log ≡ true = ground arith in
        rw e (take_commands-IsWellFormed (append_own n c) cs (append_own-IsWellFormed n c free v))
  ]

  apply_committed-IsWellFormed : (n : Node S) → IsWellFormed n → IsWellFormed (apply_committed n)
  unfolding last_log_index
  apply_committed-IsWellFormed n v =
      let a = apply_committed-Applied n in
      record {
        has_log = rw (a.kept.log, a.kept.log_count, a.kept.snapshot) v.has_log;
        applied_low = omega (arith, a.last_applied, a.kept.snapshot, v.applied_low);
        applied_high =
            omega (
              arith, a.last_applied, a.kept.snapshot, a.kept.log_count, v.applied_high, v.committed,
            );
        committed = omega (arith, a.kept.committed, a.kept.snapshot, a.kept.log_count, v.committed);
      }

  compact_if_due-IsWellFormed :
      (n : Node S) (d : Disk) → IsWellFormed n → IsWellFormed (compact_if_due n d).0
  unfolding compact_if_due
  compact_if_due-IsWellFormed n d v = elim (Bool-cases (should_compact n)) [
    | inr not_due ↦ rw not_due v
    | inl due ↦ elim (do_compact-Compacted n d v) [
      | inl (le, same) ↦ rw (due, same) v
      | inr (le, c) ↦ rw due c.well_formed
    ]
  ]

  save_if_dirty-IsWellFormed :
      (n : Node S) (d : Disk) → IsWellFormed n → IsWellFormed (save_if_dirty n d).0
  unfolding save_if_dirty
  save_if_dirty-IsWellFormed n d v = SameLog-IsWellFormed n _ (ground arith) v

module _ {S T : Type 0} (tr : Transport T) where
  latch_inputs-IsWellFormed :
      (h : Host S T) → IsWellFormed h.node → IsWellFormed (latch_inputs tr h).node
  unfolding latch_inputs clear_pending
  latch_inputs-IsWellFormed h v =
      let n0 = clear_pending h.node in
      let (l1, ms) = tr.recv h.link max_queue in
      let (l2, cs) = tr.recv_commands l1 max_queue in
      let v1 = take_messages-IsWellFormed n0 ms (SameLog-IsWellFormed h.node n0 (ground arith) v) in
      elim (Bool-cases (not h.node.running)) [
        | inl stopped ↦ rw stopped (SameLog-IsWellFormed h.node _ (ground arith) v)
        | inr up ↦ elim (Bool-cases (is_leader (take_messages n0 ms))) [
          | inr other ↦ rw (up, other) v1
          | inl leads ↦ rw (up, leads) (take_commands-IsWellFormed _ cs v1)
        ]
      ]

  advance_if_leader :
      (n : Node S)
      → IsWellFormed n
      → IsWellFormed (if is_leader n then advance_commit_index n else n)
  advance_if_leader n v = elim (Bool-cases (is_leader n)) [
    | inl leads ↦ rw leads (advance_commit_index-IsWellFormed n v)
    | inr other ↦ rw other v
  ]

  dump_outputs-IsWellFormed :
      (h : Host S T) → IsWellFormed h.node → IsWellFormed (dump_outputs tr h).node
  unfolding dump_outputs
  dump_outputs-IsWellFormed h v =
      let n1 = if is_leader h.node then advance_commit_index h.node else h.node in
      let n2 = maybe_drive_membership (apply_committed n1) in
      let v2 =
        maybe_drive_membership-IsWellFormed _
          (apply_committed-IsWellFormed n1 (advance_if_leader h.node v)) in
      let (n3, d3) = compact_if_due n2 h.disk in
      let v3 = compact_if_due-IsWellFormed n2 h.disk v2 in
      elim (Bool-cases (not h.node.running)) [
        | inl stopped ↦ rw stopped (SameLog-IsWellFormed h.node _ (ground arith) v)
        | inr up ↦ rw up (
            SameLog-IsWellFormed (save_if_dirty n3 d3).0 _ (ground arith)
              (save_if_dirty-IsWellFormed n3 d3 v3))
      ]

  -- Over a whole tick, whatever messages and commands the transport delivers and whatever row the
  -- runtime fires, a well-formed node stays well-formed: the log keeps its shape, and the applied
  -- prefix and the commit index stay within it.
  pub tick-IsWellFormed :
      (r : Runtime S) (h : Host S T) (now : ℕ)
      → IsWellFormed h.node
      → IsWellFormed (tick tr r h now).node
  unfolding tick
  tick-IsWellFormed r h now v =
      let h1 = latch_inputs tr h in
      dump_outputs-IsWellFormed (record h1 { node = evaluate r h1.node now })
        (evaluate-IsWellFormed r h1.node now (latch_inputs-IsWellFormed h v))
