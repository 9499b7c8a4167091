-- ===== src/Membership/Safe.antt =====
-- The log of a leader across the entries that it adds itself (c/src/raft.c):
-- `node_append_internal_command` and `node_maybe_drive_membership`.
use raft_rx.Prelude.{◌+◌, ◌<◌, true, arith, refl, set}
use raft_rx.Types.{Node, Command, max_log}
use raft_rx.LogIndex.{last_log_index}
use raft_rx.Membership.Drive.{maybe_drive_membership_keeps}
use raft_rx.Replication.Safe.{SameLog-IsWellFormed}
use raft_rx.Membership.{own_entry, append_own, maybe_drive_membership}
use raft_rx.Follower.Invariant.{IsWellFormed, LogShape-set}
use raft_rx.Fsm.Frame.{KeepsCore-IsWellFormed, broadcast-KeepsTerm}

module _ {S : Type 0} where
  pub append_own-IsWellFormed :
      (n : Node S) (c : Command)
      → n.log_count < max_log
      → IsWellFormed n
      → IsWellFormed (append_own n c)
  unfolding append_own own_entry last_log_index
  append_own-IsWellFormed n c free v =
      let n1 = record n {
        log = set n.log n.log_count (own_entry n c);
        log_count = n.log_count + 1;
        persist_dirty = true;
      } in
      let snap = n.snapshot_last_included_index in
      KeepsCore-IsWellFormed n1 (append_own n c) (broadcast-KeepsTerm n1).core (record {
        has_log = LogShape-set n.log n.log_count snap (own_entry n c) v.has_log refl free;
        applied_low = v.applied_low;
        applied_high = omega (arith, v.applied_high);
        committed = omega (arith, v.committed);
      })

  pub maybe_drive_membership-IsWellFormed :
      (n : Node S) → IsWellFormed n → IsWellFormed (maybe_drive_membership n)
  maybe_drive_membership-IsWellFormed n v =
      maybe_drive_membership_keeps IsWellFormed append_own-IsWellFormed
        (λ m m' e. SameLog-IsWellFormed m m' (ground arith)) n v
