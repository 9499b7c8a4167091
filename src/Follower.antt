-- ===== src/Follower.antt =====
-- A follower's log (c/src/raft.c): `node_append_entries_from_leader` and
-- `node_handle_append_entries`. The clock is an argument, `now`.
pub mod Steps
pub mod Invariant
pub mod Matching
use Prim.Native.Nat.{min}
use raft_rx.Prelude.{
  ℕ, ◌+◌, Bool, true, false, not, ◌&&◌, ◌||◌, Option, none, some, List, [], ◌∷◌, Text, same,
  is_empty, if◌then◌else◌, ltb, leb, ◌==◌, length, set,
}
use raft_rx.Types.{
  Node, Message, LogEntry, append_entries_response, new_message, max_id, max_log, copy,
}
use raft_rx.LogIndex.{last_log_index, physical_index, has_log_index, term_at_index, leader_at_index}
use raft_rx.Timeout.{next_election_timeout}
use raft_rx.Outbox.{queue_message}
use raft_rx.Election.{handle_term_update}

module _ {S : Type 0} where
  -- The log may be extended after the previous entry that the message names: the early returns.
  unfoldable pub fits_after : Node S → Message → Bool
  fits_after n m =
      not (ltb m.prev_log_index n.snapshot_last_included_index)
      && (not (ltb (last_log_index n) m.prev_log_index)
          && (not (
                ltb 0 m.prev_log_index && not (term_at_index n m.prev_log_index == m.prev_log_term))
              && not (
                  ltb 0 m.prev_log_index
                  && (not (is_empty m.prev_log_leader_id)
                      && (has_log_index n m.prev_log_index
                          && not
                              (same (leader_at_index n m.prev_log_index) m.prev_log_leader_id))))))

  pub conflicts : Node S → LogEntry → Bool
  conflicts n e =
      not (term_at_index n e.index == e.term)
      || not (is_empty e.leader_id) && not (same (leader_at_index n e.index) e.leader_id)

  unfoldable pub append_entry : Node S → LogEntry → Node S
  append_entry n e =
      if e.index == last_log_index n + 1 && ltb n.log_count max_log
      then record n {
        log = set n.log n.log_count e;
        log_count = n.log_count + 1;
        persist_dirty = true;
      }
      else n

  unfoldable pub truncate_at : Node S → ℕ → Node S
  truncate_at n index = record n { log_count = physical_index n index; persist_dirty = true }

  -- One round of the loop over the entries, with the flag `rebuild_applied_state`.
  unfoldable pub take_entry : Node S → Bool → LogEntry → Node S × Bool
  take_entry n rebuild e =
      if leb e.index n.snapshot_last_included_index
      then (n, rebuild)
      else (if has_log_index n e.index
          then (if conflicts n e
              then (append_entry (truncate_at n e.index) e, leb e.index n.last_applied || rebuild)
              else (n, rebuild))
          else (append_entry n e, rebuild))

  unfoldable pub take_entries : Node S → Bool → List LogEntry → Node S × Bool
  take_entries n rebuild [] = (n, rebuild)
  take_entries n rebuild (e ∷ es) =
      let (n', rebuild') = take_entry n rebuild e in take_entries n' rebuild' es

  -- The state of the application is built anew, from the snapshot if there is one.
  unfoldable pub rebuild_user : Node S → S
  rebuild_user n =
      if ltb 0 n.snapshot_last_included_index && ltb 0 (length n.snapshot_buf)
      then (elim n.application.restore_snapshot [
        | none ↦ n.user
        | some f ↦ f n.user n.snapshot_buf
      ])
      else (elim n.application.reload [ none ↦ n.user | some f ↦ f n.user ])

  unfoldable pub settle_commit : Node S → Bool → ℕ → Node S
  settle_commit n rebuild leader_commit =
      if rebuild
      then record n {
        commit_index = min leader_commit (last_log_index n);
        user = rebuild_user n;
        last_applied = n.snapshot_last_included_index;
        persist_dirty = true;
      }
      else (if ltb n.commit_index leader_commit
          then record n {
            commit_index = min leader_commit (last_log_index n);
            persist_dirty = true;
          }
          else (if ltb (last_log_index n) n.commit_index
              then record n { commit_index = last_log_index n; persist_dirty = true }
              else n))

  unfoldable pub append_entries_from_leader : Node S → Message → Node S × Bool
  append_entries_from_leader n m =
      if fits_after n m
      then (let (n', rebuild) = take_entries n false m.entries in
          (settle_commit n' rebuild m.leader_commit, true))
      else (n, false)

  append_response : Node S → Message → Bool → Message
  append_response n m success = record (new_message append_entries_response) {
    term = n.current_term;
    success = success;
    match_index = last_log_index n;
    source = copy max_id n.config.node_id;
    target = copy max_id m.source;
  }

  unfoldable pub handle_append_entries : Node S → Message → ℕ → Node S
  unfolding append_response
  handle_append_entries n message now =
      let n1 = handle_term_update n message in
      let n2 = record n1 {
        leader_id = copy max_id message.source;
        election_deadline_ms = now + next_election_timeout n1 now;
      } in
      let (n3, success) =
        if message.term == n1.current_term
        then append_entries_from_leader n2 message
        else (n1, false) in
      queue_message n3 (append_response n3 message success)
