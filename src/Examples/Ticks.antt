-- ===== src/Examples/Ticks.antt =====
-- A whole tick of a node at concrete inputs, and its restart from the disk.
use raft_rx.Prelude.{
  ℕ, zero, suc, ◌<◌, ◌⊎◌, ◌≡◌, ◌≢◌, inl, inr, none, true, List, [], ◌∷◌, arith, refl, codes,
  Text-discrete, ℕ_discrete,
}
use raft_rx.Types.{Message, copy}
use raft_rx.LogIndex.{last_log_index, last_log_term}
use raft_rx.Election.Votes.{KeepsVote}
use raft_rx.Storage.{no_disk, node_save, node_load}
use raft_rx.Storage.MetaFile.Whole.{IsSaveable}
use raft_rx.Storage.MetaFile.{is_space}
use raft_rx.Storage.MetaFile.Words.{AllWords, IsWord}
use raft_rx.Fsm.Marks.{SameFiles}
use raft_rx.Storage.LogFile.Entries.{IsPrintable}
use raft_rx.Storage.LogFile.Loading.{OfFirst}
use raft_rx.Storage.Restart.{Restored, IsStorable, node_load-node_save}
use raft_rx.Follower.Invariant.{IsWellFormed}
use raft_rx.Fsm.{
  evaluate, fire, guard_timeout_expired, guard_has_append_entries, guard_has_vote_request,
  action_handle_vote_request,
}
use raft_rx.Election.{handle_vote_request, handle_term_update, candidate_is_up_to_date}
use raft_rx.Members.{self_is_member, member_list_contains, is_leader}
use raft_rx.Outbox.{queue_message}
use raft_rx.Compaction.{should_compact, compactible_index}
use raft_rx.Membership.{maybe_drive_membership}
use raft_rx.Apply.{apply_committed, apply_loop}
use raft_rx.Phases.{Host, Transport, tick, latch_inputs, dump_outputs, take_messages, clear_pending}
use raft_rx.Phases.Safe.{tick-IsWellFormed}
use raft_rx.Phases.Votes.{tick-KeepsVote}
use raft_rx.Phases.Recovery.{tick-Restored}
use raft_rx.Examples.FirstRow.{first_row}
use raft_rx.Examples.Nodes.{
  State, entry_of, two_entries, idle_node, leader_node, vote_request_message,
  idle_node-IsWellFormed, leader_node-IsWellFormed,
}

-- A network that keeps what was sent and delivers one vote request.
abbrev one_request : Transport (List Message)
one_request = record {
  send = λ sent m. (m ∷ sent, true);
  recv = λ sent capacity. (sent, vote_request_message ∷ []);
  submit_command = λ sent c. (sent, true);
  recv_commands = λ sent capacity. (sent, []);
  set_enabled = none;
}

abbrev asked_host : Host State (List Message)
asked_host = record { node = idle_node; link = []; disk = no_disk }

tick-IsWellFormed_example : IsWellFormed (tick one_request first_row asked_host 0).node
tick-IsWellFormed_example =
    tick-IsWellFormed one_request first_row asked_host 0 idle_node-IsWellFormed

tick-KeepsVote_example : KeepsVote idle_node (tick one_request first_row asked_host 0).node
tick-KeepsVote_example = tick-KeepsVote one_request first_row asked_host 0 (omega arith, tt)

members-AllWords : AllWords (codes "n1" ∷ codes "n2" ∷ codes "n3" ∷ [])
unfolding is_space
members-AllWords = (
  (omega arith, refl, (refl, (refl, tt))),
  ((omega arith, refl, (refl, (refl, tt))), ((omega arith, refl, (refl, (refl, tt))), tt)),
)

leader_node-IsSaveable : IsSaveable leader_node
leader_node-IsSaveable = record {
  term = omega arith;
  threshold = omega arith;
  commit = omega arith;
  snapshot_index = omega arith;
  snapshot_term = omega arith;
  configuration = omega arith;
  vote = inl refl;
  old_room = omega arith;
  old_words = members-AllWords;
  new_room = omega arith;
  new_words = tt;
}

entry_of-IsPrintable : (i : ℕ) → i < 10 → IsPrintable (entry_of i 1)
entry_of-IsPrintable i lt = record {
  index = omega arith;
  term = omega arith;
  leader_id = ((omega arith, (omega arith, (omega arith, tt))), (omega arith, (omega arith, tt)));
  op = (
    (omega arith, (omega arith, (omega arith, (omega arith, tt)))),
    (omega arith, (omega arith, (omega arith, tt))),
  );
  key = ((omega arith, (omega arith, tt)), (omega arith, tt));
  value = (omega arith, (omega arith, tt));
}

two_entries-IsPrintable : OfFirst IsPrintable 2 two_entries
two_entries-IsPrintable zero lt = entry_of-IsPrintable 1 (omega arith)
two_entries-IsPrintable (suc zero) lt = entry_of-IsPrintable 2 (omega arith)
two_entries-IsPrintable (suc (suc i)) lt = absurd (omega arith)

leader_node-IsStorable : IsStorable leader_node
leader_node-IsStorable = record {
  meta = leader_node-IsSaveable;
  log = two_entries-IsPrintable;
  well_formed = leader_node-IsWellFormed;
}

node_load-node_save_example :
    Restored leader_node (node_load idle_node (node_save leader_node no_disk))
    × IsWellFormed (node_load idle_node (node_save leader_node no_disk))
node_load-node_save_example =
    node_load-node_save idle_node leader_node no_disk leader_node-IsStorable (inl refl)

abbrev asked_after : Host State (List Message)
asked_after = tick one_request first_row asked_host 0

-- It grants its vote.
asked_fields :
    let n = asked_after.node in
    (n.current_term ≡ 2)
    × (n.voted_for ≡ codes "n3")
    × (n.compaction_threshold ≡ 1)
    × (n.commit_index ≡ 0)
    × (n.snapshot_last_included_index ≡ 0)
    × (n.snapshot_last_included_term ≡ 0)
    × (n.config_state ≡ idle_node.config_state)
    × (n.log_count ≡ 0)
unfolding tick latch_inputs take_messages clear_pending dump_outputs evaluate fire is_leader
    guard_has_append_entries guard_has_vote_request action_handle_vote_request guard_timeout_expired
    handle_vote_request handle_term_update self_is_member member_list_contains Text-discrete
    ℕ_discrete queue_message candidate_is_up_to_date last_log_index last_log_term copy
    should_compact compactible_index maybe_drive_membership apply_committed apply_loop
asked_fields = (refl, refl, refl, refl, refl, refl, refl, refl)

asked_vote : IsWord (codes "n3") × (codes "n3" ≢ codes "-")
unfolding is_space
asked_vote = ((omega arith, refl, (refl, (refl, tt))), λ e. cc)

asked-IsSaveable : IsSaveable asked_after.node
asked-IsSaveable =
    let (term, vote, threshold, commit, index, snapshot_term, configuration, count) =
      asked_fields in
    record {
      term = omega (arith, term);
      threshold = omega (arith, threshold);
      commit = omega (arith, commit);
      snapshot_index = omega (arith, index);
      snapshot_term = omega (arith, snapshot_term);
      configuration = rw configuration (omega arith);
      vote = rw vote (inr asked_vote);
      old_room = rw configuration (omega arith);
      old_words = rw configuration members-AllWords;
      new_room = rw configuration (omega arith);
      new_words = rw configuration tt;
    }

tick-Restored_example :
    (Restored asked_after.node (node_load idle_node asked_after.disk)
      × IsWellFormed (node_load idle_node asked_after.disk))
    ⊎ (SameFiles idle_node asked_after.node × (asked_after.disk ≡ no_disk))
tick-Restored_example =
    tick-Restored one_request first_row asked_host 0 idle_node refl idle_node-IsWellFormed
      asked-IsSaveable (λ i lt. absurd (omega (arith, asked_fields))) (inl asked_fields.4)
