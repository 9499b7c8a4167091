-- ===== src/Examples/Roles.antt =====
-- The role machine, elections and the commit index at concrete nodes.
use raft_rx.Codec.{decode_member_list}
use raft_rx.Membership.Once.{apply_command-config, apply_command-stops}
use raft_rx.Membership.{
  apply_command, apply_internal_command, is_internal, set_maxlog_op, enter_joint_op, leave_joint_op,
}
use raft_rx.Outbox.{queue_message}
use raft_rx.Prelude.{
  ◌≤◌, ◌<◌, ◌≡◌, true, [], ◌∷◌, codes, arith, refl, Text-discrete, ℕ_discrete, ◌⊎◌, false, greater,
}
use raft_rx.Types.{
  Message, leader, append_entries_response, new_message, Command, follower, Node, copy,
}
use raft_rx.LogIndex.{last_log_index}
use raft_rx.Members.{
  has_vote_quorum, configuration_is_joint, member_list_contains, member_majority, tally, peer_index,
  index_of, self_is_member, refresh_peers, configuration_set_stable, normalize_members, collect,
  peers_of, sort_from, sink,
}
use raft_rx.Members.Quorum.{Shared, has_vote_quorum-Shared}
use raft_rx.Timeout.{next_election_timeout, next_election_timeout_bounds}
use raft_rx.Election.Votes.{KeepsVote}
use raft_rx.Replication.{
  has_replicated, is_committed_under_current_configuration, advance_commit_index,
  handle_append_entries_response, replicated_on_members, broadcast_append_entries,
  send_append_entries_to,
}
use raft_rx.Replication.Commit.{Advanced, advance_commit_index-Advanced, committed-meets-votes}
use raft_rx.Replication.Terms.{handle_append_entries_response-stays_leader}
use raft_rx.Follower.Invariant.{IsWellFormed}
use raft_rx.Fsm.{
  evaluate, fire, guard_timeout_expired, guard_received_majority_votes, action_become_leader,
  reset_peers,
}
use raft_rx.Fsm.Safety.{evaluate-IsWellFormed}
use raft_rx.Fsm.Votes.{evaluate-KeepsVote, evaluate-elected}
use raft_rx.Examples.FirstRow.{first_row}
use raft_rx.Examples.Nodes.{
  idle_node, leader_node, candidate_node, voter_node, leader_node-IsWellFormed, State,
}

evaluate-KeepsVote_example : KeepsVote voter_node (evaluate first_row voter_node 0)
evaluate-KeepsVote_example = evaluate-KeepsVote first_row voter_node 0 (omega arith, tt)

evaluate-elected_example :
    (has_vote_quorum candidate_node candidate_node.config_state.old_members ≡ true)
    × (configuration_is_joint candidate_node.config_state ≡ true
        → has_vote_quorum candidate_node candidate_node.config_state.new_members ≡ true)
    × ((evaluate first_row candidate_node 0).current_term ≡ candidate_node.current_term)
unfolding evaluate fire guard_timeout_expired guard_received_majority_votes action_become_leader
    has_vote_quorum tally member_list_contains member_majority configuration_is_joint Text-discrete
    ℕ_discrete self_is_member broadcast_append_entries reset_peers send_append_entries_to
    queue_message
evaluate-elected_example = evaluate-elected first_row candidate_node 0 (λ h. cc) refl

evaluate-IsWellFormed_example : IsWellFormed (evaluate first_row leader_node 0)
evaluate-IsWellFormed_example =
    evaluate-IsWellFormed first_row leader_node 0 leader_node-IsWellFormed

has_vote_quorum-Shared_example :
    Shared
      (member_list_contains candidate_node.votes_received)
      (member_list_contains leader_node.votes_received)
      (codes "n1" ∷ codes "n2" ∷ codes "n3" ∷ [])
unfolding has_vote_quorum tally member_list_contains member_majority Text-discrete ℕ_discrete
has_vote_quorum-Shared_example =
    has_vote_quorum-Shared candidate_node leader_node (codes "n1" ∷ codes "n2" ∷ codes "n3" ∷ [])
      refl refl

advance_commit_index-Advanced_example :
    Advanced leader_node (last_log_index leader_node) (advance_commit_index leader_node)
unfolding last_log_index
advance_commit_index-Advanced_example = advance_commit_index-Advanced leader_node (omega arith)

committed-meets-votes_example :
    Shared
      (has_replicated leader_node 2)
      (member_list_contains candidate_node.votes_received)
      leader_node.config_state.old_members
    × (configuration_is_joint leader_node.config_state ≡ true
        → has_vote_quorum candidate_node leader_node.config_state.new_members ≡ true
        → Shared
            (has_replicated leader_node 2)
            (member_list_contains candidate_node.votes_received)
            leader_node.config_state.new_members)
unfolding is_committed_under_current_configuration has_vote_quorum tally member_list_contains
    member_majority configuration_is_joint replicated_on_members has_replicated peer_index index_of
    last_log_index Text-discrete ℕ_discrete
committed-meets-votes_example = committed-meets-votes leader_node candidate_node 2 refl refl

next_election_timeout_bounds_example :
    (150 ≤ next_election_timeout idle_node 100)
    × (0 < 150 → next_election_timeout idle_node 100 < 300)
next_election_timeout_bounds_example = next_election_timeout_bounds idle_node 100

abbrev late_response : Message
late_response = record (new_message append_entries_response) { term = 7; source = codes "n2" }

handle_append_entries_response-stays_leader_example :
    let n' = handle_append_entries_response leader_node late_response in
    (n'.state ≡ leader)
    × (n'.current_term ≡ 7)
    × (n'.votes_received ≡ leader_node.votes_received)
    × (n'.voted_for ≡ [])
handle_append_entries_response-stays_leader_example =
    handle_append_entries_response-stays_leader leader_node late_response refl (omega arith)

-- The second entry takes "n1" out of the cluster.
abbrev leave_command : Command
leave_command = record { op = codes "cluster.leave_joint"; key = []; value = codes "n2,n3" }

abbrev leaving_node : Node State
leaving_node = record leader_node { last_applied = 2; commit_index = 2 }

apply_command-config_example :
    let n' = apply_command leaving_node leave_command in
    (n'.config_state ≡ leaving_node.config_state) ⊎ ((0 < 2) × (n'.config_state.index ≡ 2))
apply_command-config_example = apply_command-config leaving_node leave_command

apply_command-stops_example :
    let n' = apply_command leaving_node leave_command in
    (self_is_member leaving_node ≡ true) × (self_is_member n' ≡ false) × (n'.state ≡ follower)
unfolding apply_command apply_internal_command is_internal sort_from sink greater set_maxlog_op
    enter_joint_op leave_joint_op decode_member_list refresh_peers self_is_member
    member_list_contains configuration_set_stable normalize_members collect copy peers_of
    Text-discrete ℕ_discrete
apply_command-stops_example = apply_command-stops leaving_node leave_command refl refl
