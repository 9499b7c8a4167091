-- ===== src/Fsm.antt =====
-- The role machine of a node (c/src/raft.c): guards, actions and the transition table. The clock is
-- an argument, `now`. Which enabled row fires is up to the rxnet runtime: a parameter, `Runtime`.
pub mod Rows
pub mod Frame
pub mod Safety
pub mod Marks
pub mod Evaluates
pub mod Votes
use mathlib.Core.List.{Memᴰ}
use raft_rx.Prelude.{
  ℕ, ◌+◌, ◌≡◌, Bool, true, false, not, ◌&&◌, Option, none, some, List, [], ◌∷◌, Text, if◌then◌else◌,
  ltb, leb, length, get_or, set,
}
use raft_rx.Types.{Node, Message, Role, follower, candidate, leader, max_id, copy}
use raft_rx.LogIndex.{last_log_index, log_base_index}
use raft_rx.Members.{self_is_member, has_vote_quorum, configuration_is_joint}
use raft_rx.Election.{
  handle_vote_request, handle_vote_response, action_become_candidate,
  action_back_to_follower_due_to_timeout,
}
use raft_rx.Replication.{broadcast_append_entries}
use raft_rx.Follower.{handle_append_entries}

abbrev is_pending : List Message → Bool
is_pending [] = false
is_pending (m ∷ ms) = true

first_term_above : ℕ → List Message → Bool
first_term_above term [] = false
first_term_above term (m ∷ ms) = ltb term m.term

module _ {S : Type 0} where
  unfoldable pub guard_timeout_expired : Node S → ℕ → Bool
  guard_timeout_expired n now = n.running && (self_is_member n && leb n.election_deadline_ms now)

  unfoldable pub guard_has_append_entries : Node S → ℕ → Bool
  guard_has_append_entries n now = is_pending n.pending_append_entries

  unfoldable pub guard_has_vote_request : Node S → ℕ → Bool
  guard_has_vote_request n now = is_pending n.pending_vote_requests

  unfoldable pub guard_has_higher_term_vote_request : Node S → ℕ → Bool
  unfolding first_term_above
  guard_has_higher_term_vote_request n now = first_term_above n.current_term n.pending_vote_requests

  unfoldable pub guard_has_vote : Node S → ℕ → Bool
  guard_has_vote n now = is_pending n.pending_votes

  unfoldable pub guard_received_majority_votes : Node S → ℕ → Bool
  guard_received_majority_votes n now =
      if has_vote_quorum n n.config_state.old_members
      then (if configuration_is_joint n.config_state
          then has_vote_quorum n n.config_state.new_members
          else true)
      else false

  unfoldable pub guard_time_for_heartbeat : Node S → ℕ → Bool
  guard_time_for_heartbeat n now = leb n.heartbeat_deadline_ms now

  -- The first pending message is taken out before it is handled.
  pub action_handle_append_entries : Node S → ℕ → Node S
  action_handle_append_entries n now = elim n.pending_append_entries [
    | [] ↦ n
    | m ∷ ms ↦ handle_append_entries (record n { pending_append_entries = ms }) m now
  ]

  unfoldable pub action_handle_vote_request : Node S → ℕ → Node S
  action_handle_vote_request n now = elim n.pending_vote_requests [
    | [] ↦ n
    | m ∷ ms ↦ handle_vote_request (record n { pending_vote_requests = ms }) m now
  ]

  pub action_ignore_vote : Node S → ℕ → Node S
  action_ignore_vote n now = elim n.pending_votes [
    | [] ↦ n
    | m ∷ ms ↦ record n { pending_votes = ms }
  ]

  -- The loop of `action_become_leader` over the positions of the peers.
  unfoldable pub reset_peers : Node S → ℕ → List Text → Node S
  reset_peers n i [] = n
  reset_peers n i (p ∷ ps) =
      let next = last_log_index n + 1 in
      let start = if ltb next (log_base_index n) then log_base_index n else next in
      reset_peers
        (record n { next_index = set n.next_index i start; match_index = set n.match_index i 0 })
        (i + 1) ps

  unfoldable pub action_become_leader : Node S → ℕ → Node S
  action_become_leader n now =
      let n1 = record n { leader_id = copy max_id n.config.node_id } in
      let n2 = broadcast_append_entries (reset_peers n1 0 n1.config.peers) in
      record n2 { heartbeat_deadline_ms = now + n2.config.heartbeat_interval_ms }

  pub action_handle_vote : Node S → ℕ → Node S
  action_handle_vote n now = elim n.pending_votes [
    | [] ↦ n
    | m ∷ ms ↦ handle_vote_response (record n { pending_votes = ms }) m
  ]

  pub action_ignore_vote_request : Node S → ℕ → Node S
  action_ignore_vote_request n now = elim n.pending_vote_requests [
    | [] ↦ n
    | m ∷ ms ↦ record n { pending_vote_requests = ms }
  ]

  pub action_send_heartbeat : Node S → ℕ → Node S
  action_send_heartbeat n now =
      let n1 = broadcast_append_entries n in
      record n1 { heartbeat_deadline_ms = now + n1.config.heartbeat_interval_ms }

-- A row of the table.
pub record Transition (S : Type 0) : Type 0 where
  pub from : Role
  pub to : Role
  pub guard : Node S → ℕ → Bool
  pub action : Node S → ℕ → Node S

module _ {S : Type 0} where
  abbrev row : Role → Role → (Node S → ℕ → Bool) → (Node S → ℕ → Node S) → Transition S
  row from to guard action = record { from = from; to = to; guard = guard; action = action }

  abbrev pub transitions : List (Transition S)
  transitions =
      row follower candidate guard_timeout_expired action_become_candidate
      ∷ row follower follower guard_has_append_entries action_handle_append_entries
      ∷ row follower follower guard_has_vote_request action_handle_vote_request
      ∷ row follower follower guard_has_vote action_ignore_vote
      ∷ row candidate follower guard_timeout_expired action_back_to_follower_due_to_timeout
      ∷ row candidate leader guard_received_majority_votes action_become_leader
      ∷ row candidate follower guard_has_append_entries action_handle_append_entries
      ∷ row candidate follower guard_has_higher_term_vote_request action_handle_vote_request
      ∷ row candidate candidate guard_has_vote_request action_handle_vote_request
      ∷ row candidate candidate guard_has_vote action_handle_vote
      ∷ row leader follower guard_has_append_entries action_handle_append_entries
      ∷ row leader follower guard_has_higher_term_vote_request action_handle_vote_request
      ∷ row leader leader guard_has_vote_request action_ignore_vote_request
      ∷ row leader leader guard_has_vote action_ignore_vote
      ∷ row leader leader guard_time_for_heartbeat action_send_heartbeat
      ∷ []

-- What the program relies on of rxnet: in one evaluation it fires at most one row, which leaves the
-- current state and whose guard holds.
pub record Runtime (S : Type 0) : Type 0 where
  pub select : Node S → ℕ → Option (Transition S)
  pub select_enabled :
      (n : Node S) (now : ℕ) (t : Transition S)
      → select n now ≡ some t
      → Memᴰ t transitions × (t.from ≡ n.state) × (t.guard n now ≡ true)

module _ {S : Type 0} where
  -- The new state is published, and then the action runs.
  unfoldable pub fire : Transition S → Node S → ℕ → Node S
  fire t n now = t.action (record n { state = t.to }) now

  unfoldable pub evaluate : Runtime S → Node S → ℕ → Node S
  evaluate r n now = elim (r.select n now) [ none ↦ n | some t ↦ fire t n now ]
