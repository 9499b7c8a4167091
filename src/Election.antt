-- ===== src/Election.antt =====
-- Terms and votes (c/src/raft.c): `node_handle_term_update`, `node_candidate_is_up_to_date`,
-- `node_handle_vote_request`, `node_handle_vote_response` and the actions that start and give up a
-- candidacy. The clock is an argument, `now`.
pub mod Votes
use raft_rx.Prelude.{
  ℕ, ◌+◌, Bool, true, false, not, ◌&&◌, ◌||◌, List, [], ◌∷◌, Text, same, is_empty, if◌then◌else◌,
  ltb, leb, ◌==◌,
}
use raft_rx.Types.{
  Node, Message, Role, candidate, request_vote, request_vote_response, new_message, max_id, copy,
}
use raft_rx.LogIndex.{last_log_index, last_log_term}
use raft_rx.Members.{self_is_member, record_vote}
use raft_rx.Timeout.{next_election_timeout}
use raft_rx.Outbox.{queue_message}

abbrev pub is_candidate_role : Role → Bool
is_candidate_role candidate = true
is_candidate_role _ = false

module _ {S : Type 0} where
  unfoldable pub handle_term_update : Node S → Message → Node S
  handle_term_update n m =
      if ltb n.current_term m.term
      then record n { current_term = m.term; voted_for = []; leader_id = []; persist_dirty = true }
      else n

  unfoldable pub candidate_is_up_to_date : Node S → Message → Bool
  candidate_is_up_to_date n m =
      if m.last_log_term == last_log_term n
      then leb (last_log_index n) m.last_log_index
      else ltb (last_log_term n) m.last_log_term

  -- The two tests of `node_handle_vote_request`, after the term update.
  grants_vote : Node S → Message → Bool
  grants_vote n m =
      (self_is_member n && m.term == n.current_term)
      && ((is_empty n.voted_for || same n.voted_for m.source) && candidate_is_up_to_date n m)

  grant_vote : Node S → Message → ℕ → Node S
  grant_vote n m now = record n {
    voted_for = copy max_id m.source;
    election_deadline_ms = now + next_election_timeout n now;
    persist_dirty = true;
  }

  vote_response : Node S → Message → Bool → Message
  vote_response n m granted = record (new_message request_vote_response) {
    term = n.current_term;
    granted = granted;
    source = copy max_id n.config.node_id;
    target = copy max_id m.source;
  }

  unfoldable pub handle_vote_request : Node S → Message → ℕ → Node S
  unfolding grant_vote vote_response grants_vote
  handle_vote_request n message now =
      let n1 = handle_term_update n message in
      let granted = grants_vote n1 message in
      let n2 = if granted then grant_vote n1 message now else n1 in
      queue_message n2 (vote_response n2 message granted)

  unfoldable pub handle_vote_response : Node S → Message → Node S
  handle_vote_response n message =
      let n1 = handle_term_update n message in
      if not (self_is_member n1)
        || (not (is_candidate_role n1.state) || not (message.term == n1.current_term))
      then n1
      else (if message.granted then record_vote n1 message.source else n1)

  pub vote_request_to : Node S → Text → Message
  vote_request_to n peer = record (new_message request_vote) {
    term = n.current_term;
    last_log_index = last_log_index n;
    last_log_term = last_log_term n;
    source = copy max_id n.config.node_id;
    target = copy max_id peer;
  }

  unfoldable pub request_votes : Node S → List Text → Node S
  unfolding vote_request_to
  request_votes n [] = n
  request_votes n (p ∷ ps) = request_votes (queue_message n (vote_request_to n p)) ps

  unfoldable pub start_candidacy : Node S → ℕ → Node S
  start_candidacy n now =
      let n1 = record n {
        current_term = n.current_term + 1;
        voted_for = copy max_id n.config.node_id;
        votes_received = [];
      } in
      let n2 = record_vote n1 n.config.node_id in
      record n2 {
        leader_id = [];
        persist_dirty = true;
        election_deadline_ms = now + next_election_timeout n2 now;
      }

  unfoldable pub action_become_candidate : Node S → ℕ → Node S
  unfolding start_candidacy request_votes
  action_become_candidate n now = let n1 = start_candidacy n now in request_votes n1 n1.config.peers

  unfoldable pub action_back_to_follower_due_to_timeout : Node S → ℕ → Node S
  action_back_to_follower_due_to_timeout n now = record n {
    votes_received = [];
    leader_id = [];
    election_deadline_ms = now + next_election_timeout n now;
  }
