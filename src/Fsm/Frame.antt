-- ===== src/Fsm/Frame.antt =====
-- The parts of a node that sending, counting votes and setting timers leave alone.
use raft_rx.Prelude.{ℕ, ◌+◌, ◌≡◌, List, [], ◌∷◌, Text, arith, set}
use raft_rx.Types.{Node, Message}
use raft_rx.LogIndex.{last_log_index}
use raft_rx.Members.{record_vote}
use raft_rx.Outbox.{queue_message}
use raft_rx.Election.{
  handle_term_update, handle_vote_request, handle_vote_response, request_votes, start_candidacy,
  action_become_candidate, vote_request_to,
}
use raft_rx.Replication.{send_append_entries_to, send_to_each, broadcast_append_entries}
use raft_rx.Follower.Invariant.{IsWellFormed}
use raft_rx.Fsm.{reset_peers}

module _ {S : Type 0} where
  pub record KeepsCore (n n' : Node S) : Type 0 where
    pub log : n'.log ≡ n.log
    pub log_count : n'.log_count ≡ n.log_count
    pub snapshot : n'.snapshot_last_included_index ≡ n.snapshot_last_included_index
    pub applied : n'.last_applied ≡ n.last_applied
    pub committed : n'.commit_index ≡ n.commit_index
    pub state : n'.state ≡ n.state

  -- Of these also the term and the vote.
  pub record KeepsTerm (n n' : Node S) : Type 0 where
    pub core : KeepsCore n n'
    pub term : n'.current_term ≡ n.current_term
    pub vote : n'.voted_for ≡ n.voted_for

  KeepsTerm-trans : (n n' n'' : Node S) → KeepsTerm n n' → KeepsTerm n' n'' → KeepsTerm n n''
  KeepsTerm-trans n n' n'' a b = ground arith

  pub KeepsCore-IsWellFormed : (n n' : Node S) → KeepsCore n n' → IsWellFormed n → IsWellFormed n'
  unfolding last_log_index
  KeepsCore-IsWellFormed n n' k v = ground (arith, v.has_log)

  queue_message-KeepsTerm : (n : Node S) (m : Message) → KeepsTerm n (queue_message n m)
  unfolding queue_message
  queue_message-KeepsTerm n m = ground arith

  send_to_each-KeepsTerm : (n : Node S) (ps : List Text) → KeepsTerm n (send_to_each n ps)
  unfolding send_to_each send_append_entries_to
  send_to_each-KeepsTerm n [] = ground arith
  send_to_each-KeepsTerm n (p ∷ ps) =
      KeepsTerm-trans n (send_append_entries_to n p) _ (queue_message-KeepsTerm n _)
        (send_to_each-KeepsTerm (send_append_entries_to n p) ps)

  pub broadcast-KeepsTerm : (n : Node S) → KeepsTerm n (broadcast_append_entries n)
  unfolding broadcast_append_entries
  broadcast-KeepsTerm n = send_to_each-KeepsTerm n n.config.peers

  pub reset_peers-KeepsTerm :
      (n : Node S) (i : ℕ) (ps : List Text) → KeepsTerm n (reset_peers n i ps)
  unfolding reset_peers
  reset_peers-KeepsTerm n i [] = ground arith
  reset_peers-KeepsTerm n i (p ∷ ps) =
      let next = record n {
        next_index = set n.next_index i _;
        match_index = set n.match_index i 0;
      } in
      KeepsTerm-trans n next _ (ground arith) (reset_peers-KeepsTerm next (i + 1) ps)

  pub record_vote-KeepsTerm : (n : Node S) (p : Text) → KeepsTerm n (record_vote n p)
  unfolding record_vote
  record_vote-KeepsTerm n p = ground arith

  handle_term_update-KeepsCore : (n : Node S) (m : Message) → KeepsCore n (handle_term_update n m)
  unfolding handle_term_update
  handle_term_update-KeepsCore n m = ground arith

  pub handle_vote_request-KeepsCore :
      (n : Node S) (m : Message) (now : ℕ) → KeepsCore n (handle_vote_request n m now)
  unfolding handle_vote_request queue_message
  handle_vote_request-KeepsCore n m now = ground (arith, handle_term_update-KeepsCore n m)

  pub handle_vote_response-KeepsCore :
      (n : Node S) (m : Message) → KeepsCore n (handle_vote_response n m)
  unfolding handle_vote_response
  handle_vote_response-KeepsCore n m = ground (
    arith,
    handle_term_update-KeepsCore n m,
    record_vote-KeepsTerm (handle_term_update n m) m.source,
  )

  request_votes-KeepsTerm : (n : Node S) (ps : List Text) → KeepsTerm n (request_votes n ps)
  unfolding request_votes
  request_votes-KeepsTerm n [] = ground arith
  request_votes-KeepsTerm n (p ∷ ps) =
      KeepsTerm-trans n (queue_message n (vote_request_to n p)) _ (queue_message-KeepsTerm n _)
        (request_votes-KeepsTerm (queue_message n (vote_request_to n p)) ps)

  start_candidacy-KeepsCore :
      (n : Node S) (now : ℕ)
      → KeepsCore n (start_candidacy n now)
        × ((start_candidacy n now).current_term ≡ n.current_term + 1)
  unfolding start_candidacy record_vote
  start_candidacy-KeepsCore n now = ground arith

  pub action_become_candidate-KeepsCore :
      (n : Node S) (now : ℕ)
      → KeepsCore n (action_become_candidate n now)
        × ((action_become_candidate n now).current_term ≡ n.current_term + 1)
  unfolding action_become_candidate
  action_become_candidate-KeepsCore n now = ground (
    arith,
    start_candidacy-KeepsCore n now,
    request_votes-KeepsTerm (start_candidacy n now) (start_candidacy n now).config.peers,
  )
