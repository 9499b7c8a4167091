-- ===== src/Election/Votes.antt =====
-- Votes across the handler of a vote request (c/src/raft.c, `node_handle_vote_request`).
use raft_rx.Prelude.{ℕ, ◌≤◌, ◌≡◌, ◌≢◌, [], arith}
use raft_rx.Types.{Node, Message}
use raft_rx.Members.Names.{IsId, copy_id}
use raft_rx.Outbox.{queue_message}
use raft_rx.Election.{handle_term_update, handle_vote_request}

module _ {S : Type 0} where
  -- The vote of a term is kept: a handler that ends in the same term changes `voted_for` only from
  -- none.
  abbrev pub KeepsVote : Node S → Node S → Type 0
  KeepsVote n n' =
      (n.current_term ≤ n'.current_term)
      × (n'.current_term ≡ n.current_term → n.voted_for ≢ [] → n'.voted_for ≡ n.voted_for)

  -- A vote request from a name of fewer than 16 bytes does not lower the term, and does not change
  -- a vote given in the term if the term stays.
  pub handle_vote_request-KeepsVote :
      (n : Node S) (m : Message) (now : ℕ)
      → IsId m.source
      → KeepsVote n (handle_vote_request n m now)
  unfolding handle_vote_request handle_term_update queue_message
  handle_vote_request-KeepsVote n m now i = ground (arith, copy_id m.source i)
