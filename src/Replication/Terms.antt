-- ===== src/Replication/Terms.antt =====
-- What a response of a later term does to the node that receives it (c/src/raft.c, lines 440 to 447
-- and 563 to 589).
use raft_rx.Prelude.{
  ℕ, zero, suc, ◌≡◌, ◌<◌, arith, ◌∙◌, refl, [], Bool-cases, Option-cases, inl, inr, not, ◌==◌, ◌||◌,
}
use raft_rx.Types.{Node, Message, leader}
use raft_rx.Members.{is_leader_role, peer_index}
use raft_rx.Outbox.{queue_message}
use raft_rx.Election.{handle_term_update}
use raft_rx.Replication.{
  send_append_entries_to, advance_from, advance_commit_index, acknowledged, step_back,
  handle_append_entries_response,
}

module _ {S : Type 0} where
  -- The role, the term, the votes and the requests that wait are the same.
  abbrev pub SameRole : Node S → Node S → Type 0
  SameRole n n' =
      (n'.state ≡ n.state)
      × (n'.current_term ≡ n.current_term)
      × (n'.votes_received ≡ n.votes_received)
      × (n'.voted_for ≡ n.voted_for)
      × (n'.pending_vote_requests ≡ n.pending_vote_requests)

  advance_from-SameRole : (n : Node S) (count : ℕ) → SameRole n (advance_from n count)
  unfolding advance_from
  advance_from-SameRole n zero = (refl, refl, refl, refl, refl)
  advance_from-SameRole n (suc count) =
      let (a, b, c, d, e) = advance_from-SameRole n count in
      (
        ground (arith, a),
        ground (arith, b),
        ground (arith, c),
        ground (arith, d),
        ground (arith, e),
      )

  pub advance_commit_index-SameRole : (n : Node S) → SameRole n (advance_commit_index n)
  unfolding advance_commit_index
  advance_commit_index-SameRole n = advance_from-SameRole n _

  acknowledged-SameRole :
      (n : Node S) (peer : ℕ) (m : Message)
      → SameRole n (advance_commit_index (acknowledged n peer m))
  unfolding advance_commit_index acknowledged
  acknowledged-SameRole n peer m = advance_from-SameRole (acknowledged n peer m) _

  step_back-SameRole :
      (n : Node S) (peer : ℕ) (m : Message)
      → SameRole n (send_append_entries_to (step_back n peer) m.source)
  unfolding send_append_entries_to step_back queue_message
  step_back-SameRole n peer m =
      (ground arith, ground arith, ground arith, ground arith, ground arith)

  -- The rest of the handler, after the term update.
  pub response-SameRole :
      (n : Node S) (m : Message)
      → SameRole (handle_term_update n m) (handle_append_entries_response n m)
  unfolding handle_append_entries_response handle_term_update
  response-SameRole n m =
      let n1 = handle_term_update n m in
      elim (Bool-cases (not (is_leader_role n1.state) || not (m.term == n1.current_term))) [
        | inl ignored ↦ rw ignored (refl, refl, refl, refl, refl)
        | inr taken ↦ elim (Option-cases (peer_index n1 m.source)) [
          | inl unknown ↦ rw (taken, unknown) (refl, refl, refl, refl, refl)
          | inr (peer, known) ↦ elim (Bool-cases m.success) [
            | inl good ↦ rw (taken, known, good) (acknowledged-SameRole n1 peer m)
            | inr bad ↦ rw (taken, known, bad) (step_back-SameRole n1 peer m)
          ]
        ]
      ]

  -- A leader that receives an AppendEntries response of a later term takes the term over and stays
  -- leader in it, with the votes of its earlier term and no vote given in the new one.
  pub handle_append_entries_response-stays_leader :
      (n : Node S) (m : Message)
      → n.state ≡ leader
      → n.current_term < m.term
      → let n' = handle_append_entries_response n m in
        (n'.state ≡ leader)
        × (n'.current_term ≡ m.term)
        × (n'.votes_received ≡ n.votes_received)
        × (n'.voted_for ≡ [])
  unfolding handle_term_update
  handle_append_entries_response-stays_leader n m h lt =
      let (a, b, c, d, e) = response-SameRole n m in
      (a ∙ ground arith, b ∙ ground arith, c ∙ ground arith, d ∙ ground arith)
