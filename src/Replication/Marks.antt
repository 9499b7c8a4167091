-- ===== src/Replication/Marks.antt =====
-- The dirty flag across the answers that a leader receives (c/src/raft.c).
use raft_rx.Prelude.{ℕ, zero, suc, ◌+◌, not, ◌||◌, ◌==◌, inl, inr, arith, Bool-cases, Option-cases}
use raft_rx.Types.{Node, Message}
use raft_rx.LogIndex.{term_at_index}
use raft_rx.Members.{is_leader_role, peer_index}
use raft_rx.Election.{handle_term_update}
use raft_rx.Replication.{
  handle_append_entries_response, advance_from, advance_commit_index, acknowledged, step_back,
  send_append_entries_to, is_committed_under_current_configuration,
}
use raft_rx.Fsm.Marks.{
  Tracks, Tracks-trans, IsQuiet-Tracks, queue_message-IsQuiet, handle_term_update-Tracks,
}

module _ {S : Type 0} where
  advance_from-Tracks : (n : Node S) (left : ℕ) → Tracks n (advance_from n left)
  unfolding advance_from
  advance_from-Tracks n zero = IsQuiet-Tracks n n (ground arith)
  advance_from-Tracks n (suc left) =
      let rest = advance_from-Tracks n left in
      elim (Bool-cases (term_at_index n (n.commit_index + suc left) == n.current_term)) [
        | inr other ↦ rw other rest
        | inl own ↦
            elim (Bool-cases
              (is_committed_under_current_configuration n (n.commit_index + suc left))) [
                | inr few ↦ rw (own, few) rest
                | inl many ↦
                    rw (own, many)
                      (record { running = ground arith; marks = λ clean. ground arith })
              ]
      ]

  pub advance_commit_index-Tracks : (n : Node S) → Tracks n (advance_commit_index n)
  unfolding advance_commit_index
  advance_commit_index-Tracks n = advance_from-Tracks n _

  pub handle_append_entries_response-Tracks :
      (n : Node S) (m : Message) → Tracks n (handle_append_entries_response n m)
  unfolding handle_append_entries_response acknowledged step_back send_append_entries_to
      handle_term_update
  handle_append_entries_response-Tracks n m =
      let n1 = handle_term_update n m in
      let update = handle_term_update-Tracks n m in
      elim (Bool-cases (not (is_leader_role n1.state) || not (m.term == n1.current_term))) [
        | inl ignored ↦ rw ignored update
        | inr taken ↦ elim (Option-cases (peer_index n1 m.source)) [
          | inl unknown ↦ rw (taken, unknown) update
          | inr (peer, known) ↦ elim (Bool-cases m.success) [
            | inl good ↦
                rw (taken, known, good)
                  (Tracks-trans n n1 _ update (
                    Tracks-trans n1 (acknowledged n1 peer m) _ (IsQuiet-Tracks n1 _ (ground arith))
                      (advance_commit_index-Tracks (acknowledged n1 peer m))))
            | inr bad ↦
                rw (taken, known, bad)
                  (Tracks-trans n n1 _ update (
                    Tracks-trans n1 (step_back n1 peer) _ (IsQuiet-Tracks n1 _ (ground arith))
                      (IsQuiet-Tracks _ _ (queue_message-IsQuiet _ _))))
          ]
        ]
      ]
