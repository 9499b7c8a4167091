-- ===== src/Phases/Votes.antt =====
-- The vote and the term of a node across a whole tick (c/src/raft.c).
use raft_rx.Prelude.{
  ℕ, ◌+◌, ◌≡◌, ◌∙◌, inl, inr, refl, sym, true, not, if◌then◌else◌, List, [], ◌∷◌, ltb, arith, set,
  Bool-cases,
}
use raft_rx.Types.{
  Node, Message, MessageKind, Command, max_log, max_queue, request_vote, request_vote_response,
  append_entries, append_entries_response,
}
use raft_rx.Members.{is_leader}
use raft_rx.Election.{handle_term_update}
use raft_rx.Election.Votes.{KeepsVote}
use raft_rx.Replication.{handle_append_entries_response, advance_commit_index}
use raft_rx.Replication.Terms.{response-SameRole, advance_commit_index-SameRole}
use raft_rx.Membership.{own_entry, append_own, maybe_drive_membership}
use raft_rx.Membership.Drive.{maybe_drive_membership_keeps}
use raft_rx.Storage.{Disk}
use raft_rx.Compaction.{do_compact, compact_to}
use raft_rx.Apply.{apply_committed}
use raft_rx.Apply.Committed.{apply_committed-Applied}
use raft_rx.Fsm.{Runtime, evaluate}
use raft_rx.Fsm.Frame.{broadcast-KeepsTerm}
use raft_rx.Fsm.Votes.{SourcesAreIds, evaluate-KeepsVote, handle_term_update-KeepsVote}
use raft_rx.Phases.Requests.{latch_inputs-SourcesAreIds}
use raft_rx.Phases.{
  Host, Transport, sort_by, take_messages, take_commands, clear_pending, compact_if_due,
  save_if_dirty, latch_inputs, dump_outputs, tick,
}

module _ {S : Type 0} where
  KeepsVote-trans : (n n' n'' : Node S) → KeepsVote n n' → KeepsVote n' n'' → KeepsVote n n''
  KeepsVote-trans n n' n'' (a, b) (c, d) = (
    omega arith,
    λ same given.
        let first = b (omega (arith, same)) given in
        d (omega (arith, same)) (λ none_given. given (sym first ∙ none_given)) ∙ first,
  )

  -- Neither changes.
  SameBallot : Node S → Node S → Type 0
  SameBallot n n' = (n'.current_term ≡ n.current_term) × (n'.voted_for ≡ n.voted_for)

  SameBallot-trans : (n n' n'' : Node S) → SameBallot n n' → SameBallot n' n'' → SameBallot n n''
  unfolding SameBallot
  SameBallot-trans n n' n'' (a, b) (c, d) = (c ∙ a, d ∙ b)

  SameBallot-KeepsVote : (n n' : Node S) → SameBallot n n' → KeepsVote n n'
  unfolding SameBallot
  SameBallot-KeepsVote n n' (a, b) = (omega arith, λ _ _. b)

  response-KeepsVote : (n : Node S) (m : Message) → KeepsVote n (handle_append_entries_response n m)
  response-KeepsVote n m =
      let (a, b, c, d, e) = response-SameRole n m in
      KeepsVote-trans n (handle_term_update n m) (handle_append_entries_response n m)
        (handle_term_update-KeepsVote n m).0 (omega (arith, b), λ _ _. d)

  sort_by-KeepsVote : (k : MessageKind) (n : Node S) (m : Message) → KeepsVote n (sort_by k n m)
  unfolding sort_by
  sort_by-KeepsVote append_entries n m = (omega arith, λ _ _. refl)
  sort_by-KeepsVote request_vote n m = (omega arith, λ _ _. refl)
  sort_by-KeepsVote request_vote_response n m = (omega arith, λ _ _. refl)
  sort_by-KeepsVote append_entries_response n m = response-KeepsVote n m

  take_messages-KeepsVote : (n : Node S) (ms : List Message) → KeepsVote n (take_messages n ms)
  unfolding take_messages
  take_messages-KeepsVote n [] = (omega arith, λ _ _. refl)
  take_messages-KeepsVote n (m ∷ ms) =
      KeepsVote-trans n (sort_by m.kind n m) (take_messages n (m ∷ ms))
        (sort_by-KeepsVote m.kind n m) (take_messages-KeepsVote (sort_by m.kind n m) ms)

  append_own-SameBallot : (n : Node S) (c : Command) → SameBallot n (append_own n c)
  unfolding append_own SameBallot
  append_own-SameBallot n c =
      let n1 = record n {
        log = set n.log n.log_count (own_entry n c);
        log_count = n.log_count + 1;
        persist_dirty = true;
      } in
      let k = broadcast-KeepsTerm n1 in (k.term, k.vote)

  take_commands-SameBallot : (n : Node S) (cs : List Command) → SameBallot n (take_commands n cs)
  unfolding take_commands
  take_commands-SameBallot n [] = unfold SameBallot in (refl, refl)
  take_commands-SameBallot n (c ∷ cs) = elim (Bool-cases (ltb n.log_count max_log)) [
    | inr full ↦ rw full (unfold SameBallot in (refl, refl))
    | inl free ↦ rw free (
        SameBallot-trans n (append_own n c) _ (append_own-SameBallot n c)
          (take_commands-SameBallot (append_own n c) cs))
  ]

  maybe_drive_membership-SameBallot : (n : Node S) → SameBallot n (maybe_drive_membership n)
  maybe_drive_membership-SameBallot n =
      maybe_drive_membership_keeps (SameBallot n)
        (λ m c free b. SameBallot-trans n m _ b (append_own-SameBallot m c))
        (λ m m' e b. unfold SameBallot in (ground (arith, e), ground (arith, e))) n
        (unfold SameBallot in (refl, refl))

  compact_if_due-SameBallot : (n : Node S) (d : Disk) → SameBallot n (compact_if_due n d).0
  unfolding compact_if_due do_compact compact_to SameBallot
  compact_if_due-SameBallot n d = (ground arith, ground arith)

  dump-SameBallot :
      (n : Node S) (d : Disk)
      → let n1 = if is_leader n then advance_commit_index n else n in
        let (n3, d3) = compact_if_due (maybe_drive_membership (apply_committed n1)) d in
        SameBallot n (record (save_if_dirty n3 d3).0 { outbox = [] })
  dump-SameBallot n d =
      let n1 = if is_leader n then advance_commit_index n else n in
      let n2 = apply_committed n1 in
      let n3 = maybe_drive_membership n2 in
      let (n4, d4) = compact_if_due n3 d in
      let n5 = record (save_if_dirty n4 d4).0 { outbox = [] } in
      let k = (apply_committed-Applied n1).kept in
      let advance = advance_commit_index-SameRole n in
      let b1 : SameBallot n n1 =
        unfold SameBallot in (ground (arith, advance), ground (arith, advance)) in
      let b2 : SameBallot n1 n2 = unfold SameBallot in (k.term, k.vote) in
      SameBallot-trans n n1 n5 b1 (
        SameBallot-trans n1 n2 n5 b2 (
          SameBallot-trans n2 n3 n5 (maybe_drive_membership-SameBallot n2) (
            SameBallot-trans n3 n4 n5 (compact_if_due-SameBallot n3 d)
              (unfold SameBallot save_if_dirty in (ground arith, ground arith)))))

module _ {S T : Type 0} (tr : Transport T) where
  latch_inputs-KeepsVote : (h : Host S T) → KeepsVote h.node (latch_inputs tr h).node
  unfolding latch_inputs clear_pending
  latch_inputs-KeepsVote h =
      let n0 = clear_pending h.node in
      let (l1, ms) = tr.recv h.link max_queue in
      let (l2, cs) = tr.recv_commands l1 max_queue in
      let n1 = take_messages n0 ms in
      let t1 : KeepsVote h.node n1 = take_messages-KeepsVote n0 ms in
      elim (Bool-cases (not h.node.running)) [
        | inl stopped ↦ rw stopped (omega arith, λ _ _. refl)
        | inr up ↦ elim (Bool-cases (is_leader n1)) [
          | inr other ↦ rw (up, other) t1
          | inl leads ↦
              rw (up, leads)
                (KeepsVote-trans h.node n1 (take_commands n1 cs) t1
                  (SameBallot-KeepsVote n1 _ (take_commands-SameBallot n1 cs)))
        ]
      ]

  dump_outputs-KeepsVote : (h : Host S T) → KeepsVote h.node (dump_outputs tr h).node
  unfolding dump_outputs
  dump_outputs-KeepsVote h = elim (Bool-cases (not h.node.running)) [
    | inl stopped ↦ rw stopped (omega arith, λ _ _. refl)
    | inr up ↦ simp up (SameBallot-KeepsVote h.node _ (dump-SameBallot h.node h.disk))
  ]

  -- Over a whole tick in which the messages received come from names of fewer than 16 bytes,
  -- whatever they are and whatever row the runtime fires: the term does not fall, and a vote given
  -- in the term is not changed as long as the term stays.
  pub tick-KeepsVote :
      (r : Runtime S) (h : Host S T) (now : ℕ)
      → SourcesAreIds (tr.recv h.link max_queue).1
      → KeepsVote h.node (tick tr r h now).node
  unfolding tick
  tick-KeepsVote r h now i =
      let h1 = latch_inputs tr h in
      let h2 = record h1 { node = evaluate r h1.node now } in
      KeepsVote-trans h.node h1.node (dump_outputs tr h2).node (latch_inputs-KeepsVote h) (
        KeepsVote-trans h1.node h2.node (dump_outputs tr h2).node
          (evaluate-KeepsVote r h1.node now (latch_inputs-SourcesAreIds tr h i))
          (dump_outputs-KeepsVote h2))
