-- ===== src/Phases/Requests.antt =====
-- The vote requests that wait after the input phase of a tick (c/src/raft.c).
use raft_rx.Prelude.{
  ◌+◌, ◌≡◌, ◌∙◌, inl, inr, refl, true, not, List, [], ◌∷◌, ◌++◌, Text, length, ltb, arith, set,
  Bool-cases,
}
use raft_rx.Types.{
  Node, Message, MessageKind, Command, max_queue, request_vote, request_vote_response,
  append_entries, append_entries_response,
}
use raft_rx.Members.{is_leader}
use raft_rx.Members.Names.{IsId}
use raft_rx.Outbox.{queue_message}
use raft_rx.Election.{handle_term_update}
use raft_rx.Replication.{send_to_each, send_append_entries_to, broadcast_append_entries}
use raft_rx.Replication.Terms.{response-SameRole}
use raft_rx.Membership.{own_entry, append_own}
use raft_rx.Fsm.Votes.{SourcesAreIds}
use raft_rx.Phases.{
  Host, Transport, sort_by, take_messages, take_commands, clear_pending, latch_inputs, enqueue,
}

-- Every source of a waiting vote request is one of a message that has come.
SourcesAreIds-snoc :
    (ms : List Message) (m : Message)
    → SourcesAreIds ms
    → IsId m.source
    → SourcesAreIds (ms ++ m ∷ [])
SourcesAreIds-snoc [] m i h = (h, tt)
SourcesAreIds-snoc (x ∷ ms) m (g, i) h = (g, SourcesAreIds-snoc ms m i h)

module _ {S : Type 0} where
  sort_by-SourcesAreIds :
      (k : MessageKind) (n : Node S) (m : Message)
      → SourcesAreIds n.pending_vote_requests
      → IsId m.source
      → SourcesAreIds (sort_by k n m).pending_vote_requests
  unfolding sort_by enqueue
  sort_by-SourcesAreIds append_entries n m i h = i
  sort_by-SourcesAreIds request_vote_response n m i h = i
  sort_by-SourcesAreIds append_entries_response n m i h =
      let (a, b, c, d, e) = response-SameRole n m in
      let same : (handle_term_update n m).pending_vote_requests ≡ n.pending_vote_requests =
        unfold handle_term_update in (ground arith) in
      rw (e ∙ same) i
  sort_by-SourcesAreIds request_vote n m i h =
      elim (Bool-cases (ltb (length n.pending_vote_requests) max_queue)) [
        | inl room ↦ rw room (SourcesAreIds-snoc n.pending_vote_requests m i h)
        | inr full ↦ rw full i
      ]

  take_messages-SourcesAreIds :
      (n : Node S) (ms : List Message)
      → SourcesAreIds n.pending_vote_requests
      → SourcesAreIds ms
      → SourcesAreIds (take_messages n ms).pending_vote_requests
  unfolding take_messages
  take_messages-SourcesAreIds n [] i hs = i
  take_messages-SourcesAreIds n (m ∷ ms) i (h, hs) =
      take_messages-SourcesAreIds (sort_by m.kind n m) ms (sort_by-SourcesAreIds m.kind n m i h) hs

  send_to_each_requests :
      (n : Node S) (ps : List Text)
      → (send_to_each n ps).pending_vote_requests ≡ n.pending_vote_requests
  unfolding send_to_each send_append_entries_to queue_message
  send_to_each_requests n [] = refl
  send_to_each_requests n (p ∷ ps) =
      ground (arith, send_to_each_requests (send_append_entries_to n p) ps)

  broadcast_requests :
      (n : Node S) → (broadcast_append_entries n).pending_vote_requests ≡ n.pending_vote_requests
  unfolding broadcast_append_entries
  broadcast_requests n = send_to_each_requests n n.config.peers

  take_commands_requests :
      (n : Node S) (cs : List Command)
      → (take_commands n cs).pending_vote_requests ≡ n.pending_vote_requests
  unfolding take_commands append_own
  take_commands_requests n [] = refl
  take_commands_requests n (c ∷ cs) = ground (
    arith,
    take_commands_requests (append_own n c) cs,
    broadcast_requests (record n {
      log = set n.log n.log_count (own_entry n c);
      log_count = n.log_count + 1;
      persist_dirty = true;
    }),
  )

module _ {S T : Type 0} (tr : Transport T) where
  pub latch_inputs-SourcesAreIds :
      (h : Host S T)
      → SourcesAreIds (tr.recv h.link max_queue).1
      → SourcesAreIds (latch_inputs tr h).node.pending_vote_requests
  unfolding latch_inputs clear_pending
  latch_inputs-SourcesAreIds h hs =
      let n0 = clear_pending h.node in
      let (l1, ms) = tr.recv h.link max_queue in
      let (l2, cs) = tr.recv_commands l1 max_queue in
      let n1 = take_messages n0 ms in
      let i1 = take_messages-SourcesAreIds n0 ms tt hs in
      elim (Bool-cases (not h.node.running)) [
        | inl stopped ↦ rw stopped tt
        | inr up ↦ elim (Bool-cases (is_leader n1)) [
          | inr other ↦ rw (up, other) i1
          | inl leads ↦ rw (up, leads) (rw (take_commands_requests n1 cs) i1)
        ]
      ]
