-- ===== src/Fsm/Marks.antt =====
-- The dirty flag of a node (c/src/raft.c): every step of the role machine that changes something
-- that `raft_storage_node_save` writes sets it.
use raft_rx.Prelude.{ℕ, ◌+◌, ◌≡◌, ◌∙◌, Bool, false, List, [], ◌∷◌, Text, arith, set}
use raft_rx.Types.{Node, Message, LogEntry, max_id, copy}
use raft_rx.Members.{record_vote}
use raft_rx.Outbox.{queue_message}
use raft_rx.Election.{
  handle_term_update, request_votes, start_candidacy, action_become_candidate, vote_request_to,
}
use raft_rx.Replication.{send_append_entries_to, send_to_each, broadcast_append_entries}
use raft_rx.Follower.{append_entry, truncate_at, take_entry, take_entries}
use raft_rx.Fsm.{reset_peers, action_become_leader, action_send_heartbeat}

module _ {S : Type 0} where
  -- What meta.txt and log.txt are made from is the same.
  pub record SameFiles (n n' : Node S) : Type 0 where
    pub term : n'.current_term ≡ n.current_term
    pub vote : n'.voted_for ≡ n.voted_for
    pub threshold : n'.compaction_threshold ≡ n.compaction_threshold
    pub committed : n'.commit_index ≡ n.commit_index
    pub snapshot_index : n'.snapshot_last_included_index ≡ n.snapshot_last_included_index
    pub snapshot_term : n'.snapshot_last_included_term ≡ n.snapshot_last_included_term
    pub configuration : n'.config_state ≡ n.config_state
    pub log : n'.log ≡ n.log
    pub log_count : n'.log_count ≡ n.log_count

  pub SameFiles-trans : (n n' n'' : Node S) → SameFiles n n' → SameFiles n' n'' → SameFiles n n''
  SameFiles-trans n n' n'' a b = ground arith

  -- A step that leaves the flag cleared found it cleared and changed nothing that is saved.
  abbrev pub Marks : Node S → Node S → Type 0
  Marks n n' = n'.persist_dirty ≡ false → (n.persist_dirty ≡ false) × SameFiles n n'

  pub Marks-trans : (n n' n'' : Node S) → Marks n n' → Marks n' n'' → Marks n n''
  Marks-trans n n' n'' a b clean = let (c, s) = b clean in let (d, t) = a c in (d, ground arith)

  -- Nor does the step start or stop the node.
  pub record Tracks (n n' : Node S) : Type 0 where
    pub running : n'.running ≡ n.running
    pub marks : Marks n n'

  pub Tracks-trans : (n n' n'' : Node S) → Tracks n n' → Tracks n' n'' → Tracks n n''
  Tracks-trans n n' n'' a b = record {
    running = b.running ∙ a.running;
    marks = Marks-trans n n' n'' a.marks b.marks;
  }

  -- A step that touches none of it.
  pub record IsQuiet (n n' : Node S) : Type 0 where
    pub running : n'.running ≡ n.running
    pub dirty : n'.persist_dirty ≡ n.persist_dirty
    pub same : SameFiles n n'

  pub IsQuiet-Tracks : (n n' : Node S) → IsQuiet n n' → Tracks n n'
  IsQuiet-Tracks n n' q = record { running = q.running; marks = λ clean. ground arith }

  IsQuiet-trans : (n n' n'' : Node S) → IsQuiet n n' → IsQuiet n' n'' → IsQuiet n n''
  IsQuiet-trans n n' n'' a b = ground arith

  pub queue_message-IsQuiet : (n : Node S) (m : Message) → IsQuiet n (queue_message n m)
  unfolding queue_message
  queue_message-IsQuiet n m = ground arith

  send_to_each-IsQuiet : (n : Node S) (ps : List Text) → IsQuiet n (send_to_each n ps)
  unfolding send_to_each send_append_entries_to
  send_to_each-IsQuiet n [] = ground arith
  send_to_each-IsQuiet n (p ∷ ps) =
      IsQuiet-trans n (send_append_entries_to n p) _ (queue_message-IsQuiet n _)
        (send_to_each-IsQuiet (send_append_entries_to n p) ps)

  pub broadcast-IsQuiet : (n : Node S) → IsQuiet n (broadcast_append_entries n)
  unfolding broadcast_append_entries
  broadcast-IsQuiet n = send_to_each-IsQuiet n n.config.peers

  reset_peers-IsQuiet : (n : Node S) (i : ℕ) (ps : List Text) → IsQuiet n (reset_peers n i ps)
  unfolding reset_peers
  reset_peers-IsQuiet n i [] = ground arith
  reset_peers-IsQuiet n i (p ∷ ps) =
      let next = record n {
        next_index = set n.next_index i _;
        match_index = set n.match_index i 0;
      } in
      IsQuiet-trans n next _ (ground arith) (reset_peers-IsQuiet next (i + 1) ps)

  request_votes-IsQuiet : (n : Node S) (ps : List Text) → IsQuiet n (request_votes n ps)
  unfolding request_votes
  request_votes-IsQuiet n [] = ground arith
  request_votes-IsQuiet n (p ∷ ps) =
      IsQuiet-trans n (queue_message n (vote_request_to n p)) _ (queue_message-IsQuiet n _)
        (request_votes-IsQuiet (queue_message n (vote_request_to n p)) ps)

  start_candidacy-Tracks : (n : Node S) (now : ℕ) → Tracks n (start_candidacy n now)
  unfolding start_candidacy record_vote
  start_candidacy-Tracks n now = record { running = ground arith; marks = λ clean. ground arith }

  pub become_candidate-Tracks : (n : Node S) (now : ℕ) → Tracks n (action_become_candidate n now)
  unfolding action_become_candidate
  become_candidate-Tracks n now =
      let n1 = start_candidacy n now in
      Tracks-trans n n1 _ (start_candidacy-Tracks n now)
        (IsQuiet-Tracks n1 _ (request_votes-IsQuiet n1 n1.config.peers))

  pub become_leader-IsQuiet : (n : Node S) (now : ℕ) → IsQuiet n (action_become_leader n now)
  unfolding action_become_leader
  become_leader-IsQuiet n now =
      let n1 = record n { leader_id = copy max_id n.config.node_id } in
      let n2 = reset_peers n1 0 n1.config.peers in
      ground (arith, reset_peers-IsQuiet n1 0 n1.config.peers, broadcast-IsQuiet n2)

  pub send_heartbeat-IsQuiet : (n : Node S) (now : ℕ) → IsQuiet n (action_send_heartbeat n now)
  unfolding action_send_heartbeat
  send_heartbeat-IsQuiet n now = ground (arith, broadcast-IsQuiet n)

  pub handle_term_update-Tracks : (n : Node S) (m : Message) → Tracks n (handle_term_update n m)
  unfolding handle_term_update
  handle_term_update-Tracks n m = record { running = ground arith; marks = λ clean. ground arith }

  take_entry-Tracks : (n : Node S) (b : Bool) (e : LogEntry) → Tracks n (take_entry n b e).0
  unfolding take_entry append_entry truncate_at
  take_entry-Tracks n b e = record { running = ground arith; marks = λ clean. ground arith }

  pub take_entries-Tracks :
      (n : Node S) (b : Bool) (es : List LogEntry) → Tracks n (take_entries n b es).0
  unfolding take_entries
  take_entries-Tracks n b [] = IsQuiet-Tracks n n (ground arith)
  take_entries-Tracks n b (e ∷ es) =
      let (n', b') = take_entry n b e in
      Tracks-trans n n' _ (take_entry-Tracks n b e) (take_entries-Tracks n' b' es)
