-- ===== src/Fsm/Votes.antt =====
-- Votes and leadership across one evaluation of the role machine.
use raft_rx.Prelude.{
  ℕ, ◌+◌, ◌≡◌, ◌≢◌, ◌∙◌, inl, inr, refl, sym, Bool, true, false, List, [], ◌∷◌, arith, Option-cases,
}
use raft_rx.Timeout.{next_election_timeout}
use raft_rx.Types.{max_id, copy, Node, Message, LogEntry, candidate, leader}
use raft_rx.Members.{has_vote_quorum, configuration_is_joint}
use raft_rx.Members.Names.{IsId}
use raft_rx.Outbox.{queue_message}
use raft_rx.Election.{handle_vote_response, handle_term_update}
use raft_rx.Election.Votes.{KeepsVote, handle_vote_request-KeepsVote}
use raft_rx.Follower.{
  append_entry, truncate_at, take_entry, take_entries, settle_commit, append_entries_from_leader,
  handle_append_entries,
}
use raft_rx.Fsm.Rows.{All, done, ◌∷∷◌, All-mem}
use raft_rx.Fsm.Frame.{KeepsTerm, record_vote-KeepsTerm, action_become_candidate-KeepsCore}
use raft_rx.Fsm.Safety.{
  vote_request-KeepsCore, vote-KeepsCore, ignore_vote-KeepsTerm, ignore_vote_request-KeepsTerm,
  timeout-KeepsTerm, action_become_leader-KeepsTerm, action_send_heartbeat-KeepsTerm,
}
use raft_rx.Fsm.{
  Transition, transitions, Runtime, fire, evaluate, action_handle_append_entries,
  action_handle_vote_request, action_handle_vote, guard_received_majority_votes,
}

-- The sources of the messages fit a char[16].
abbrev pub SourcesAreIds : List Message → Type 0
SourcesAreIds [] = Unit
SourcesAreIds (m ∷ ms) = IsId m.source × SourcesAreIds ms

module _ {S : Type 0} where
  -- What the loop over the entries of a message leaves alone.
  abbrev KeepsBallot : Node S → Node S → Type 0
  KeepsBallot n n' =
      (n'.current_term ≡ n.current_term) × (n'.voted_for ≡ n.voted_for) × (n'.state ≡ n.state)

  take_entry-KeepsBallot :
      (n : Node S) (b : Bool) (e : LogEntry) → KeepsBallot n (take_entry n b e).0
  unfolding take_entry append_entry truncate_at
  take_entry-KeepsBallot n b e = ground arith

  take_entries-KeepsBallot :
      (n : Node S) (b : Bool) (es : List LogEntry) → KeepsBallot n (take_entries n b es).0
  unfolding take_entries
  take_entries-KeepsBallot n b [] = (refl, refl, refl)
  take_entries-KeepsBallot n b (e ∷ es) =
      let (n', b') = take_entry n b e in
      ground (arith, take_entry-KeepsBallot n b e, take_entries-KeepsBallot n' b' es)

  append_entries_from_leader-KeepsBallot :
      (n : Node S) (m : Message) → KeepsBallot n (append_entries_from_leader n m).0
  unfolding append_entries_from_leader settle_commit
  append_entries_from_leader-KeepsBallot n m =
      ground (arith, take_entries-KeepsBallot n false m.entries)

  pub handle_term_update-KeepsVote :
      (n : Node S) (m : Message)
      → KeepsVote n (handle_term_update n m) × ((handle_term_update n m).state ≡ n.state)
  unfolding handle_term_update
  handle_term_update-KeepsVote n m = ground arith

  handle_append_entries-KeepsVote :
      (n : Node S) (m : Message) (now : ℕ)
      → KeepsVote n (handle_append_entries n m now)
        × ((handle_append_entries n m now).state ≡ n.state)
  unfolding handle_append_entries queue_message
  handle_append_entries-KeepsVote n m now =
      let n1 = handle_term_update n m in
      let n2 = record n1 {
        leader_id = copy max_id m.source;
        election_deadline_ms = now + next_election_timeout n1 now;
      } in
      ground (arith, handle_term_update-KeepsVote n m, append_entries_from_leader-KeepsBallot n2 m)

  handle_vote_response-KeepsVote :
      (n : Node S) (m : Message) → KeepsVote n (handle_vote_response n m)
  unfolding handle_vote_response
  handle_vote_response-KeepsVote n m = ground (
    arith,
    handle_term_update-KeepsVote n m,
    record_vote-KeepsTerm (handle_term_update n m) m.source,
  )

  append_entries-KeepsVote :
      (n : Node S) (now : ℕ) (ms : List Message)
      → n.pending_append_entries ≡ ms
      → KeepsVote n (action_handle_append_entries n now)
        × ((action_handle_append_entries n now).state ≡ n.state)
  unfolding action_handle_append_entries
  append_entries-KeepsVote n now [] e = ground arith
  append_entries-KeepsVote n now (m ∷ ms) e =
      ground
        (arith, handle_append_entries-KeepsVote (record n { pending_append_entries = ms }) m now)

  vote_request-KeepsVote :
      (n : Node S) (now : ℕ) (ms : List Message)
      → n.pending_vote_requests ≡ ms
      → SourcesAreIds ms
      → KeepsVote n (action_handle_vote_request n now)
  unfolding action_handle_vote_request
  vote_request-KeepsVote n now [] e i = ground arith
  vote_request-KeepsVote n now (m ∷ ms) e i =
      ground
        (arith, handle_vote_request-KeepsVote (record n { pending_vote_requests = ms }) m now i.0)

  vote-KeepsVote :
      (n : Node S) (now : ℕ) (ms : List Message)
      → n.pending_votes ≡ ms
      → KeepsVote n (action_handle_vote n now)
  unfolding action_handle_vote
  vote-KeepsVote n now [] e = ground arith
  vote-KeepsVote n now (m ∷ ms) e =
      ground (arith, handle_vote_response-KeepsVote (record n { pending_votes = ms }) m)

  -- What a row of the table does to the vote and to the role.
  pub record FiresRight (t : Transition S) : Type 0 where
    pub vote :
        (n : Node S) (now : ℕ) → SourcesAreIds n.pending_vote_requests → KeepsVote n (fire t n now)
    pub role : (n : Node S) (now : ℕ) → (fire t n now).state ≡ t.to
    pub elected :
        (n : Node S) (now : ℕ)
        → t.from ≢ leader
        → t.to ≡ leader
        → t.guard n now ≡ true
        → (guard_received_majority_votes n now ≡ true)
          × ((fire t n now).current_term ≡ n.current_term)

  not_to_leader :
      (t : Transition S)
      → ((n : Node S) (now : ℕ)
          → SourcesAreIds n.pending_vote_requests
          → KeepsVote n (fire t n now))
      → ((n : Node S) (now : ℕ) → (fire t n now).state ≡ t.to)
      → (t.from ≢ leader → t.to ≢ leader)
      → FiresRight t
  not_to_leader t v r stays = record {
    vote = v;
    role = r;
    elected = λ n now h e _. absurd (stays h e);
  }

  by_term :
      (t : Transition S)
      → ((n : Node S) (now : ℕ) → KeepsTerm n (t.action n now))
      → (t.from ≢ leader → t.to ≢ leader)
      → FiresRight t
  unfolding fire
  by_term t keeps stays =
      not_to_leader t (λ n now i. ground (arith, keeps (record n { state = t.to }) now))
        (λ n now. (keeps (record n { state = t.to }) now).core.state) stays

  by_append :
      (t : Transition S)
      → t.action ≡ action_handle_append_entries
      → (t.from ≢ leader → t.to ≢ leader)
      → FiresRight t
  unfolding fire
  by_append t e stays =
      not_to_leader t
        (λ n now i. rw e (append_entries-KeepsVote (record n { state = t.to }) now _ refl).0)
        (λ n now. rw e (append_entries-KeepsVote (record n { state = t.to }) now _ refl).1) stays

  by_request :
      (t : Transition S)
      → t.action ≡ action_handle_vote_request
      → (t.from ≢ leader → t.to ≢ leader)
      → FiresRight t
  unfolding fire
  by_request t e stays =
      not_to_leader t
        (λ n now i. rw e (vote_request-KeepsVote (record n { state = t.to }) now _ refl i))
        (λ n now. rw e (vote_request-KeepsCore (record n { state = t.to }) now _ refl).state) stays

  transitions-FiresRight : All FiresRight transitions
  unfolding fire
  transitions-FiresRight =
      not_to_leader _
        (λ n now i.
          ground (arith, action_become_candidate-KeepsCore (record n { state = candidate }) now))
        (λ n now. (action_become_candidate-KeepsCore (record n { state = candidate }) now).0.state)
        (λ _ e. cc)
      ∷∷ by_append _ refl (λ _ e. cc)
      ∷∷ by_request _ refl (λ _ e. cc)
      ∷∷ by_term _ ignore_vote-KeepsTerm (λ _ e. cc)
      ∷∷ by_term _ timeout-KeepsTerm (λ _ e. cc)
      ∷∷ record {
        vote = λ n now i.
            ground (arith, action_become_leader-KeepsTerm (record n { state = leader }) now);
        role =
            λ n now. (action_become_leader-KeepsTerm (record n { state = leader }) now).core.state;
        elected = λ n now _ _ g.
            (g, (action_become_leader-KeepsTerm (record n { state = leader }) now).term);
      }
      ∷∷ by_append _ refl (λ _ e. cc)
      ∷∷ by_request _ refl (λ _ e. cc)
      ∷∷ by_request _ refl (λ _ e. cc)
      ∷∷ not_to_leader _ (λ n now i. vote-KeepsVote (record n { state = candidate }) now _ refl)
          (λ n now. (vote-KeepsCore (record n { state = candidate }) now _ refl).state) (λ _ e. cc)
      ∷∷ by_append _ refl (λ h. absurd (h refl))
      ∷∷ by_request _ refl (λ h. absurd (h refl))
      ∷∷ by_term _ ignore_vote_request-KeepsTerm (λ h. absurd (h refl))
      ∷∷ by_term _ ignore_vote-KeepsTerm (λ h. absurd (h refl))
      ∷∷ by_term _ action_send_heartbeat-KeepsTerm (λ h. absurd (h refl))
      ∷∷ done

  -- Whatever row the runtime fires on a node whose pending vote requests come from names of fewer
  -- than 16 bytes: the term does not fall, and a vote given in the term is not changed as long as
  -- the term stays.
  pub evaluate-KeepsVote :
      (r : Runtime S) (n : Node S) (now : ℕ)
      → SourcesAreIds n.pending_vote_requests
      → KeepsVote n (evaluate r n now)
  unfolding evaluate
  evaluate-KeepsVote r n now i = elim (Option-cases (r.select n now)) [
    | inl idle ↦ rw (idle, evaluate) (omega arith, λ _ _. refl)
    | inr (t, chosen) ↦
        rw (chosen, evaluate)
          ((All-mem FiresRight transitions-FiresRight (r.select_enabled n now t chosen).0).vote n
            now i)
  ]

  -- If an evaluation makes a leader of a node that was none, then before it a quorum of the old
  -- members, and of the new ones if the configuration was joint, had voted for the node; and the
  -- term has not changed.
  pub evaluate-elected :
      (r : Runtime S) (n : Node S) (now : ℕ)
      → n.state ≢ leader
      → (evaluate r n now).state ≡ leader
      → (has_vote_quorum n n.config_state.old_members ≡ true)
        × (configuration_is_joint n.config_state ≡ true
            → has_vote_quorum n n.config_state.new_members ≡ true)
        × ((evaluate r n now).current_term ≡ n.current_term)
  unfolding evaluate guard_received_majority_votes
  evaluate-elected r n now h e = elim (Option-cases (r.select n now)) [
    | inl idle ↦ absurd (h (ground arith))
    | inr (t, chosen) ↦
        let (member, from, passes) = r.select_enabled n now t chosen in
        let right = All-mem FiresRight transitions-FiresRight member in
        let to : t.to ≡ leader = sym (right.role n now) ∙ ground arith in
        let (quorum, term) = right.elected n now (λ f. h (sym from ∙ f)) to passes in
        (ground arith, ground arith, rw (chosen, evaluate) term)
  ]
