-- ===== src/Fsm/Evaluates.antt =====
-- The dirty flag across one evaluation of the role machine (c/src/raft.c).
use raft_rx.Prelude.{
  ℕ, ◌+◌, ◌≡◌, ◌==◌, inl, inr, refl, Bool, false, List, [], ◌∷◌, arith, Option-cases, Bool-cases,
}
use raft_rx.Types.{Node, Message, max_id, copy}
use raft_rx.Timeout.{next_election_timeout}
use raft_rx.Members.{record_vote}
use raft_rx.Outbox.{queue_message}
use raft_rx.Election.{
  handle_term_update, handle_vote_request, handle_vote_response,
  action_back_to_follower_due_to_timeout,
}
use raft_rx.Follower.{
  take_entries, settle_commit, append_entries_from_leader, handle_append_entries, fits_after,
}
use raft_rx.Fsm.Rows.{All, done, ◌∷∷◌, All-mem}
use raft_rx.Fsm.Marks.{
  Tracks, IsQuiet, Tracks-trans, IsQuiet-Tracks, queue_message-IsQuiet, handle_term_update-Tracks,
  become_candidate-Tracks, become_leader-IsQuiet, send_heartbeat-IsQuiet, take_entries-Tracks,
}
use raft_rx.Fsm.{
  Transition, transitions, Runtime, fire, evaluate, action_handle_append_entries,
  action_handle_vote_request, action_ignore_vote, action_handle_vote, action_ignore_vote_request,
}

module _ {S : Type 0} where
  settle_commit-Tracks : (n : Node S) (b : Bool) (c : ℕ) → Tracks n (settle_commit n b c)
  unfolding settle_commit
  settle_commit-Tracks n b c = record { running = ground arith; marks = λ clean. ground arith }

  append_entries_from_leader-Tracks :
      (n : Node S) (m : Message) → Tracks n (append_entries_from_leader n m).0
  unfolding append_entries_from_leader
  append_entries_from_leader-Tracks n m = elim (Bool-cases (fits_after n m)) [
    | inr no_fit ↦ rw no_fit (IsQuiet-Tracks n n (ground arith))
    | inl fits ↦
        let (n', b) = take_entries n false m.entries in
        rw fits (
          Tracks-trans n n' _ (take_entries-Tracks n false m.entries)
            (settle_commit-Tracks n' b m.leader_commit))
  ]

  handle_append_entries-Tracks :
      (n : Node S) (m : Message) (now : ℕ) → Tracks n (handle_append_entries n m now)
  unfolding handle_append_entries
  handle_append_entries-Tracks n m now =
      let n1 = handle_term_update n m in
      let n2 = record n1 {
        leader_id = copy max_id m.source;
        election_deadline_ms = now + next_election_timeout n1 now;
      } in
      Tracks-trans n n1 _ (handle_term_update-Tracks n m)
        (elim (Bool-cases (m.term == n1.current_term)) [
          | inr other ↦ rw other (IsQuiet-Tracks n1 _ (queue_message-IsQuiet n1 _))
          | inl own ↦ rw own (
              Tracks-trans n1 n2 _ (IsQuiet-Tracks n1 n2 (ground arith)) (
                Tracks-trans n2 (append_entries_from_leader n2 m).0 _
                  (append_entries_from_leader-Tracks n2 m)
                  (IsQuiet-Tracks _ _ (queue_message-IsQuiet _ _))))
        ])

  handle_vote_request-Tracks :
      (n : Node S) (m : Message) (now : ℕ) → Tracks n (handle_vote_request n m now)
  unfolding handle_vote_request handle_term_update queue_message
  handle_vote_request-Tracks n m now = record {
    running = ground arith;
    marks = λ clean. ground arith;
  }

  handle_vote_response-Tracks : (n : Node S) (m : Message) → Tracks n (handle_vote_response n m)
  unfolding handle_vote_response handle_term_update record_vote
  handle_vote_response-Tracks n m = record { running = ground arith; marks = λ clean. ground arith }

  append_entries-Tracks :
      (n : Node S) (now : ℕ) (ms : List Message)
      → n.pending_append_entries ≡ ms
      → Tracks n (action_handle_append_entries n now)
  unfolding action_handle_append_entries
  append_entries-Tracks n now [] e =
      rw (e, action_handle_append_entries) (IsQuiet-Tracks _ n (ground arith))
  append_entries-Tracks n now (m ∷ ms) e =
      let n1 = record n { pending_append_entries = ms } in
      rw (e, action_handle_append_entries)
        (Tracks-trans _ n1 _ (IsQuiet-Tracks _ n1 (ground arith))
          (handle_append_entries-Tracks n1 m now))

  vote_request-Tracks :
      (n : Node S) (now : ℕ) (ms : List Message)
      → n.pending_vote_requests ≡ ms
      → Tracks n (action_handle_vote_request n now)
  unfolding action_handle_vote_request
  vote_request-Tracks n now [] e =
      rw (e, action_handle_vote_request) (IsQuiet-Tracks _ n (ground arith))
  vote_request-Tracks n now (m ∷ ms) e =
      let n1 = record n { pending_vote_requests = ms } in
      rw (e, action_handle_vote_request)
        (Tracks-trans _ n1 _ (IsQuiet-Tracks _ n1 (ground arith))
          (handle_vote_request-Tracks n1 m now))

  vote-Tracks :
      (n : Node S) (now : ℕ) (ms : List Message)
      → n.pending_votes ≡ ms
      → Tracks n (action_handle_vote n now)
  unfolding action_handle_vote
  vote-Tracks n now [] e = rw (e, action_handle_vote) (IsQuiet-Tracks _ n (ground arith))
  vote-Tracks n now (m ∷ ms) e =
      let n1 = record n { pending_votes = ms } in
      rw (e, action_handle_vote)
        (Tracks-trans _ n1 _ (IsQuiet-Tracks _ n1 (ground arith))
          (handle_vote_response-Tracks n1 m))

  ignore_vote-IsQuiet : (n : Node S) (now : ℕ) → IsQuiet n (action_ignore_vote n now)
  unfolding action_ignore_vote
  ignore_vote-IsQuiet n now = ground arith

  ignore_vote_request-IsQuiet :
      (n : Node S) (now : ℕ) → IsQuiet n (action_ignore_vote_request n now)
  unfolding action_ignore_vote_request
  ignore_vote_request-IsQuiet n now = ground arith

  timeout-IsQuiet :
      (n : Node S) (now : ℕ) → IsQuiet n (action_back_to_follower_due_to_timeout n now)
  unfolding action_back_to_follower_due_to_timeout
  timeout-IsQuiet n now = ground arith

  -- A row whose action keeps track of the flag, whatever state is published first.
  TracksFiring : Transition S → Type 0
  TracksFiring t = (n : Node S) (now : ℕ) → Tracks n (fire t n now)

  by_step :
      (t : Transition S) → ((n : Node S) (now : ℕ) → Tracks n (t.action n now)) → TracksFiring t
  unfolding TracksFiring fire
  by_step t follows n now =
      Tracks-trans n (record n { state = t.to }) _ (IsQuiet-Tracks n _ (ground arith))
        (follows (record n { state = t.to }) now)

  by_quiet :
      (t : Transition S) → ((n : Node S) (now : ℕ) → IsQuiet n (t.action n now)) → TracksFiring t
  by_quiet t quiet = by_step t (λ n now. IsQuiet-Tracks n _ (quiet n now))

  transitions-TracksFiring : All TracksFiring transitions
  transitions-TracksFiring =
      by_step _ become_candidate-Tracks
      ∷∷ by_step _ (λ n now. append_entries-Tracks n now _ refl)
      ∷∷ by_step _ (λ n now. vote_request-Tracks n now _ refl)
      ∷∷ by_quiet _ ignore_vote-IsQuiet
      ∷∷ by_quiet _ timeout-IsQuiet
      ∷∷ by_quiet _ become_leader-IsQuiet
      ∷∷ by_step _ (λ n now. append_entries-Tracks n now _ refl)
      ∷∷ by_step _ (λ n now. vote_request-Tracks n now _ refl)
      ∷∷ by_step _ (λ n now. vote_request-Tracks n now _ refl)
      ∷∷ by_step _ (λ n now. vote-Tracks n now _ refl)
      ∷∷ by_step _ (λ n now. append_entries-Tracks n now _ refl)
      ∷∷ by_step _ (λ n now. vote_request-Tracks n now _ refl)
      ∷∷ by_quiet _ ignore_vote_request-IsQuiet
      ∷∷ by_quiet _ ignore_vote-IsQuiet
      ∷∷ by_quiet _ send_heartbeat-IsQuiet
      ∷∷ done

  pub evaluate-Tracks : (r : Runtime S) (n : Node S) (now : ℕ) → Tracks n (evaluate r n now)
  unfolding evaluate TracksFiring
  evaluate-Tracks r n now = elim (Option-cases (r.select n now)) [
    | inl idle ↦ rw (idle, evaluate) (IsQuiet-Tracks n n (ground arith))
    | inr (t, chosen) ↦
        rw (chosen, evaluate)
          (All-mem TracksFiring transitions-TracksFiring (r.select_enabled n now t chosen).0 n now)
  ]
