-- ===== src/Fsm/Safety.antt =====
-- What holds of a node across one evaluation of its role machine, whichever enabled row fires.
use raft_rx.Prelude.{ℕ, ◌≡◌, inl, inr, refl, List, [], ◌∷◌, arith, Option-cases}
use raft_rx.Types.{Node, Message, Role, max_id, copy}
use raft_rx.LogIndex.{last_log_index}
use raft_rx.Election.{action_back_to_follower_due_to_timeout}
use raft_rx.Follower.Invariant.{IsWellFormed, handle_append_entries-IsWellFormed}
use raft_rx.Fsm.Rows.{All, done, ◌∷∷◌, All-mem}
use raft_rx.Fsm.Frame.{
  KeepsCore, KeepsTerm, KeepsCore-IsWellFormed, broadcast-KeepsTerm, reset_peers-KeepsTerm,
  handle_vote_request-KeepsCore, handle_vote_response-KeepsCore, action_become_candidate-KeepsCore,
}
use raft_rx.Fsm.{
  Transition, transitions, Runtime, fire, evaluate, reset_peers, action_handle_append_entries,
  action_handle_vote_request, action_ignore_vote, action_become_leader, action_handle_vote,
  action_ignore_vote_request, action_send_heartbeat,
}

module _ {S : Type 0} where
  pub action_become_leader-KeepsTerm :
      (n : Node S) (now : ℕ) → KeepsTerm n (action_become_leader n now)
  unfolding action_become_leader
  action_become_leader-KeepsTerm n now =
      let n1 = record n { leader_id = copy max_id n.config.node_id } in
      let n2 = reset_peers n1 0 n1.config.peers in
      ground (arith, reset_peers-KeepsTerm n1 0 n1.config.peers, broadcast-KeepsTerm n2)

  pub action_send_heartbeat-KeepsTerm :
      (n : Node S) (now : ℕ) → KeepsTerm n (action_send_heartbeat n now)
  unfolding action_send_heartbeat
  action_send_heartbeat-KeepsTerm n now = ground (arith, broadcast-KeepsTerm n)

  -- The invariant across the publishing of a state.
  state-IsWellFormed :
      (n : Node S) (to : Role) → IsWellFormed n → IsWellFormed (record n { state = to })
  unfolding last_log_index
  state-IsWellFormed n to v = record {
    has_log = v.has_log;
    applied_low = v.applied_low;
    applied_high = v.applied_high;
    committed = v.committed;
  }

  append_entries-IsWellFormed :
      (n : Node S) (now : ℕ) (ms : List Message)
      → n.pending_append_entries ≡ ms
      → IsWellFormed n
      → IsWellFormed (action_handle_append_entries n now)
  unfolding action_handle_append_entries last_log_index
  append_entries-IsWellFormed n now [] e v = rw (e, action_handle_append_entries) v
  append_entries-IsWellFormed n now (m ∷ ms) e v =
      rw (e, action_handle_append_entries)
        (handle_append_entries-IsWellFormed (record n { pending_append_entries = ms }) m now
          (record {
            has_log = v.has_log;
            applied_low = v.applied_low;
            applied_high = v.applied_high;
            committed = v.committed;
          }))

  pub vote_request-KeepsCore :
      (n : Node S) (now : ℕ) (ms : List Message)
      → n.pending_vote_requests ≡ ms
      → KeepsCore n (action_handle_vote_request n now)
  unfolding action_handle_vote_request
  vote_request-KeepsCore n now [] e = ground arith
  vote_request-KeepsCore n now (m ∷ ms) e =
      ground (arith, handle_vote_request-KeepsCore (record n { pending_vote_requests = ms }) m now)

  pub vote-KeepsCore :
      (n : Node S) (now : ℕ) (ms : List Message)
      → n.pending_votes ≡ ms
      → KeepsCore n (action_handle_vote n now)
  unfolding action_handle_vote
  vote-KeepsCore n now [] e = ground arith
  vote-KeepsCore n now (m ∷ ms) e =
      ground (arith, handle_vote_response-KeepsCore (record n { pending_votes = ms }) m)

  pub ignore_vote-KeepsTerm : (n : Node S) (now : ℕ) → KeepsTerm n (action_ignore_vote n now)
  unfolding action_ignore_vote
  ignore_vote-KeepsTerm n now = ground arith

  pub ignore_vote_request-KeepsTerm :
      (n : Node S) (now : ℕ) → KeepsTerm n (action_ignore_vote_request n now)
  unfolding action_ignore_vote_request
  ignore_vote_request-KeepsTerm n now = ground arith

  pub timeout-KeepsTerm :
      (n : Node S) (now : ℕ) → KeepsTerm n (action_back_to_follower_due_to_timeout n now)
  unfolding action_back_to_follower_due_to_timeout
  timeout-KeepsTerm n now = ground arith

  abbrev FiresWell : Transition S → Type 0
  FiresWell t = (n : Node S) (now : ℕ) → IsWellFormed n → IsWellFormed (fire t n now)

  by_core :
      (t : Transition S) → ((n : Node S) (now : ℕ) → KeepsCore n (t.action n now)) → FiresWell t
  unfolding fire
  by_core t keeps n now v =
      KeepsCore-IsWellFormed (record n { state = t.to }) _ (keeps (record n { state = t.to }) now)
        (state-IsWellFormed n t.to v)

  appends_well : (t : Transition S) → t.action ≡ action_handle_append_entries → FiresWell t
  unfolding fire
  appends_well t e n now v = rw e (
      append_entries-IsWellFormed (record n { state = t.to }) now n.pending_append_entries refl
        (state-IsWellFormed n t.to v))

  transitions-FiresWell : All FiresWell transitions
  transitions-FiresWell =
      by_core _ (λ n now. (action_become_candidate-KeepsCore n now).0)
      ∷∷ appends_well _ refl
      ∷∷ by_core _ (λ n now. vote_request-KeepsCore n now _ refl)
      ∷∷ by_core _ (λ n now. (ignore_vote-KeepsTerm n now).core)
      ∷∷ by_core _ (λ n now. (timeout-KeepsTerm n now).core)
      ∷∷ by_core _ (λ n now. (action_become_leader-KeepsTerm n now).core)
      ∷∷ appends_well _ refl
      ∷∷ by_core _ (λ n now. vote_request-KeepsCore n now _ refl)
      ∷∷ by_core _ (λ n now. vote_request-KeepsCore n now _ refl)
      ∷∷ by_core _ (λ n now. vote-KeepsCore n now _ refl)
      ∷∷ appends_well _ refl
      ∷∷ by_core _ (λ n now. vote_request-KeepsCore n now _ refl)
      ∷∷ by_core _ (λ n now. (ignore_vote_request-KeepsTerm n now).core)
      ∷∷ by_core _ (λ n now. (ignore_vote-KeepsTerm n now).core)
      ∷∷ by_core _ (λ n now. (action_send_heartbeat-KeepsTerm n now).core)
      ∷∷ done

  -- Whatever row the runtime fires on a well-formed node, the node stays well-formed: the log keeps
  -- its shape, and the applied prefix and the commit index stay within it.
  pub evaluate-IsWellFormed :
      (r : Runtime S) (n : Node S) (now : ℕ) → IsWellFormed n → IsWellFormed (evaluate r n now)
  unfolding evaluate
  evaluate-IsWellFormed r n now v = elim (Option-cases (r.select n now)) [
    | inl idle ↦ rw (idle, evaluate) v
    | inr (t, chosen) ↦
        rw (chosen, evaluate)
          (All-mem FiresWell transitions-FiresWell (r.select_enabled n now t chosen).0 n now v)
  ]
