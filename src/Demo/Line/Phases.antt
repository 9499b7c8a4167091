-- ===== src/Demo/Line/Phases.antt =====
-- The phases of the command line of the demonstration (c/examples/demo_app/src/cli_fsm.c:
-- `cli_latch_inputs`, `cli_action_execute`, `cli_dump_outputs`).
use raft_rx.Prelude.{
  ℕ, Bool, true, false, not, ◌&&◌, ◌||◌, none, some, List, [], ◌∷◌, ◌++◌, Text, codes, same,
  if◌then◌else◌, ltb, ◌==◌, length,
}
use raft_rx.Types.{Command, max_id, max_nodes, copy}
use raft_rx.Members.{member_list_contains, is_leader_role}
use raft_rx.Election.{is_candidate_role}
use raft_rx.Tcp.Sending.{Network}
use raft_rx.Tcp.Frames.{Layout}
use raft_rx.Cli.{Input, nothing, end, a_line, latch_commands, latch_joins, same_role}
use raft_rx.Demo.Line.{Demo, node_of, tcp_of, with_tcp, say, submit}
use raft_rx.Demo.Line.Commands.{without, request_change, request_join_now, dispatch}
use raft_rx.Demo.Line.Joins.{handle_pending_joins}

abbrev pub op_fwd_add : Text
op_fwd_add = codes "cluster.fwd_add"

abbrev pub op_fwd_rm : Text
op_fwd_rm = codes "cluster.fwd_rm"

abbrev pub op_fwd_leave : Text
op_fwd_leave = codes "cluster.fwd_leave"

module _ {U W : Type 0} where
  unfoldable pub latch_inputs : Demo U W → Input → Demo U W
  latch_inputs c input =
      let (t1, cmds) = latch_commands (tcp_of c) c.fwd_cmds in
      let (t2, joins) = latch_joins t1 c.pending_joins in
      let c1 = record (with_tcp c t2) { fwd_cmds = cmds; pending_joins = joins; line = none } in
      elim input [
        | nothing ↦ c1
        | end ↦ record c1 { quit_requested = true }
        | a_line s ↦ record c1 { line = some s }
      ]

  -- What has changed of the role, the term and the votes is printed, and kept for the next time.
  unfoldable pub log_transitions : Demo U W → Demo U W
  log_transitions c =
      let n = node_of c in
      let votes = length n.votes_received in
      let moved = not (same_role n.state c.last_role) || not (n.current_term == c.last_term) in
      let voted = not (same n.voted_for c.last_voted_for) in
      let standing = is_candidate_role n.state in
      let counted = standing && not (votes == c.last_vote_count) in
      record c {
        last_role = n.state;
        last_term = n.current_term;
        last_voted_for = copy max_id n.voted_for;
        last_vote_count = if standing then votes else 0;
        prompt_needed = moved || (voted || (counted || c.prompt_needed));
      }

module _ {U W : Type 0} (l : Layout) (net : Network W) where
  -- What a leader does with a command that another node forwards.
  unfoldable pub handle_forwarded : Demo U W → Command → Demo U W
  handle_forwarded c cmd =
      let members = (node_of c).config_state.old_members in
      if same cmd.op op_fwd_add
      then (if not (member_list_contains members cmd.key) && ltb (length members) max_nodes
          then record (say (codes "[fwd] addnode=" ++ cmd.key)
              (request_change c (members ++ copy max_id cmd.key ∷ []))) { prompt_needed = true }
          else c)
      else (if same cmd.op op_fwd_rm || same cmd.op op_fwd_leave
          then (if ltb (length (without members cmd.key)) (length members)
              then record (say (codes "[fwd] rmnode=" ++ cmd.key)
                  (request_change c (without members cmd.key))) { prompt_needed = true }
              else c)
          else (submit l net c cmd).0)

  unfoldable pub handle_all_forwarded : Demo U W → List Command → Demo U W
  handle_all_forwarded c [] = c
  handle_all_forwarded c (cmd ∷ cmds) = handle_all_forwarded (handle_forwarded c cmd) cmds

  unfoldable pub handle_forwarded_commands : Demo U W → Demo U W
  handle_forwarded_commands c =
      record (if is_leader_role (node_of c).state then handle_all_forwarded c c.fwd_cmds else c) {
        fwd_cmds = [];
      }

  -- A leave that has come to its end: the node joins the other cluster, or the program ends.
  unfoldable pub finish_leave : Demo U W → ℕ → Demo U W
  finish_leave c now =
      if c.leave_pending && not (node_of c).running
      then (elim c.rejoin [
        | none ↦ record c { quit_requested = true }
        | some (host, port) ↦ record (request_join_now l net c host port now) {
          rejoin = none;
          leave_pending = false;
          prompt_needed = true;
        }
      ])
      else c

  unfoldable pub dump_outputs : Demo U W → ℕ → Demo U W
  dump_outputs c now =
      let c1 = finish_leave c now in
      if c1.quit_requested
      then c1
      else (let c2 = handle_forwarded_commands (handle_pending_joins l net (log_transitions c1)) in
          if c2.prompt_needed
          then record (say (c2.node_id ++ codes "> ") c2) { prompt_needed = false }
          else c2)

  -- The evaluation of the machine of the command line: its one row fires if there is a line.
  unfoldable pub evaluate : Demo U W → ℕ → Bool → Demo U W
  evaluate c now opened = elim c.line [
    | none ↦ c
    | some s ↦ record (dispatch l net c s now opened) { prompt_needed = true }
  ]

  unfoldable pub tick : Demo U W → Input → ℕ → Bool → Demo U W
  tick c input now opened = dump_outputs (evaluate (latch_inputs c input) now opened) now
