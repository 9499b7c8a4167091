-- ===== src/Counter/Phases.antt =====
-- The phases of the command line of the counter (c/examples/counter/src/counter_cli.c:
-- `cli_latch_inputs`, `cli_action_execute`, `cli_dump_outputs`).
use raft_rx.Prelude.{
  ℕ, true, false, not, ◌&&◌, ◌||◌, Option, none, some, List, [], ◌∷◌, ◌++◌, Text, codes,
  if◌then◌else◌, ltb, ◌==◌, length, take,
}
use raft_rx.Types.{Command, max_id, max_nodes, copy}
use raft_rx.Members.{member_list_contains, is_leader_role}
use raft_rx.Membership.{request_membership_change}
use raft_rx.Phases.{Host}
use raft_rx.Lifecycle
use raft_rx.Tcp.Peers.{is_known}
use raft_rx.Tcp.Frames.{
  JoinRequest, Layout, join_original, join_forwarded, join_announce, join_pending,
}
use raft_rx.Tcp.{add_peer}
use raft_rx.Tcp.Sending.{Link, Network, tcp_transport, flood_join, announce_self}
use raft_rx.Cli.{latch_commands, latch_joins, same_role, Input, nothing, end, a_line, no_request}
use raft_rx.Cli.Pending.{run_pending}
use raft_rx.Counter.Line.{CounterCli, node_of, tcp_of, with_link, with_tcp, say, dispatch}

module _ {W : Type 0} where
  unfoldable pub request_membership_add : CounterCli W → Text → CounterCli W
  request_membership_add c id =
      let n = node_of c in
      let members = take max_nodes n.config_state.old_members in
      if not (is_leader_role n.state)
      then c
      else (if not (member_list_contains members id) && ltb (length members) max_nodes
          then say (codes "[cluster] join: " ++ id) (record c {
            host = record c.host {
              node = (request_membership_change n (members ++ copy max_id id ∷ [])).0;
            };
            prompt_needed = true;
          })
          else c)

  unfoldable pub latch_inputs : CounterCli W → Input → CounterCli W
  latch_inputs c input =
      let (t1, cmds) = latch_commands (tcp_of c) c.fwd_cmds in
      let (t2, joins) = latch_joins t1 c.pending_joins in
      let c1 = record (with_tcp c t2) { fwd_cmds = cmds; pending_joins = joins; line = none } in
      elim input [
        | nothing ↦ c1
        | end ↦ record c1 { quit_requested = true }
        | a_line s ↦ record c1 { line = some s }
      ]

module _ {W : Type 0} (l : Layout) (net : Network W) where
  -- What is sent for a request, by its `forwarded`; the result is its `forwarded` afterwards.
  unfoldable pub answer : Link W → JoinRequest → Link W × ℕ
  answer k j =
      if j.forwarded == join_original
      then (
        (announce_self l net (flood_join l net k (record j { forwarded = join_forwarded })) j.host
            j.port).0,
        join_pending,
      )
      else (if j.forwarded == join_forwarded
          then ((announce_self l net k j.host j.port).0, join_pending)
          else (k, j.forwarded))

  -- The body of the loop of `handle_pending_joins`: `none` for a request that is taken off.
  unfoldable pub handle_join : CounterCli W → JoinRequest → CounterCli W × Option JoinRequest
  handle_join c j =
      if j.forwarded == join_announce
      then (with_tcp c (add_peer (tcp_of c) j.node_id j.host j.port), none)
      else (let (k, forwarded) = answer c.host.link j in
          let c1 = with_link c k in
          let c2 =
            if is_known (tcp_of c1).peers j.node_id
            then c1
            else with_tcp c1 (add_peer (tcp_of c1) j.node_id j.host j.port) in
          let config = (node_of c2).config_state in
          if member_list_contains config.old_members j.node_id
            || member_list_contains config.new_members j.node_id
          then (c2, none)
          else (if is_leader_role (node_of c2).state
              then (request_membership_add c2 j.node_id, none)
              else (c2, some (record j { forwarded = forwarded }))))

  unfoldable pub handle_pending_joins : CounterCli W → CounterCli W
  handle_pending_joins c =
      let (c1, left) = run_pending no_request handle_join c c.pending_joins in
      record c1 { pending_joins = left }

  unfoldable pub submit_all : Host ℕ (Link W) → List Command → Host ℕ (Link W)
  submit_all h [] = h
  submit_all h (c ∷ cs) = submit_all (Lifecycle.submit_command (tcp_transport l net) h c).0 cs

  unfoldable pub handle_forwarded_commands : CounterCli W → CounterCli W
  handle_forwarded_commands c = record c {
    host = if is_leader_role (node_of c).state then submit_all c.host c.fwd_cmds else c.host;
    fwd_cmds = [];
  }

  unfoldable pub dump_outputs : CounterCli W → CounterCli W
  dump_outputs c =
      if c.quit_requested
      then c
      else (let n = node_of c in
          let c1 =
            if not (same_role n.state c.last_role) || not (n.current_term == c.last_term)
            then record c { last_role = n.state; last_term = n.current_term; prompt_needed = true }
            else c in
          let c2 = handle_forwarded_commands (handle_pending_joins c1) in
          if c2.prompt_needed
          then record (say (c2.node_id ++ codes "> ") c2) { prompt_needed = false }
          else c2)

  -- The evaluation of the machine of the command line: its one row fires if there is a line.
  unfoldable pub evaluate : CounterCli W → ℕ → CounterCli W
  evaluate c now = elim c.line [
    | none ↦ c
    | some s ↦ record (dispatch l net c s now) { prompt_needed = true }
  ]

  unfoldable pub tick : CounterCli W → Input → ℕ → CounterCli W
  tick c input now = dump_outputs (evaluate (latch_inputs c input) now)
