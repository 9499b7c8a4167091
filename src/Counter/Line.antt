-- ===== src/Counter/Line.antt =====
-- The command line of the counter (c/examples/counter/src/counter_cli.c). What it prints on stdout is
-- a list of lines; what it prints on stderr is left out.
use raft_rx.Prelude.{
  ℕ, Bool, true, false, ◌||◌, Option, none, some, List, [], ◌∷◌, ◌++◌, Text, codes, same, is_empty,
  if◌then◌else◌,
}
use raft_rx.Types.{Node, Role, Command, max_op, copy}
use raft_rx.Decimal.{print_int}
use raft_rx.Members.{is_leader_role}
use raft_rx.Phases.{Host}
use raft_rx.Lifecycle
use raft_rx.Tcp.Peers.{find_peer}
use raft_rx.Tcp.Frames.{JoinRequest, Layout}
use raft_rx.Tcp.{Tcp}
use raft_rx.Tcp.Sending.{Link, Network, tcp_transport, forward_cmd, request_join}
use raft_rx.Cli.{parse_host_port, words, role_name}

-- counter_cli_t, with the node and its transport.
pub record CounterCli (W : Type 0) : Type 0 where
  pub node_id : Text
  pub line : Option Text  -- `line`, if `has_line` is set
  pub prompt_needed : Bool
  pub quit_requested : Bool
  pub last_role : Role
  pub last_term : ℕ
  pub pending_joins : List JoinRequest
  pub fwd_cmds : List Command
  pub host : Host ℕ (Link W)
  pub out : List Text  -- what has been printed

-- The members, separated by commas.
unfoldable pub members_text : List Text → Bool → Text
members_text [] first = []
members_text (m ∷ ms) first = (if first then m else b',' ∷ m) ++ members_text ms false

module _ {W : Type 0} where
  abbrev pub node_of : CounterCli W → Node ℕ
  node_of c = c.host.node

  abbrev pub tcp_of : CounterCli W → Tcp
  tcp_of c = c.host.link.tcp

  abbrev pub with_link : CounterCli W → Link W → CounterCli W
  with_link c k = record c { host = record c.host { link = k } }

  abbrev pub with_tcp : CounterCli W → Tcp → CounterCli W
  with_tcp c t = with_link c (record c.host.link { tcp = t })

  unfoldable pub say : Text → CounterCli W → CounterCli W
  say s c = record c { out = c.out ++ s ∷ [] }

  unfoldable pub find_peer_address : CounterCli W → Text → Option (Text × ℕ)
  find_peer_address c id =
      if same id (node_of c).config.node_id
      then some ((tcp_of c).own_host, (tcp_of c).listen_port)
      else find_peer (tcp_of c).peers id

  unfoldable pub find_leader_address : CounterCli W → Option (Text × ℕ)
  find_leader_address c =
      if is_empty (node_of c).leader_id then none else find_peer_address c (node_of c).leader_id

  unfoldable pub print_status : CounterCli W → CounterCli W
  print_status c =
      let n = node_of c in
      say
        (codes "id="
          ++ (n.config.node_id
              ++ (codes " role="
                  ++ (role_name n.state
                      ++ (codes " term="
                          ++ (print_int n.current_term
                              ++ (codes " commit="
                                  ++ (print_int n.commit_index
                                      ++ (codes " leader="
                                          ++ ((if is_empty n.leader_id
                                                then codes "unknown"
                                                else n.leader_id)
                                              ++ (codes " value="
                                                  ++ (print_int n.user
                                                      ++ (codes " members=["
                                                          ++ (members_text
                                                            n.config_state.old_members true
                                                            ++ codes "]"))))))))))))))
        c

  unfoldable pub cmd_help : CounterCli W → CounterCli W
  cmd_help c = record c {
    out =
        c.out
        ++ codes "Commands:"
          ∷ codes "  inc              synchronized: value += 1"
          ∷ codes "  reset            synchronized: value = 0"
          ∷ codes "  get              local unsynchronized read"
          ∷ codes "  join HOST:PORT   join the cluster reachable at HOST:PORT"
          ∷ codes "  leader           show known leader"
          ∷ codes "  status           show local Raft status"
          ∷ codes "  help             this message"
          ∷ codes "  quit             exit"
          ∷ [];
  }

module _ {W : Type 0} (l : Layout) (net : Network W) where
  unfoldable pub forward_to_leader : CounterCli W → Command → CounterCli W
  forward_to_leader c cmd = elim (find_leader_address c) [
    | none ↦ say (codes "leader unknown; retry later") c
    | some (host, port) ↦
        let (k, done) = forward_cmd l net c.host.link host port cmd in
        say (if done then codes "forwarded" else codes "forward failed") (with_link c k)
  ]

  unfoldable pub submit_counter_command : CounterCli W → Text → CounterCli W
  submit_counter_command c op =
      let cmd : Command = record { op = copy max_op op; key = []; value = [] } in
      if is_leader_role (node_of c).state
      then (let (h, done) = Lifecycle.submit_command (tcp_transport l net) c.host cmd in
          say (if done then codes "queued" else codes "not a cluster member")
            (record c { host = h }))
      else forward_to_leader c cmd

  unfoldable pub cmd_join : CounterCli W → Text → ℕ → CounterCli W
  cmd_join c addr now = elim (parse_host_port addr 256) [
    | none ↦ say (codes "usage: join HOST:PORT") c
    | some (host, port) ↦
        let (n, d) = Lifecycle.reset_for_join (node_of c) c.host.disk now in
        let n1 = record n { user = 0 } in
        let t = tcp_of c in
        let (k, done) =
          request_join l net c.host.link n1.config.node_id t.own_host t.listen_port host port in
        say (if done then codes "join requested" else codes "join failed")
          (record c { host = record { node = n1; link = k; disk = d } })
  ]

  -- The chain of tests on the first word.
  unfoldable pub dispatch_words : CounterCli W → List Text → ℕ → CounterCli W
  dispatch_words c [] now = c
  dispatch_words c (cmd ∷ args) now =
      if same cmd (codes "inc")
      then submit_counter_command c (codes "inc")
      else (if same cmd (codes "reset")
          then submit_counter_command c (codes "reset")
          else (if same cmd (codes "get")
              then say (print_int (node_of c).user) c
              else (if same cmd (codes "join")
                  then (elim args [
                    | [] ↦ say (codes "usage: join HOST:PORT") c
                    | addr ∷ rest ↦ cmd_join c addr now
                  ])
                  else (if same cmd (codes "leader")
                      then say
                          (if is_empty (node_of c).leader_id
                            then codes "unknown"
                            else (node_of c).leader_id)
                          c
                      else (if same cmd (codes "status")
                          then print_status c
                          else (if same cmd (codes "help")
                              then cmd_help c
                              else (if same cmd (codes "quit") || same cmd (codes "exit")
                                  then record c { quit_requested = true }
                                  else say (codes "unknown: " ++ (cmd ++ codes " (type 'help')"))
                                      c)))))))

  unfoldable pub dispatch : CounterCli W → Text → ℕ → CounterCli W
  dispatch c line now = dispatch_words c (words 3 line) now
