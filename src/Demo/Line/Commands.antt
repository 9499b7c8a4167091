-- ===== src/Demo/Line/Commands.antt =====
-- The commands of the command line of the demonstration that change something, and `dispatch`
-- (c/examples/demo_app/src/cli_fsm.c).
use raft_rx.Prelude.{
  ℕ, Bool, true, not, ◌&&◌, none, some, List, [], ◌∷◌, ◌++◌, Text, codes, same, if◌then◌else◌, ltb,
  leb, ◌==◌, length,
}
use raft_rx.Types.{Command, max_id, max_op, max_key, max_value, max_nodes, copy}
use raft_rx.Decimal.{atoi, print_int}
use raft_rx.Members.{member_list_contains, is_leader_role, self_is_member}
use raft_rx.Membership.{request_membership_change}
use raft_rx.Lifecycle
use raft_rx.Tcp.{listen}
use raft_rx.Tcp.Sending.{Network, tcp_transport, request_join, request_cluster_join}
use raft_rx.Tcp.Peers.{max_host}
use raft_rx.Tcp.Frames.{Layout}
use raft_rx.Cli.{parse_host_port, words}
use raft_rx.Demo.Line.{
  Demo, node_of, tcp_of, with_node, with_link, with_tcp, say, submit, forward_to_leader,
  collect_cluster_peers,
}
use raft_rx.Demo.Line.Show.{print_status, cmd_leader, cmd_get, cmd_members, cmd_log, cmd_help}

abbrev pub plain_command : Text → Text → Text → Command
plain_command op key value = record {
  op = copy max_op op;
  key = copy max_key key;
  value = copy max_value value;
}

-- The commands of `dispatch`, by their first word.
pub data Verb : Type 0 where
  set_verb get_verb delete_verb status_verb leader_verb port_verb join_verb merge_verb stop_verb
        start_verb members_verb log_verb addnode_verb rmnode_verb leave_verb help_verb quit_verb
        unknown_verb :
      Verb

unfoldable pub verb_from : Text → List (Text × Verb) → Verb
verb_from word [] = unknown_verb
verb_from word ((name, v) ∷ rest) = if same word name then v else verb_from word rest

abbrev pub verbs : List (Text × Verb)
verbs =
    (codes "set", Verb.set_verb)
    ∷ (codes "get", Verb.get_verb)
    ∷ (codes "delete", Verb.delete_verb)
    ∷ (codes "status", Verb.status_verb)
    ∷ (codes "leader", Verb.leader_verb)
    ∷ (codes "port", Verb.port_verb)
    ∷ (codes "join", Verb.join_verb)
    ∷ (codes "merge", Verb.merge_verb)
    ∷ (codes "stop", Verb.stop_verb)
    ∷ (codes "start", Verb.start_verb)
    ∷ (codes "members", Verb.members_verb)
    ∷ (codes "log", Verb.log_verb)
    ∷ (codes "addnode", Verb.addnode_verb)
    ∷ (codes "rmnode", Verb.rmnode_verb)
    ∷ (codes "leave", Verb.leave_verb)
    ∷ (codes "help", Verb.help_verb)
    ∷ (codes "quit", Verb.quit_verb)
    ∷ (codes "exit", Verb.quit_verb)
    ∷ []

-- The members other than a node.
unfoldable pub without : List Text → Text → List Text
without [] id = []
without (m ∷ ms) id = if same m id then without ms id else m ∷ without ms id

module _ {U W : Type 0} where
  unfoldable pub request_change : Demo U W → List Text → Demo U W
  request_change c members = with_node c (request_membership_change (node_of c) members).0

  unfoldable pub cmd_port : Demo U W → Text → Bool → Demo U W
  cmd_port c arg opened =
      let port = atoi arg in
      let t = tcp_of c in
      if port == 0
      then say (codes "usage: port PORT") c
      else (if t.listener_started
          then say (codes "already listening on :" ++ print_int t.listen_port) c
          else (let (t1, done) = listen t port opened in
              say
                (if done
                  then codes "listening on :" ++ print_int port
                  else codes "failed to listen on port " ++ print_int port)
                (with_tcp c t1)))

module _ {U W : Type 0} (l : Layout) (net : Network W) where
  unfoldable pub submit_or_forward : Demo U W → Command → Demo U W
  submit_or_forward c cmd =
      if is_leader_role (node_of c).state
      then say (codes "queued") (submit l net c cmd).0
      else (forward_to_leader l net c cmd).0

  unfoldable pub cmd_set : Demo U W → Text → Text → Demo U W
  cmd_set c key value = submit_or_forward c (plain_command (codes "set") key value)

  unfoldable pub cmd_delete : Demo U W → Text → Demo U W
  cmd_delete c key = submit_or_forward c (plain_command (codes "delete") key [])

  unfoldable pub cmd_stop : Demo U W → Demo U W
  cmd_stop c =
      print_status
        (say (codes "stopped") (record c { host = Lifecycle.stop (tcp_transport l net) c.host }))

  unfoldable pub cmd_start : Demo U W → ℕ → Demo U W
  cmd_start c now =
      print_status (
        say (codes "started")
          (record c { host = Lifecycle.start (tcp_transport l net) c.host now }))

  unfoldable pub request_join_now : Demo U W → Text → ℕ → ℕ → Demo U W
  request_join_now c host port now =
      let t = tcp_of c in
      if not t.listener_started
      then say (codes "not listening; use: port PORT") c
      else (let (n, d) = Lifecycle.reset_for_join (node_of c) c.host.disk now in
          let n1 = record n { user = ([], n.user.1) } in
          let (k, done) =
            request_join l net c.host.link n1.config.node_id t.own_host t.listen_port host port in
          say (if done then codes "join requested" else codes "join failed")
            (record c { host = record { node = n1; link = k; disk = d } }))

  unfoldable pub cmd_leave : Demo U W → Demo U W
  cmd_leave c =
      let n = node_of c in
      let id = n.config.node_id in
      if is_leader_role n.state
      then say (codes "leaving cluster...")
          (record (request_change c (without n.config_state.old_members id)) {
            leave_pending = true;
          })
      else (let (c1, done) =
            forward_to_leader l net c (plain_command (codes "cluster.fwd_leave") id []) in
          if done then record c1 { leave_pending = true } else c1)

  unfoldable pub cmd_join : Demo U W → Text → ℕ → Demo U W
  cmd_join c addr now = elim (parse_host_port addr 256) [
    | none ↦ say (codes "usage: join HOST:PORT") c
    | some (host, port) ↦
        (if not (tcp_of c).listener_started
          then say (codes "not listening; use: port PORT") c
          else (if self_is_member (node_of c) && ltb 1 (length (node_of c).config_state.old_members)
              then say (codes "will join after leaving current cluster")
                  (cmd_leave (record c { rejoin = some (copy max_host host, port) }))
              else request_join_now c host port now))
  ]

  unfoldable pub cmd_merge : Demo U W → Text → Demo U W
  cmd_merge c addr = elim (parse_host_port addr 256) [
    | none ↦ say (codes "usage: merge HOST:PORT") c
    | some (host, port) ↦
        let members = collect_cluster_peers c in
        (if not (tcp_of c).listener_started
          then say (codes "not listening; use: port PORT") c
          else (if length members == 0
              then say (codes "no local members with known addresses") c
              else (let (k, done) = request_cluster_join l net c.host.link members host port in
                  say (if done then codes "merge requested" else codes "merge failed")
                    (with_link c k))))
  ]

  unfoldable pub cmd_addnode : Demo U W → Text → Demo U W
  cmd_addnode c id =
      let n = node_of c in
      let members = n.config_state.old_members in
      if not (is_leader_role n.state)
      then (forward_to_leader l net c (plain_command (codes "cluster.fwd_add") id [])).0
      else (if member_list_contains members id
          then say (codes "already a member: " ++ id) c
          else (if leb max_nodes (length members)
              then say (codes "cluster full") c
              else say (codes "requested addnode=" ++ id)
                  (request_change c (members ++ copy max_id id ∷ []))))

  unfoldable pub cmd_rmnode : Demo U W → Text → Demo U W
  cmd_rmnode c id =
      let n = node_of c in
      let members = n.config_state.old_members in
      if not (is_leader_role n.state)
      then (forward_to_leader l net c (plain_command (codes "cluster.fwd_rm") id [])).0
      else (if length (without members id) == length members
          then say (codes "not a member: " ++ id) c
          else say (codes "requested rmnode=" ++ id) (request_change c (without members id)))

  -- A line with its first word read. Missing words give the usage. `opened` is whether the sockets of
  -- a listener can be opened.
  unfoldable pub dispatch_verb : Demo U W → Verb → List Text → Text → ℕ → Bool → Demo U W
  dispatch_verb c set_verb (key ∷ value ∷ rest) word now opened = cmd_set c key value
  dispatch_verb c set_verb _ word now opened = say (codes "usage: set KEY VALUE") c
  dispatch_verb c get_verb (key ∷ rest) word now opened = cmd_get c key
  dispatch_verb c get_verb [] word now opened = say (codes "usage: get KEY") c
  dispatch_verb c delete_verb (key ∷ rest) word now opened = cmd_delete c key
  dispatch_verb c delete_verb [] word now opened = say (codes "usage: delete KEY") c
  dispatch_verb c status_verb args word now opened = print_status c
  dispatch_verb c leader_verb args word now opened = cmd_leader c
  dispatch_verb c port_verb (arg ∷ rest) word now opened = cmd_port c arg opened
  dispatch_verb c port_verb [] word now opened = say (codes "usage: port PORT") c
  dispatch_verb c join_verb (addr ∷ rest) word now opened = cmd_join c addr now
  dispatch_verb c join_verb [] word now opened = say (codes "usage: join HOST:PORT") c
  dispatch_verb c merge_verb (addr ∷ rest) word now opened = cmd_merge c addr
  dispatch_verb c merge_verb [] word now opened = say (codes "usage: merge HOST:PORT") c
  dispatch_verb c stop_verb args word now opened = cmd_stop c
  dispatch_verb c start_verb args word now opened = cmd_start c now
  dispatch_verb c members_verb args word now opened = cmd_members c
  dispatch_verb c log_verb args word now opened = cmd_log c
  dispatch_verb c addnode_verb (id ∷ rest) word now opened = cmd_addnode c id
  dispatch_verb c addnode_verb [] word now opened = say (codes "usage: addnode NODE") c
  dispatch_verb c rmnode_verb (id ∷ rest) word now opened = cmd_rmnode c id
  dispatch_verb c rmnode_verb [] word now opened = say (codes "usage: rmnode NODE") c
  dispatch_verb c leave_verb args word now opened = cmd_leave c
  dispatch_verb c help_verb args word now opened = cmd_help c
  dispatch_verb c quit_verb args word now opened = record c { quit_requested = true }
  dispatch_verb c unknown_verb args word now opened =
      say (codes "unknown: " ++ (word ++ codes "  (type 'help')")) c

  unfoldable pub dispatch_words : Demo U W → List Text → ℕ → Bool → Demo U W
  dispatch_words c [] now opened = c
  dispatch_words c (word ∷ args) now opened =
      dispatch_verb c (verb_from word verbs) args word now opened

  unfoldable pub dispatch : Demo U W → Text → ℕ → Bool → Demo U W
  dispatch c line now opened = dispatch_words c (words 4 line) now opened
