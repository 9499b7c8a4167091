-- ===== src/Demo/Line/Leader.antt =====
-- What a leader does with a pending join request of the demonstration
-- (c/examples/demo_app/src/cli_fsm.c, the loop of `cli_dump_outputs`).
use raft_rx.Prelude.{
  ℕ, ◌≤◌, ◌<◌, ◌≡◌, ◌⊎◌, ◌∙◌, Bool, true, false, none, List, [], ◌∷◌, ◌++◌, Text, arith, refl, ap,
  inl, inr, ◌||◌, not, ltb, ◌&&◌, ◌==◌, length, same, is_empty,
}
use raft_rx.Types.{Node, Command, max_nodes, max_id, copy}
use raft_rx.Members.{is_leader, is_leader_role, member_list_contains}
use raft_rx.Members.Names.{AllIds}
use raft_rx.Membership.Joining.{
  asked, is_stranger, contains-with_member, request_membership_change-with_member,
  is_leader-is_leader_role, le_cases,
}
use raft_rx.Lifecycle
use raft_rx.Kv.{Pair}
use raft_rx.Tcp.{add_peer}
use raft_rx.Tcp.Peers.{Peer}
use raft_rx.Tcp.Frames.{JoinRequest, Layout, join_announce}
use raft_rx.Tcp.Sending.{Network}
use raft_rx.Demo.Line.{
  Demo, node_of, tcp_of, with_tcp, say, submit, queue_peer_set, learn_peer, queue_peer_sets,
  replicate_known_cluster_peers, peer_set_command, collect_cluster_peers,
}
use raft_rx.Demo.Line.Commands.{request_change}
use raft_rx.Demo.Line.Joins.{learn_if_unknown, answer_join, admit, handle_join}

module _ {U W : Type 0} (l : Layout) (net : Network W) where
  -- Commands, peers and announcements leave the node as it is.
  submit-node_of : (c : Demo U W) (cmd : Command) → node_of (submit l net c cmd).0 ≡ node_of c
  unfolding submit Lifecycle.submit_command
  submit-node_of c cmd = ground arith

  queue_peer_set-node_of :
      (c : Demo U W) (id host : Text) (port : ℕ)
      → node_of (queue_peer_set l net c id host port) ≡ node_of c
  unfolding queue_peer_set
  queue_peer_set-node_of c id host port =
      ground (arith, submit-node_of c (peer_set_command id host port))

  learn_peer-node_of :
      (c : Demo U W) (id host : Text) (port : ℕ) (replicate : Bool)
      → node_of (learn_peer l net c id host port replicate) ≡ node_of c
  unfolding learn_peer
  learn_peer-node_of c id host port replicate =
      ground
        (arith, queue_peer_set-node_of (with_tcp c (add_peer (tcp_of c) id host port)) id host port)

  queue_peer_sets-node_of :
      (ps : List Peer) (c : Demo U W) → node_of (queue_peer_sets l net c ps) ≡ node_of c
  unfolding queue_peer_sets
  queue_peer_sets-node_of [] c = refl
  queue_peer_sets-node_of (p ∷ ps) c =
      queue_peer_sets-node_of ps _ ∙ queue_peer_set-node_of c p.id p.host p.port

  replicate-node_of : (c : Demo U W) → node_of (replicate_known_cluster_peers l net c) ≡ node_of c
  unfolding replicate_known_cluster_peers
  replicate-node_of c = ground (arith, queue_peer_sets-node_of (collect_cluster_peers c) c)

  learn_if_unknown-node_of :
      (c : Demo U W) (j : JoinRequest) → node_of (learn_if_unknown l net c j) ≡ node_of c
  unfolding learn_if_unknown
  learn_if_unknown-node_of c j =
      ground
        (arith, learn_peer-node_of c j.node_id j.host j.port (is_leader_role (node_of c).state))

  answer_join-node_of :
      (c : Demo U W) (j : JoinRequest) → node_of (answer_join l net c j) ≡ node_of c
  unfolding answer_join
  answer_join-node_of c j = ground arith

  admit-asked :
      (c : Demo U W) (j : JoinRequest)
      → let members = (node_of c).config_state.old_members in
        is_leader (node_of c) ≡ true
        → member_list_contains members j.node_id ≡ false
        → AllIds members
        → length members < max_nodes
        → (0 < length j.node_id) × (length j.node_id < max_id)
        → node_of (admit l net c j) ≡ asked (node_of c) j.node_id
  unfolding admit say request_change
  admit-asked c j leads new a room fits =
      let members = (node_of c).config_state.old_members in
      let free : ltb (length members) max_nodes ≡ true = ground (arith, room) in
      rw (new, free)
        (replicate-node_of (request_change c (members ++ copy max_id j.node_id ∷ []))
          ∙ request_membership_change-with_member (node_of c) j.node_id leads a room fits)

  admit-full :
      (c : Demo U W) (j : JoinRequest)
      → length (node_of c).config_state.old_members ≡ max_nodes
      → node_of (admit l net c j) ≡ node_of c
  unfolding admit
  admit-full c j full =
      let taken : ltb (length (node_of c).config_state.old_members) max_nodes ≡ false =
        ground (arith, full) in
      rw taken ground arith

  handle_join-admits :
      (c : Demo U W) (j : JoinRequest)
      → is_leader_role (node_of c).state ≡ true
      → (j.forwarded == join_announce) ≡ false
      → is_stranger (node_of c) j.node_id ≡ true
      → (c1 : Demo U W) × (node_of c1 ≡ node_of c)
        × (handle_join l net c j ≡ (admit l net c1 j, none))
  unfolding handle_join
  handle_join-admits c j role asks new =
      let c1 = learn_if_unknown l net (answer_join l net c j) j in
      let e : node_of c1 ≡ node_of c =
        learn_if_unknown-node_of (answer_join l net c j) j ∙ answer_join-node_of c j in
      let config = (node_of c).config_state in
      let apart : (member_list_contains config.old_members j.node_id
            || member_list_contains config.new_members j.node_id)
          ≡ false =
        ground (arith, new) in
      (c1, e, rw (asks, e, apart, role) refl)

  -- A node that runs, is a member and leads has at most eight old members, whose names fit a
  -- char[16], and handles a join request that is no announcement, of a name of 1 to 15 bytes that
  -- is in neither half of the configuration. The request is taken off. If there are eight old
  -- members, the node is as it was; otherwise a change is pending whose members are exactly the old
  -- ones that are not empty and the new name.
  pub handle_join-requests :
      (c : Demo U W) (j : JoinRequest) (x : Text)
      → let n = node_of c in
        let members = n.config_state.old_members in
        is_leader n ≡ true
        → AllIds members × (length members ≤ max_nodes)
        → ((j.forwarded == join_announce) ≡ false) × (is_stranger n j.node_id ≡ true)
        → (0 < length j.node_id) × (length j.node_id < max_id)
        → let (c', left) = handle_join l net c j in
          let n' = node_of c' in
          (left ≡ none)
          × (((length members ≡ max_nodes) × (n' ≡ n))
              ⊎ ((length members < max_nodes)
                  × (n'.requested_membership_pending ≡ true)
                  × (member_list_contains n'.requested_membership x ≡ (
                      not (is_empty x) && (member_list_contains members x || same j.node_id x)))))
  handle_join-requests c j x leads (a, size) (asks, new) fits =
      let n = node_of c in
      let members = n.config_state.old_members in
      let (c1, same_node, e) = handle_join-admits c j (is_leader-is_leader_role n leads) asks new in
      elim (le_cases size) [
        | inl room ↦
            let got : node_of (admit l net c1 j) ≡ asked n j.node_id =
              admit-asked c1 j (rw same_node leads) (rw same_node (ground (arith, new)))
                (rw same_node a) (rw same_node room) fits
              ∙ ap (λ (m : Node (List Pair × U)). asked m j.node_id) same_node in
            rw (e, got)
              (refl, inr (room, refl, contains-with_member members j.node_id x a room fits.1))
        | inr full ↦ rw e (refl, inl (full, admit-full c1 j (rw same_node full) ∙ same_node))
      ]
