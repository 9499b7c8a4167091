-- ===== src/Demo/Line/Joins.antt =====
-- The pending join and merge requests of the demonstration (the loop of `cli_dump_outputs`,
-- c/examples/demo_app/src/cli_fsm.c).
use raft_rx.Prelude.{
  ℕ, true, not, ◌&&◌, ◌||◌, Option, none, some, List, [], ◌∷◌, ◌++◌, Text, codes, same, is_empty,
  if◌then◌else◌, ltb, leb, ◌==◌, length, take,
}
use raft_rx.Types.{max_id, max_nodes, copy}
use raft_rx.Members.{member_list_contains, is_leader_role}
use raft_rx.Tcp.Sending.{Network, flood_join, announce_self, send_cluster_join}
use raft_rx.Tcp.Peers.{Peer, is_known}
use raft_rx.Tcp.Frames.{
  JoinRequest, Layout, join_original, join_forwarded, join_announce, join_pending,
}
use raft_rx.Cli.{no_request}
use raft_rx.Cli.Pending.{run_pending}
use raft_rx.Demo.Line.{
  Demo, node_of, tcp_of, with_link, say, find_peer_address, collect_cluster_peers, learn_peer,
  replicate_known_cluster_peers,
}
use raft_rx.Demo.Line.Commands.{request_change}

-- Adding names to a list of at most `max_nodes`, each once.
unfoldable pub add_members : List Text → List Text → List Text
add_members members [] = members
add_members members (id ∷ ids) =
    if not (member_list_contains members id) && ltb (length members) max_nodes
    then add_members (members ++ copy max_id id ∷ []) ids
    else add_members members ids

unfoldable pub named_peers : List Peer → List Text
named_peers [] = []
named_peers (p ∷ ps) = if is_empty p.id then named_peers ps else p.id ∷ named_peers ps

-- After a pass, the three values that go over the wire have become RAFT_JOIN_PENDING.
abbrev pub settled : ℕ → ℕ
settled forwarded = if leb forwarded join_announce then join_pending else forwarded

module _ {U W : Type 0} where
  unfoldable pub request_membership_union : Demo U W → JoinRequest → Demo U W
  request_membership_union c j =
      let config = (node_of c).config_state in
      let members =
        add_members (add_members (take max_nodes config.old_members) config.new_members)
          (named_peers j.members) in
      if is_leader_role (node_of c).state && ltb (length config.old_members) (length members)
      then request_change c members
      else c

module _ {U W : Type 0} (l : Layout) (net : Network W) where
  -- One of the two loops of `forward_merge_peers_to_local_members`, with the names already served.
  unfoldable pub forward_merge :
      Demo U W → JoinRequest → List Text → List Text → Demo U W × List Text
  forward_merge c j sent [] = (c, sent)
  forward_merge c j sent (id ∷ ids) =
      if same id (node_of c).config.node_id
        || (same id j.node_id || (is_known j.members id || member_list_contains sent id))
      then forward_merge c j sent ids
      else (elim (find_peer_address c id) [
        | none ↦ forward_merge c j sent ids
        | some (host, port) ↦
            forward_merge
              (with_link c
                (send_cluster_join l net c.host.link j.members host port join_announce).0)
              j (sent ++ copy max_id id ∷ []) ids
      ])

  unfoldable pub forward_merge_peers_to_local_members : Demo U W → JoinRequest → Demo U W
  forward_merge_peers_to_local_members c j =
      let config = (node_of c).config_state in
      let (c1, sent) = forward_merge c j [] config.old_members in
      (forward_merge c1 j sent config.new_members).0

  unfoldable pub learn_peers : Demo U W → List Peer → Demo U W
  learn_peers c [] = c
  learn_peers c (p ∷ ps) =
      learn_peers
        (if same p.id (node_of c).config.node_id
          then c
          else learn_peer l net c p.id p.host p.port (is_leader_role (node_of c).state))
        ps

  unfoldable pub announce_cluster : Demo U W → JoinRequest → Demo U W
  announce_cluster c j =
      with_link c
        (send_cluster_join l net c.host.link (collect_cluster_peers c) j.host j.port
          join_announce).0

  -- What is sent for a merge request, by its `forwarded`.
  unfoldable pub answer_merge : Demo U W → JoinRequest → Demo U W
  answer_merge c j =
      if j.forwarded == join_original
      then announce_cluster
          (with_link c (flood_join l net c.host.link (record j { forwarded = join_forwarded }))) j
      else (if j.forwarded == join_forwarded
          then announce_cluster c j
          else (if j.forwarded == join_announce
              then forward_merge_peers_to_local_members c j
              else c))

  unfoldable pub handle_merge : Demo U W → JoinRequest → Demo U W × Option JoinRequest
  handle_merge c j =
      let c1 = answer_merge (learn_peers c j.members) j in
      let forwarded = settled j.forwarded in
      if is_leader_role (node_of c1).state
      then (
        record (say (codes "[cluster] merge: " ++ j.node_id)
            (replicate_known_cluster_peers l net (request_membership_union c1 j))) {
              prompt_needed = true;
            },
        none,
      )
      else (if forwarded == join_pending && ltb 0 (length j.members)
          then (c1, none)
          else (c1, some (record j { forwarded = forwarded })))

  unfoldable pub learn_if_unknown : Demo U W → JoinRequest → Demo U W
  learn_if_unknown c j =
      if is_known (tcp_of c).peers j.node_id
      then c
      else learn_peer l net c j.node_id j.host j.port (is_leader_role (node_of c).state)

  unfoldable pub answer_join : Demo U W → JoinRequest → Demo U W
  answer_join c j =
      if j.forwarded == join_original
      then with_link c
          (announce_self l net
            (flood_join l net c.host.link (record j { forwarded = join_forwarded })) j.host
            j.port).0
      else (if j.forwarded == join_forwarded
          then with_link c (announce_self l net c.host.link j.host j.port).0
          else c)

  -- The leader asks for the member that is new.
  unfoldable pub admit : Demo U W → JoinRequest → Demo U W
  admit c j =
      let members = (node_of c).config_state.old_members in
      if not (member_list_contains members j.node_id) && ltb (length members) max_nodes
      then record (say (codes "[cluster] join: " ++ j.node_id) (
          replicate_known_cluster_peers l net
            (request_change c (members ++ copy max_id j.node_id ∷ [])))) { prompt_needed = true }
      else c

  unfoldable pub handle_join : Demo U W → JoinRequest → Demo U W × Option JoinRequest
  handle_join c j =
      if j.forwarded == join_announce
      then (learn_if_unknown c j, none)
      else (let c1 = learn_if_unknown (answer_join c j) j in
          let config = (node_of c1).config_state in
          if member_list_contains config.old_members j.node_id
            || member_list_contains config.new_members j.node_id
          then (c1, none)
          else (if is_leader_role (node_of c1).state
              then (admit c1 j, none)
              else (c1, some (record j { forwarded = settled j.forwarded }))))

  unfoldable pub handle_request : Demo U W → JoinRequest → Demo U W × Option JoinRequest
  handle_request c j = if j.cluster_join then handle_merge c j else handle_join c j

  unfoldable pub handle_pending_joins : Demo U W → Demo U W
  handle_pending_joins c =
      let (c1, left) = run_pending no_request handle_request c c.pending_joins in
      record c1 { pending_joins = left }
