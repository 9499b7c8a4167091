-- ===== src/Counter/Leader.antt =====
-- What a leader does with the pending join requests of the counter
-- (c/examples/counter/src/counter_cli.c, `handle_pending_joins`).
use raft_rx.Prelude.{
  ◌≤◌, ◌<◌, ◌≡◌, ◌⊎◌, ◌∙◌, true, false, not, ◌&&◌, ◌||◌, none, List, [], ◌∷◌, Text, same, is_empty,
  ◌==◌, ltb, length, take_all, arith, refl, ap, inl, inr, Bool-cases,
}
use raft_rx.Types.{max_nodes, max_id}
use raft_rx.Tcp.Frames.{JoinRequest, Layout, join_announce}
use raft_rx.Tcp.Sending.{Link, Network}
use raft_rx.Tcp.{add_peer}
use raft_rx.Members.{member_list_contains, is_leader, is_leader_role}
use raft_rx.Members.Names.{AllIds}
use raft_rx.Membership.Joining.{
  contains-with_member, request_membership_change-with_member, asked, is_stranger,
  is_leader-is_leader_role, is_leader-asked, le_cases,
}
use raft_rx.Tcp.Peers.{is_known}
use raft_rx.Cli.{no_request}
use raft_rx.Cli.Pending.{run_pending, run_pending-two}
use raft_rx.Counter.Line.{CounterCli, node_of, tcp_of, with_link, say}
use raft_rx.Counter.Phases.{request_membership_add, answer, handle_join, handle_pending_joins}

module _ {W : Type 0} where
  request_membership_add-asked :
      (c : CounterCli W) (id : Text)
      → let members = (node_of c).config_state.old_members in
        is_leader (node_of c) ≡ true
        → member_list_contains members id ≡ false
        → AllIds members
        → length members < max_nodes
        → (0 < length id) × (length id < max_id)
        → node_of (request_membership_add c id) ≡ asked (node_of c) id
  unfolding request_membership_add say
  request_membership_add-asked c id leads new a room fits =
      let members = (node_of c).config_state.old_members in
      let whole = take_all max_nodes members (omega arith) in
      let e = request_membership_change-with_member (node_of c) id leads a room fits in
      let role : is_leader_role (node_of c).state ≡ true =
        is_leader-is_leader_role (node_of c) leads in
      let free : ltb (length members) max_nodes ≡ true = ground (arith, room) in
      rw (role, whole, new, free) e

  request_membership_add-full :
      (c : CounterCli W) (id : Text)
      → length (node_of c).config_state.old_members ≡ max_nodes
      → node_of (request_membership_add c id) ≡ node_of c
  unfolding request_membership_add
  request_membership_add-full c id full =
      let members = (node_of c).config_state.old_members in
      let whole = take_all max_nodes members (omega (arith, full)) in
      let taken : ltb (length members) max_nodes ≡ false = ground (arith, full) in
      rw (whole, taken) ground arith

module _ {W : Type 0} (l : Layout) (net : Network W) where
  -- The requests that a leader answers with a change of the members go through
  -- `request_membership_add`, on a node that nothing has changed before.
  handle_join-adds :
      (c : CounterCli W) (j : JoinRequest)
      → is_leader_role (node_of c).state ≡ true
      → (j.forwarded == join_announce) ≡ false
      → is_stranger (node_of c) j.node_id ≡ true
      → (k : Link W) × (handle_join l net c j
          ≡ (request_membership_add (with_link c k) j.node_id, none))
  unfolding handle_join
  handle_join-adds c j role asks new =
      let c1 = with_link c (answer l net c.host.link j).0 in
      let t = add_peer (tcp_of c1) j.node_id j.host j.port in
      let config = (node_of c).config_state in
      let apart : (member_list_contains config.old_members j.node_id
            || member_list_contains config.new_members j.node_id)
          ≡ false =
        ground (arith, new) in
      elim (Bool-cases (is_known (tcp_of c1).peers j.node_id)) [
        | inl known ↦ (c1.host.link, rw (asks, known, apart, role) refl)
        | inr unknown ↦ (record c1.host.link { tcp = t }, rw (asks, unknown, apart, role) refl)
      ]

  handle_join-asked :
      (c : CounterCli W) (j : JoinRequest)
      → let members = (node_of c).config_state.old_members in
        is_leader (node_of c) ≡ true
        → (j.forwarded == join_announce) ≡ false
        → is_stranger (node_of c) j.node_id ≡ true
        → AllIds members
        → length members < max_nodes
        → (0 < length j.node_id) × (length j.node_id < max_id)
        → (node_of (handle_join l net c j).0 ≡ asked (node_of c) j.node_id)
          × ((handle_join l net c j).1 ≡ none)
  handle_join-asked c j leads asks new a room fits =
      let (k, e) = handle_join-adds c j (is_leader-is_leader_role (node_of c) leads) asks new in
      rw e (
        request_membership_add-asked (with_link c k) j.node_id leads ground (arith, new) a room
            fits,
        refl,
      )

  -- A leader takes off the request of a stranger: with eight old members it does nothing with it,
  -- otherwise it asks for exactly the old members that are not empty and the new name.
  handle_join-requests :
      (c : CounterCli W) (j : JoinRequest) (x : Text)
      → let n = node_of c in
        let members = n.config_state.old_members in
        is_leader n ≡ true
        → AllIds members × (length members ≤ max_nodes)
        → ((j.forwarded == join_announce) ≡ false) × (is_stranger n j.node_id ≡ true)
        → (0 < length j.node_id) × (length j.node_id < max_id)
        → let (c', left) = handle_join l net c j in
          let n' = node_of c' in
          (left ≡ none)
          × (((length members ≡ max_nodes) × (n' ≡ n))
              ⊎ ((length members < max_nodes)
                  × (n'.requested_membership_pending ≡ true)
                  × (member_list_contains n'.requested_membership x ≡ (
                      not (is_empty x) && (member_list_contains members x || same j.node_id x)))))
  handle_join-requests c j x leads (a, size) (asks, new) fits =
      let n = node_of c in
      let members = n.config_state.old_members in
      elim (le_cases size) [
        | inl room ↦
            let (e, gone) = handle_join-asked c j leads asks new a room fits in
            (
              gone,
              inr (room, rw e refl, rw e (contains-with_member members j.node_id x a room fits.1)),
            )
        | inr full ↦
            let (k, e) = handle_join-adds c j (is_leader-is_leader_role n leads) asks new in
            rw e (refl, inl (full, request_membership_add-full (with_link c k) j.node_id full))
      ]

  handle_pending_joins-two :
      (c : CounterCli W) (first second : JoinRequest)
      → c.pending_joins ≡ first ∷ second ∷ []
      → (handle_join l net c first).1 ≡ none
      → (handle_join l net (handle_join l net c first).0 second).1 ≡ none
      → handle_pending_joins l net c
        ≡ record (handle_join l net (handle_join l net c first).0 second).0 { pending_joins = [] }
  unfolding handle_pending_joins
  handle_pending_joins-two c first second pending gone1 gone2 =
      ap (λ (r : CounterCli W × List JoinRequest). record r.0 { pending_joins = r.1 })
        (ap (λ (js : List JoinRequest). run_pending no_request (handle_join l net) c js) pending
          ∙ run_pending-two no_request (handle_join l net) c first second gone1 gone2)

  -- A node that runs, is a member and leads has old members with room for one more, whose names fit
  -- a char[16]; two join requests are pending, neither an announcement, of names of 1 to 15 bytes
  -- that are in neither half of the configuration. The pass takes both off and leaves a change
  -- pending whose members are exactly the old ones that are not empty and the second name: of two
  -- different new names, the first is lost.
  pub handle_pending_joins-requests_last :
      (c : CounterCli W) (first second : JoinRequest) (x : Text)
      → let n = node_of c in
        let members = n.config_state.old_members in
        is_leader n ≡ true
        → AllIds members × (length members < max_nodes)
        → c.pending_joins ≡ first ∷ second ∷ []
        → ((first.forwarded == join_announce) ≡ false)
          × ((second.forwarded == join_announce) ≡ false)
        → (is_stranger n first.node_id ≡ true) × (is_stranger n second.node_id ≡ true)
        → ((0 < length first.node_id) × (length first.node_id < max_id))
          × ((0 < length second.node_id) × (length second.node_id < max_id))
        → let c' = handle_pending_joins l net c in
          let n' = node_of c' in
          (c'.pending_joins ≡ [])
          × (n'.requested_membership_pending ≡ true)
          × (member_list_contains n'.requested_membership x
              ≡ (not (is_empty x) && (member_list_contains members x || same second.node_id x)))
  handle_pending_joins-requests_last c first second x leads (a, room) pending (asks1, asks2)
        (new1, new2) (fits1, fits2) =
      let members = (node_of c).config_state.old_members in
      let c1 = (handle_join l net c first).0 in
      let (e1, gone1) = handle_join-asked c first leads asks1 new1 a room fits1 in
      let (e2, gone2) =
        handle_join-asked c1 second (rw e1 (is_leader-asked (node_of c) first.node_id ∙ leads))
          asks2 (rw e1 new2) (rw e1 a) (rw e1 room) fits2 in
      rw (handle_pending_joins-two c first second pending gone1 gone2) (
        refl,
        rw e2 refl,
        rw (e2, e1) (contains-with_member members second.node_id x a room fits2.1),
      )
