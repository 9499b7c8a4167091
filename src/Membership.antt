-- ===== src/Membership.antt =====
-- Log commands of the engine itself and the change of members (c/src/raft.c):
-- `node_append_internal_command`, `node_apply_internal_command`, `node_apply_command`,
-- `node_maybe_drive_membership` and `raft_node_request_membership_change`.
pub mod Drive
pub mod Safe
pub mod Marks
pub mod Once
pub mod Joining
use raft_rx.Prelude.{
  ℕ, ◌+◌, Bool, true, false, not, ◌&&◌, ◌||◌, Option, none, some, List, [], Text, codes, same,
  if◌then◌else◌, ltb, leb, ◌==◌, length, set,
}
use raft_rx.Types.{
  Node, Command, LogEntry, MembershipState, stable, joint_pending, joint, finalizing, follower,
  max_id, max_log, max_nodes, max_op, max_key, max_value, copy,
}
use raft_rx.LogIndex.{last_log_index}
use raft_rx.Members.{
  normalize_members, configuration_is_joint, configuration_set_joint, configuration_set_stable,
  refresh_peers, self_is_member, is_leader,
}
use raft_rx.Replication.{broadcast_append_entries, joint_members_are_caught_up}
use raft_rx.Decimal.{atoi}
use raft_rx.Codec.{encode_member_list, decode_member_list}

unfoldable pub set_maxlog_op : Text
set_maxlog_op = codes "cluster.set_maxlog"

unfoldable pub enter_joint_op : Text
enter_joint_op = codes "cluster.enter_joint"

unfoldable pub leave_joint_op : Text
leave_joint_op = codes "cluster.leave_joint"

members_key : Text
members_key = codes "members"

unfoldable pub is_internal : Command → Bool
is_internal c = same c.op set_maxlog_op || (same c.op enter_joint_op || same c.op leave_joint_op)

is_positive : Option ℕ → Bool
is_positive none = false
is_positive (some i) = ltb 0 i

is_at : Option ℕ → ℕ → Bool
is_at none index = false
is_at (some i) index = index == i

module _ {S : Type 0} where
  -- The entry that the leader adds for a command.
  unfoldable pub own_entry : Node S → Command → LogEntry
  own_entry n c = record {
    index = last_log_index n + 1;
    term = n.current_term;
    leader_id = copy max_id n.config.node_id;
    command = c;
  }

  -- log[log_count++] = entry, and the broadcast that follows.
  unfoldable pub append_own : Node S → Command → Node S
  unfolding own_entry
  append_own n c = broadcast_append_entries (record n {
    log = set n.log n.log_count (own_entry n c);
    log_count = n.log_count + 1;
    persist_dirty = true;
  })

  -- The index of the new entry, or `none` for -1.
  unfoldable pub append_internal_command : Node S → Text → Text → Text → Node S × Option ℕ
  append_internal_command n op key value =
      if not (is_leader n) || leb max_log n.log_count then (n, none) else (
        append_own n
            (record { op = copy max_op op; key = copy max_key key; value = copy max_value value }),
        some (last_log_index n + 1),
      )

  apply_set_maxlog : Node S → Text → Node S
  apply_set_maxlog n value =
      let threshold = atoi value in
      if ltb 0 threshold
      then record n { compaction_threshold = threshold; persist_dirty = true }
      else n

  apply_enter_joint : Node S → Text → Node S
  apply_enter_joint n value =
      let new_members = decode_member_list value max_nodes in
      if leb n.last_applied n.config_state.index
      then n
      else (if ltb 0 (length new_members)
          then record (refresh_peers (record n {
            config_state =
                configuration_set_joint n.config_state.old_members new_members n.last_applied;
            membership_state = joint;
            joint_config_index = some n.last_applied;
            requested_membership = new_members;
            requested_membership_pending = true;
          })) { persist_dirty = true }
          else n)

  -- A member that the new configuration expels stops.
  stop_if_expelled : Bool → Node S → Node S
  stop_if_expelled was_member n =
      if was_member && not (self_is_member n)
      then record n { running = false; leader_id = []; votes_received = []; state = follower }
      else n

  apply_leave_joint : Node S → Text → Node S
  unfolding stop_if_expelled
  apply_leave_joint n value =
      let members = decode_member_list value max_nodes in
      if leb n.last_applied n.config_state.index
      then n
      else (if ltb 0 (length members)
          then stop_if_expelled (self_is_member n)
              (record (refresh_peers (record n {
                config_state = configuration_set_stable members n.last_applied;
                membership_state = stable;
                final_config_index = some n.last_applied;
                joint_config_index = some 0;
                requested_membership_pending = false;
                requested_membership = [];
              })) { persist_dirty = true })
          else n)

  unfoldable pub apply_internal_command : Node S → Command → Node S
  unfolding apply_set_maxlog apply_enter_joint apply_leave_joint
  apply_internal_command n c =
      if same c.op set_maxlog_op
      then apply_set_maxlog n c.value
      else (if same c.op enter_joint_op
          then apply_enter_joint n c.value
          else (if same c.op leave_joint_op then apply_leave_joint n c.value else n))

  unfoldable pub apply_command : Node S → Command → Node S
  apply_command n c =
      if is_internal c
      then apply_internal_command n c
      else (elim n.application.apply [ none ↦ n | some f ↦ record n { user = f n.user c } ])

  encoded_request : Node S → Text
  encoded_request n = encode_member_list n.requested_membership max_value

  start_joint : Node S → Node S
  start_joint n =
      let (n1, index) = append_internal_command n enter_joint_op members_key (encoded_request n) in
      let n2 = record n1 { joint_config_index = index } in
      if is_positive index then record n2 { membership_state = joint_pending } else n2

  start_final : Node S → Node S
  start_final n =
      let (n1, index) = append_internal_command n leave_joint_op members_key (encoded_request n) in
      let n2 = record n1 { final_config_index = index } in
      if is_positive index then record n2 { membership_state = finalizing } else n2

  drive_from : MembershipState → Node S → Node S
  unfolding start_joint start_final encoded_request members_key is_positive is_at
  drive_from stable n =
      if n.requested_membership_pending && not (configuration_is_joint n.config_state)
      then start_joint n
      else n
  drive_from joint_pending n =
      if configuration_is_joint n.config_state && is_at n.joint_config_index n.config_state.index
      then record n { membership_state = joint }
      else n
  drive_from joint n =
      if configuration_is_joint n.config_state && joint_members_are_caught_up n
      then start_final n
      else n
  drive_from finalizing n =
      if not (configuration_is_joint n.config_state)
        && is_at n.final_config_index n.config_state.index
      then record n { membership_state = stable }
      else n

  unfoldable pub maybe_drive_membership : Node S → Node S
  unfolding drive_from
  maybe_drive_membership n =
      if not (is_leader n) || not n.running then n else drive_from n.membership_state n

  -- The result is true for 0 and false for -1.
  unfoldable pub request_membership_change : Node S → List Text → Node S × Bool
  request_membership_change n members =
      if not (is_leader n)
      then (n, false)
      else (let wanted = normalize_members members max_nodes in
          let n1 = record n { requested_membership = wanted } in
          if length wanted == 0
          then (n1, false)
          else (record n1 { requested_membership_pending = true }, true))
