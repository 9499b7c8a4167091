-- ===== src/Membership/Once.antt =====
-- The configuration of a node across the commands that it applies (c/src/raft.c,
-- `node_apply_internal_command`).
use raft_rx.Prelude.{◌≡◌, ◌<◌, ◌⊎◌, arith, false, true}
use raft_rx.Types.{Node, Command, follower}
use raft_rx.Members.{
  refresh_peers, configuration_set_stable, configuration_set_joint, self_is_member,
}
use raft_rx.Membership.{
  apply_command, apply_internal_command, apply_enter_joint, apply_leave_joint, apply_set_maxlog,
  stop_if_expelled,
}

module _ {S : Type 0} where
  -- Applying a command either leaves the configuration as it is, or replaces one whose index is
  -- below that of the entry applied, and then the new configuration has the index of that entry.
  pub apply_command-config :
      (n : Node S) (c : Command)
      → let n' = apply_command n c in
        (n'.config_state ≡ n.config_state)
        ⊎ ((n.config_state.index < n.last_applied) × (n'.config_state.index ≡ n.last_applied))
  unfolding apply_command apply_internal_command apply_enter_joint apply_leave_joint
      apply_set_maxlog stop_if_expelled refresh_peers configuration_set_stable
      configuration_set_joint
  apply_command-config n c = ground arith

  -- If a running node no longer runs after it has applied a command, then it was a member before,
  -- it is none of the new configuration, and it is a follower.
  pub apply_command-stops :
      (n : Node S) (c : Command)
      → n.running ≡ true
      → (apply_command n c).running ≡ false
      → let n' = apply_command n c in
        (self_is_member n ≡ true) × (self_is_member n' ≡ false) × (n'.state ≡ follower)
  unfolding apply_command apply_internal_command apply_enter_joint apply_leave_joint
      apply_set_maxlog stop_if_expelled refresh_peers self_is_member
  apply_command-stops n c running stopped = ground arith
