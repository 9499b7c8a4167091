-- ===== src/Membership/Drive.antt =====
-- What `node_maybe_drive_membership` does to a node (c/src/raft.c): it adds at most one entry, and
-- beside that touches only the state of the change.
use raft_rx.Prelude.{◌<◌, ◌≡◌, not, ◌&&◌, ◌||◌, leb, inl, inr, Text, arith, Bool-cases}
use raft_rx.Types.{
  Node, Command, MembershipState, stable, joint_pending, joint, finalizing, max_log,
}
use raft_rx.Members.{is_leader, configuration_is_joint}
use raft_rx.Replication.{joint_members_are_caught_up}
use raft_rx.Membership.{
  append_own, append_internal_command, enter_joint_op, leave_joint_op, members_key, encoded_request,
  start_joint, start_final, drive_from, maybe_drive_membership,
}

module _ {S : Type 0} where
  -- Only the state of the change differs.
  abbrev pub SameButDrive : Node S → Node S → Type 0
  SameButDrive n n' = n' ≡ record n {
    membership_state = n'.membership_state;
    joint_config_index = n'.joint_config_index;
    final_config_index = n'.final_config_index;
  }

  -- What an added entry keeps and the state of the change does not touch, the operation keeps.
  module _ (P : Node S → Type 0)
      (own : (n : Node S) (c : Command) → n.log_count < max_log → P n → P (append_own n c))
      (frame : (n n' : Node S) → SameButDrive n n' → P n → P n') where
    append_internal_command_keeps :
        (n : Node S) (op key value : Text) → P n → P (append_internal_command n op key value).0
    unfolding append_internal_command
    append_internal_command_keeps n op key value v =
        elim (Bool-cases (not (is_leader n) || leb max_log n.log_count)) [
          | inl refused ↦ rw refused v
          | inr taken ↦ rw taken (own n _ (ground arith) v)
        ]

    start_joint_keeps : (n : Node S) → P n → P (start_joint n)
    unfolding start_joint
    start_joint_keeps n v =
        frame (append_internal_command n enter_joint_op members_key (encoded_request n)).0 _
          (ground arith) (append_internal_command_keeps n _ _ _ v)

    start_final_keeps : (n : Node S) → P n → P (start_final n)
    unfolding start_final
    start_final_keeps n v =
        frame (append_internal_command n leave_joint_op members_key (encoded_request n)).0 _
          (ground arith) (append_internal_command_keeps n _ _ _ v)

    drive_from_keeps : (s : MembershipState) (n : Node S) → P n → P (drive_from s n)
    unfolding drive_from
    drive_from_keeps stable n v =
        elim (Bool-cases
          (n.requested_membership_pending && not (configuration_is_joint n.config_state))) [
            | inl due ↦ rw due (start_joint_keeps n v)
            | inr not_due ↦ rw not_due v
          ]
    drive_from_keeps joint_pending n v = frame n _ (ground arith) v
    drive_from_keeps joint n v =
        elim (Bool-cases (configuration_is_joint n.config_state && joint_members_are_caught_up n)) [
          | inl due ↦ rw due (start_final_keeps n v)
          | inr not_due ↦ rw not_due v
        ]
    drive_from_keeps finalizing n v = frame n _ (ground arith) v

    pub maybe_drive_membership_keeps : (n : Node S) → P n → P (maybe_drive_membership n)
    unfolding maybe_drive_membership
    maybe_drive_membership_keeps n v = elim (Bool-cases (not (is_leader n) || not n.running)) [
      | inl idle ↦ rw idle v
      | inr active ↦ rw active (drive_from_keeps n.membership_state n v)
    ]
