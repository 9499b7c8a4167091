-- ===== src/Membership/Marks.antt =====
-- The dirty flag across the entries that a leader adds itself (c/src/raft.c).
use raft_rx.Prelude.{◌+◌, true, arith, set}
use raft_rx.Types.{Node, Command}
use raft_rx.Membership.{own_entry, append_own, maybe_drive_membership}
use raft_rx.Membership.Drive.{maybe_drive_membership_keeps}
use raft_rx.Fsm.Marks.{Tracks, Tracks-trans, IsQuiet-Tracks, broadcast-IsQuiet}

module _ {S : Type 0} where
  pub append_own-Tracks : (n : Node S) (c : Command) → Tracks n (append_own n c)
  unfolding append_own
  append_own-Tracks n c =
      let n1 = record n {
        log = set n.log n.log_count (own_entry n c);
        log_count = n.log_count + 1;
        persist_dirty = true;
      } in
      Tracks-trans n n1 _ (record { running = ground arith; marks = λ clean. ground arith })
        (IsQuiet-Tracks n1 _ (broadcast-IsQuiet n1))

  pub maybe_drive_membership-Tracks : (n : Node S) → Tracks n (maybe_drive_membership n)
  maybe_drive_membership-Tracks n =
      maybe_drive_membership_keeps (Tracks n)
        (λ m c free t. Tracks-trans n m _ t (append_own-Tracks m c))
        (λ m m' e t. Tracks-trans n m m' t (IsQuiet-Tracks m m' (ground arith))) n
        (IsQuiet-Tracks n n (ground arith))
