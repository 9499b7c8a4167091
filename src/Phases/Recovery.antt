-- ===== src/Phases/Recovery.antt =====
-- What a node that crashes after a tick comes back with (c/src/raft.c, c/src/raft_storage.c).
use raft_rx.Prelude.{ℕ, ◌≡◌, ◌⊎◌, inl, inr, true}
use raft_rx.Types.{Node}
use raft_rx.Storage.{node_load}
use raft_rx.Storage.MetaFile.Whole.{IsSaveable}
use raft_rx.Storage.LogFile.Entries.{IsPrintable}
use raft_rx.Storage.LogFile.Loading.{OfFirst}
use raft_rx.Storage.Restart.{Restored, IsStorable, HasSnapshot, node_load-node_save}
use raft_rx.Follower.Invariant.{IsWellFormed}
use raft_rx.Fsm.{Runtime}
use raft_rx.Fsm.Marks.{SameFiles}
use raft_rx.Phases.{Host, Transport, tick}
use raft_rx.Phases.Safe.{tick-IsWellFormed}
use raft_rx.Phases.Saved.{tick-IsCurrent}

module _ {S T : Type 0} (tr : Transport T) where
  -- A running, well-formed node ends a tick, which sends its messages, with numbers of at most ten
  -- digits, at most eight names in each half of the configuration, names without blanks that fit a
  -- char[16], a vote other than "-", entries whose texts fit their arrays and have no newline, nor
  -- a bar but in the value, and the snapshot that its log begins after on the disk. Then either
  -- nothing that is saved has changed in the tick, nor the disk; or whatever node loads from the
  -- disk has the term, the vote, the configuration, the commit index and the log of the node, and
  -- is well-formed.
  pub tick-Restored :
      (r : Runtime S) (h : Host S T) (now : ℕ) (b : Node S)
      → h.node.running ≡ true
      → IsWellFormed h.node
      → IsSaveable (tick tr r h now).node
      → OfFirst IsPrintable (tick tr r h now).node.log_count (tick tr r h now).node.log
      → HasSnapshot (tick tr r h now).node (tick tr r h now).disk
      → let h' = tick tr r h now in
        (Restored h'.node (node_load b h'.disk) × IsWellFormed (node_load b h'.disk))
        ⊎ (SameFiles h.node h'.node × (h'.disk ≡ h.disk))
  tick-Restored r h now b up v m l s = elim (tick-IsCurrent tr r h now up) [
    | inr unchanged ↦ inr unchanged
    | inl saved ↦
        let n = (tick tr r h now).node in
        let storable : IsStorable n = record {
          meta = m;
          log = l;
          well_formed = tick-IsWellFormed tr r h now v;
        } in
        inl (rw saved at (node_load-node_save b n (tick tr r h now).disk storable s))
  ]
