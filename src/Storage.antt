-- ===== src/Storage.antt =====
-- c/src/raft_storage.c: what a node keeps on disk. A disk holds the three files of the node's
-- directory as their bytes, `none` for a file that is not there; a file is replaced as a whole by a
-- rename. The failures that end the process (fopen, rename, mkdir) are not modelled.
pub mod MetaFile
pub mod LogFile
pub mod SnapshotFile
pub mod Lines
pub mod Restart
pub mod Names
use Prim.Native.Nat.{min}
use MetaFile.{Meta, write_meta, read_meta, lines_of}
use LogFile.{write_log, load_lines}
use SnapshotFile.{write_snapshot, read_snapshot}
use raft_rx.Prelude.{
  Option, none, some, List, [], Text, Bool, true, false, if◌then◌else◌, ltb, take, replicate, ℕ,
  ◌+◌, ◌∷◌, ◌++◌,
}
use raft_rx.Types.{Node, Application, max_log, no_entry}
use raft_rx.LogIndex.{last_log_index}

pub record Disk : Type 0 where
  pub meta : Option Text
  pub log : Option Text
  pub snapshot : Option (List ℕ)

pub no_disk : Disk
no_disk = record { meta = none; log = none; snapshot = none }

module _ {S : Type 0} where
  -- `raft_storage_node_save`: meta.txt first, then log.txt.
  unfoldable pub node_save : Node S → Disk → Disk
  node_save n d = record {
    meta = some (write_meta n);
    log = some (write_log n);
    snapshot = d.snapshot;
  }

  -- `raft_storage_save_snapshot`
  unfoldable pub save_snapshot : Node S → ℕ → ℕ → Disk → Disk
  save_snapshot n index term d = record d {
    snapshot = some (write_snapshot index term n.snapshot_buf);
  }

  load_meta : Node S → Meta → Node S
  load_meta n m = record n {
    current_term = m.current_term;
    voted_for = m.voted_for;
    compaction_threshold = m.compaction_threshold;
    commit_index = m.commit_index;
    snapshot_last_included_index = m.snapshot_index;
    snapshot_last_included_term = m.snapshot_term;
    config_state = record {
      old_members = take m.old_count m.old_slots;
      new_members = take m.new_count m.new_slots;
      index = m.configuration_index;
    };
  }

  load_log : Node S → Option Text → Node S
  load_log n none = record n { log = replicate max_log no_entry; log_count = 0 }
  load_log n (some s) =
      let (log, count) =
        load_lines n.snapshot_last_included_index (replicate max_log no_entry) 0 (lines_of 512 s) in
      record n { log = log; log_count = count }

  clamp_commit : Node S → Node S
  clamp_commit n = record n { commit_index = min n.commit_index (last_log_index n) }

  -- The state of the application from the snapshot, if one was loaded.
  load_user : Node S → Option (List ℕ) → Node S
  load_user n none = record n {
    snapshot_buf = [];
    user = elim n.application.reload [ none ↦ n.user | some f ↦ f n.user ];
    last_applied = 0;
  }
  load_user n (some bytes) = record n {
    snapshot_buf = bytes;
    user = elim n.application.restore_snapshot [ none ↦ n.user | some f ↦ f n.user bytes ];
    last_applied = n.snapshot_last_included_index;
  }

  -- `raft_storage_node_load`
  unfoldable pub node_load : Node S → Disk → Node S
  unfolding load_meta load_log clamp_commit load_user
  node_load n d =
      let n1 = load_meta n (read_meta d.meta) in
      let n2 = clamp_commit (load_log n1 d.log) in
      load_user n2
        (read_snapshot n2.snapshot_last_included_index n2.snapshot_last_included_term d.snapshot)
