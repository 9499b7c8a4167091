-- ===== src/Storage/Names.antt =====
-- A load leaves a node its configuration (c/src/raft_storage.c, `raft_storage_node_load`).
use raft_rx.Prelude.{ℕ, ◌≡◌, Option, none, some, List, Text, refl, ◌∙◌}
use raft_rx.Types.{Node}
use raft_rx.Storage.MetaFile.{read_meta}
use raft_rx.Storage.SnapshotFile.{read_snapshot}
use raft_rx.Storage.{Disk, load_meta, load_log, clamp_commit, load_user, node_load}

module _ {S : Type 0} where
  load_log-config : (n : Node S) (s : Option Text) → (load_log n s).config ≡ n.config
  unfolding load_log
  load_log-config n none = refl
  load_log-config n (some s) = refl

  load_user-config : (n : Node S) (bytes : Option (List ℕ)) → (load_user n bytes).config ≡ n.config
  unfolding load_user
  load_user-config n none = refl
  load_user-config n (some bytes) = refl

  pub node_load-config : (n : Node S) (d : Disk) → (node_load n d).config ≡ n.config
  unfolding node_load clamp_commit load_meta
  node_load-config n d =
      let n1 = load_meta n (read_meta d.meta) in
      let n2 = clamp_commit (load_log n1 d.log) in
      load_user-config n2
        (read_snapshot n2.snapshot_last_included_index n2.snapshot_last_included_term d.snapshot)
      ∙ load_log-config n1 d.log
