-- ===== src/Storage/Restart.antt =====
-- What a node reads from its disk after a crash (c/src/raft_storage.c, `raft_storage_node_load` after
-- `raft_storage_node_save`).
use raft_rx.Prelude.{
  ℕ, ◌+◌, ◌<◌, ◌≡◌, ◌⊎◌, ◌∙◌, inl, inr, Option, none, some, List, [], ◌∷◌, ◌++◌, Text, arith, refl,
  ap, sym, get_or, replicate, take, length,
}
use raft_rx.Types.{Node, LogEntry, no_entry, max_log}
use raft_rx.LogIndex.{last_log_index}
use raft_rx.Follower.Invariant.{IsWellFormed}
use raft_rx.Storage.MetaFile.{Meta, lines_of}
use raft_rx.Storage.MetaFile.Whole.{IsSaveable, meta_of, slots_of, read_meta-write_meta}
use raft_rx.Storage.LogFile.{write_log, load_lines}
use raft_rx.Storage.LogFile.Entries.{IsPrintable}
use raft_rx.Storage.LogFile.Loading.{OfFirst, Loaded, load-write_slots}
use raft_rx.Storage.SnapshotFile.{read_snapshot}
use raft_rx.Storage.{Disk, node_save, node_load, load_meta, load_log, clamp_commit, load_user}

take_slots : (ms rest : List Text) → take (length ms) (ms ++ rest) ≡ ms
take_slots [] rest = refl
take_slots (m ∷ ms) rest = ap (λ ss. m ∷ ss) (take_slots ms rest)

module _ {S : Type 0} where
  -- The node that loads has the term, the vote, the configuration, the threshold, the snapshot's
  -- position, the commit index and the log of the node that was saved.
  pub record Restored (n n' : Node S) : Type 0 where
    pub term : n'.current_term ≡ n.current_term
    pub vote : n'.voted_for ≡ n.voted_for
    pub configuration : n'.config_state ≡ n.config_state
    pub threshold : n'.compaction_threshold ≡ n.compaction_threshold
    pub snapshot_index : n'.snapshot_last_included_index ≡ n.snapshot_last_included_index
    pub snapshot_term : n'.snapshot_last_included_term ≡ n.snapshot_last_included_term
    pub committed : n'.commit_index ≡ n.commit_index
    pub log_count : n'.log_count ≡ n.log_count
    pub slots : length n'.log ≡ max_log
    pub entries : (i : ℕ) → i < n.log_count → get_or n'.log i no_entry ≡ get_or n.log i no_entry

  -- A node whose files can be read back.
  pub record IsStorable (n : Node S) : Type 0 where
    pub meta : IsSaveable n
    pub log : OfFirst IsPrintable n.log_count n.log
    pub well_formed : IsWellFormed n

  -- The node between the loading of the log and that of the snapshot.
  loaded_log : Node S → Node S → Node S
  unfolding load_meta load_log clamp_commit
  loaded_log b n = clamp_commit (load_log (load_meta b (meta_of n)) (some (write_log n)))

  log-Loaded :
      (n : Node S)
      → IsStorable n
      → Loaded n.log (replicate max_log no_entry) 0 n.log_count (
          load_lines n.snapshot_last_included_index
            (replicate max_log no_entry)
            0
            (lines_of 512 (write_log n)))
  unfolding write_log
  log-Loaded n s =
      let h = s.well_formed.has_log in
      load-write_slots n.snapshot_last_included_index 0 n.log_count (replicate max_log no_entry)
        n.log (omega (arith, h.slots, h.room)) refl (omega (arith, h.room)) s.log
        (λ i lt. omega (arith, h.indexed i lt))

  load_meta-Restored : (b n : Node S) → (load_meta b (meta_of n)).config_state ≡ n.config_state
  unfolding load_meta meta_of
  load_meta-Restored b n =
      let c = n.config_state in
      ap
        (λ (ms : List Text). record {
          old_members = ms;
          new_members = take (length c.new_members) (slots_of c.new_members);
          index = c.index;
        })
        (take_slots c.old_members _)
      ∙ ap
          (λ (ms : List Text). record {
            old_members = c.old_members;
            new_members = ms;
            index = c.index;
          })
          (take_slots c.new_members _)

  loaded_log-Restored : (b n : Node S) → IsStorable n → Restored n (loaded_log b n)
  unfolding loaded_log load_log clamp_commit last_log_index
  loaded_log-Restored b n s =
      let l = log-Loaded n s in
      record {
        term = unfold load_meta meta_of in refl;
        vote = unfold load_meta meta_of in refl;
        configuration = load_meta-Restored b n;
        threshold = unfold load_meta meta_of in refl;
        snapshot_index = unfold load_meta meta_of in refl;
        snapshot_term = unfold load_meta meta_of in refl;
        committed = unfold load_meta meta_of in (omega (arith, l.total, s.well_formed.committed));
        log_count = unfold load_meta meta_of in (omega (arith, l.total));
        slots = unfold load_meta meta_of in l.size;
        entries = λ i lt.
            let at : i ≡ 0 + i = omega arith in
            unfold load_meta meta_of in
            (ap (λ (k : ℕ). get_or (loaded_log b n).log k no_entry) at ∙ l.entries i lt);
      }

  load_user-Restored :
      (n n' : Node S) (bytes : Option (List ℕ)) → Restored n n' → Restored n (load_user n' bytes)
  unfolding load_user
  load_user-Restored n n' none r = record {
    term = r.term;
    vote = r.vote;
    configuration = r.configuration;
    threshold = r.threshold;
    snapshot_index = r.snapshot_index;
    snapshot_term = r.snapshot_term;
    committed = r.committed;
    log_count = r.log_count;
    slots = r.slots;
    entries = r.entries;
  }
  load_user-Restored n n' (some bytes) r = record {
    term = r.term;
    vote = r.vote;
    configuration = r.configuration;
    threshold = r.threshold;
    snapshot_index = r.snapshot_index;
    snapshot_term = r.snapshot_term;
    committed = r.committed;
    log_count = r.log_count;
    slots = r.slots;
    entries = r.entries;
  }

  -- The snapshot that the node's log begins after is on the disk.
  abbrev pub HasSnapshot : Node S → Disk → Type 0
  HasSnapshot n d =
      (n.snapshot_last_included_index ≡ 0)
      ⊎ ((bytes : List ℕ) × (read_snapshot n.snapshot_last_included_index
              n.snapshot_last_included_term d.snapshot
            ≡ some bytes))

  Restored-IsWellFormed :
      (n n' : Node S)
      → IsWellFormed n
      → Restored n n'
      → n'.last_applied ≡ n.snapshot_last_included_index
      → IsWellFormed n'
  unfolding last_log_index
  Restored-IsWellFormed n n' v r at = record {
    has_log = record {
      slots = r.slots;
      room = omega (arith, r.log_count, v.has_log.room);
      indexed = λ i lt.
          let old : i < n.log_count = omega (arith, r.log_count) in
          ap (λ (e : LogEntry). e.index) (r.entries i old)
          ∙ v.has_log.indexed i old
          ∙ ap (λ (k : ℕ). k + i + 1) (sym r.snapshot_index);
    };
    applied_low = omega (arith, r.snapshot_index);
    applied_high = omega (arith, r.snapshot_index);
    committed = omega (arith, r.snapshot_index, r.committed, r.log_count, v.committed);
  }

  -- Nothing after the snapshot is applied by a node that has loaded.
  last_applied-load_user :
      (n n' : Node S) (bytes : Option (List ℕ))
      → Restored n n'
      → (n.snapshot_last_included_index ≡ 0) ⊎ ((bs : List ℕ) × (bytes ≡ some bs))
      → (load_user n' bytes).last_applied ≡ n.snapshot_last_included_index
  unfolding load_user
  last_applied-load_user n n' none r (inl zero_index) = sym zero_index
  last_applied-load_user n n' none r (inr (bs, e)) = cc
  last_applied-load_user n n' (some bytes) r h = r.snapshot_index

  node_load_saved :
      (b n : Node S) (d : Disk)
      → IsStorable n
      → node_load b (node_save n d)
        ≡ load_user
            (loaded_log b n)
            (read_snapshot n.snapshot_last_included_index n.snapshot_last_included_term d.snapshot)
  unfolding node_load node_save loaded_log load_log clamp_commit
  node_load_saved b n d s =
      let from = λ (m : Meta).
        let n2 = clamp_commit (load_log (load_meta b m) (some (write_log n))) in
        load_user n2 (
          read_snapshot n2.snapshot_last_included_index n2.snapshot_last_included_term
            d.snapshot) in
      ap from (read_meta-write_meta n s.meta) ∙ (unfold load_meta meta_of in refl)

  -- A well-formed node is saved whose numbers have at most ten digits, with at most eight names in
  -- each half of the configuration, names without blanks that fit a char[16], a vote other than
  -- "-", and entries whose texts fit their arrays and have no newline, nor a bar but in the value;
  -- and the snapshot that its log begins after is on the disk: whatever node loads from that disk
  -- has the term, the vote, the configuration, the threshold, the commit index and the log of the
  -- saved one, and is well-formed.
  pub node_load-node_save :
      (b n : Node S) (d : Disk)
      → IsStorable n
      → HasSnapshot n d
      → Restored n (node_load b (node_save n d)) × IsWellFormed (node_load b (node_save n d))
  node_load-node_save b n d s h =
      let bytes =
        read_snapshot n.snapshot_last_included_index n.snapshot_last_included_term d.snapshot in
      let r = loaded_log-Restored b n s in
      let r' = load_user-Restored n (loaded_log b n) bytes r in
      rw (node_load_saved b n d s)
        (r', Restored-IsWellFormed n _ s.well_formed r' (last_applied-load_user n _ bytes r h))
