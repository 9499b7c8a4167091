-- ===== src/Follower/Steps.antt =====
-- What appending and truncating do to the entries of the log (c/src/raft.c, lines 484 to 521).
use raft_rx.Prelude.{
  ℕ, suc, ◌+◌, ◌-◌, ◌≤◌, ◌<◌, ◌≡◌, ◌≢◌, ◌∙◌, true, false, List, [], ◌∷◌, arith, refl,
  get_or-set_self, get_or-set_ne,
}
use raft_rx.Types.{Node, LogEntry, max_log, no_entry}
use raft_rx.LogIndex.{
  last_log_index, physical_index, has_log_index, entry_at, term_at_index, leader_at_index,
}
use raft_rx.Follower.{append_entry, truncate_at, conflicts}
use raft_rx.Follower.Invariant.{HasLog, append_entry-HasLog, truncate_at-HasLog}

-- Two entries that the program takes for the same: equal terms, and equal creators if `e` names one.
abbrev pub Agrees : LogEntry → LogEntry → Type 0
Agrees e e' = (e'.term ≡ e.term) × (e.leader_id ≢ [] → e'.leader_id ≡ e.leader_id)

-- Entries with consecutive indexes from `k` on.
abbrev pub RunsFrom : ℕ → List LogEntry → Type 0
RunsFrom k [] = Unit
RunsFrom k (e ∷ es) = (e.index ≡ k) × RunsFrom (suc k) es

module _ {S : Type 0} where
  abbrev pub Holds : Node S → LogEntry → Type 0
  Holds n e = (e.index ≤ last_log_index n) × Agrees e (entry_at n e.index)

  -- The node holds the entries that its snapshot does not cover.
  abbrev pub HoldsAll : Node S → List LogEntry → Type 0
  HoldsAll n [] = Unit
  HoldsAll n (e ∷ es) = (n.snapshot_last_included_index < e.index → Holds n e) × HoldsAll n es

  -- From `n` to `n'` nothing below the index `k` changes.
  pub record KeepsBelow (k : ℕ) (n n' : Node S) : Type 0 where
    pub shape : HasLog n'
    pub snapshot : n'.snapshot_last_included_index ≡ n.snapshot_last_included_index
    pub reaches : k ≤ last_log_index n' + 1
    pub kept : (i : ℕ) → i < k → entry_at n' i ≡ entry_at n i

  pub append_entry_at :
      (n : Node S) (e : LogEntry) (i : ℕ)
      → HasLog n
      → e.index ≡ last_log_index n + 1
      → n.log_count < max_log
      → (entry_at (append_entry n e) e.index ≡ e)
        × (i < e.index → entry_at (append_entry n e) i ≡ entry_at n i)
        × (last_log_index (append_entry n e) ≡ e.index)
        × ((append_entry n e).snapshot_last_included_index ≡ n.snapshot_last_included_index)
  unfolding append_entry last_log_index entry_at physical_index
  append_entry_at n e i h at_end free = ground (
    arith,
    h.slots,
    get_or-set_self n.log n.log_count e no_entry,
    get_or-set_ne n.log n.log_count (i - n.snapshot_last_included_index - 1) e no_entry,
  )

  pub append_entry-KeepsBelow :
      (n : Node S) (e : LogEntry)
      → HasLog n
      → e.index ≡ last_log_index n + 1
      → n.log_count < max_log
      → KeepsBelow e.index n (append_entry n e) × Holds (append_entry n e) e
  append_entry-KeepsBelow n e h at_end free =
      let (here, below, end, snap) = append_entry_at n e 0 h at_end free in
      (
        record {
          shape = append_entry-HasLog n e h;
          snapshot = snap;
          reaches = omega (arith, end);
          kept = λ i lt. (append_entry_at n e i h at_end free).1 lt;
        },
        (omega (arith, end), rw here (refl, λ _. refl)),
      )

  pub truncate_at-KeepsBelow :
      (n : Node S) (index : ℕ)
      → HasLog n
      → has_log_index n index ≡ true
      → KeepsBelow index n (truncate_at n index)
        × (index ≡ last_log_index (truncate_at n index) + 1)
        × ((truncate_at n index).log_count < max_log)
  unfolding truncate_at last_log_index entry_at physical_index has_log_index
  truncate_at-KeepsBelow n index h k = (
    record {
      shape = truncate_at-HasLog n index k h;
      snapshot = refl;
      reaches = ground arith;
      kept = λ i lt. refl;
    },
    ground arith,
    ground (arith, h.room),
  )

  pub KeepsBelow-trans :
      (k l : ℕ) (n n' n'' : Node S)
      → k ≤ l
      → KeepsBelow k n n'
      → KeepsBelow l n' n''
      → KeepsBelow k n n''
  KeepsBelow-trans k l n n' n'' h a b = record {
    shape = b.shape;
    snapshot = b.snapshot ∙ a.snapshot;
    reaches = omega (arith, b.reaches);
    kept = λ i lt. b.kept i (omega arith) ∙ a.kept i lt;
  }

  -- The entry that a node already has agrees with one that it does not find in conflict.
  pub Agrees-present :
      (n : Node S) (e : LogEntry)
      → n.snapshot_last_included_index < e.index
      → has_log_index n e.index ≡ true
      → conflicts n e ≡ false
      → Agrees e (entry_at n e.index)
  unfolding conflicts term_at_index leader_at_index
  Agrees-present n e beyond present h = ground arith

  pub KeepsBelow-less : (k l : ℕ) (n n' : Node S) → k ≤ l → KeepsBelow l n n' → KeepsBelow k n n'
  KeepsBelow-less k l n n' le h = record {
    shape = h.shape;
    snapshot = h.snapshot;
    reaches = omega (arith, h.reaches);
    kept = λ i lt. h.kept i (omega arith);
  }

  pub KeepsBelow-refl :
      (k : ℕ) (n : Node S) → HasLog n → k ≤ last_log_index n + 1 → KeepsBelow k n n
  KeepsBelow-refl k n h le = record {
    shape = h;
    snapshot = refl;
    reaches = le;
    kept = λ i lt. refl;
  }

  -- An index past the snapshot that the log lacks is past its end.
  pub absent_past_end :
      (n : Node S) (index : ℕ)
      → n.snapshot_last_included_index < index
      → index ≤ last_log_index n + 1
      → index ≤ n.snapshot_last_included_index + max_log
      → has_log_index n index ≡ false
      → (index ≡ last_log_index n + 1) × (n.log_count < max_log)
  unfolding has_log_index last_log_index
  absent_past_end n index beyond le room absent = ground arith

  pub present_in_log :
      (n : Node S) (index : ℕ) → has_log_index n index ≡ true → index ≤ last_log_index n
  unfolding has_log_index
  present_in_log n index h = ground arith
