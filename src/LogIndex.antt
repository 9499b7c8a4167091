-- ===== src/LogIndex.antt =====
-- The log-index helpers at the head of raft.c (c/src/raft.c).
use raft_rx.Prelude.{ℕ, ◌+◌, ◌-◌, Bool, ◌&&◌, [], Text, if◌then◌else◌, leb, ◌==◌, get_or}
use raft_rx.Types.{Node, LogEntry, no_entry}

module _ {S : Type 0} where
  unfoldable pub last_log_index : Node S → ℕ
  last_log_index n = n.snapshot_last_included_index + n.log_count

  -- log[i] for an `int` i. A read outside the array, which C leaves undefined, gives a zeroed entry.
  abbrev pub slot : Node S → ℕ → LogEntry
  slot n i = get_or n.log i no_entry

  unfoldable pub last_log_term : Node S → ℕ
  last_log_term n =
      if n.log_count == 0 then n.snapshot_last_included_term else (slot n (n.log_count - 1)).term

  unfoldable pub log_base_index : Node S → ℕ
  log_base_index n = n.snapshot_last_included_index + 1

  -- An index up to the snapshot's has no physical index; see `entry_at`.
  unfoldable pub physical_index : Node S → ℕ → ℕ
  physical_index n index = index - n.snapshot_last_included_index - 1

  unfoldable pub has_log_index : Node S → ℕ → Bool
  unfolding log_base_index last_log_index
  has_log_index n index = leb (log_base_index n) index && leb index (last_log_index n)

  -- log[physical_index(index)]
  unfoldable pub entry_at : Node S → ℕ → LogEntry
  unfolding physical_index
  entry_at n index =
      if leb index n.snapshot_last_included_index then no_entry else slot n (physical_index n index)

  unfoldable pub term_at_index : Node S → ℕ → ℕ
  term_at_index n index =
      if index == 0
      then 0
      else (if index == n.snapshot_last_included_index
          then n.snapshot_last_included_term
          else (entry_at n index).term)

  unfoldable pub leader_at_index : Node S → ℕ → Text
  leader_at_index n index =
      if index == 0
      then []
      else (if has_log_index n index then (entry_at n index).leader_id else [])
