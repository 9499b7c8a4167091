-- ===== src/Replication/Batch.antt =====
-- What a leader sends to a peer: a run of its log after the previous entry, of at most 16 entries.
use raft_rx.Prelude.{
  ℕ, zero, suc, ◌+◌, ◌-◌, ◌≤◌, ◌<◌, ◌≡◌, List, [], ◌∷◌, leb, true, arith, refl, length, Bool-cases,
  inl, inr, get_or, Text,
}
use raft_rx.Types.{max_log, max_batch, Node, LogEntry, no_entry}
use raft_rx.LogIndex.{last_log_index, entry_at, physical_index}
use raft_rx.Follower.Invariant.{HasLog, IsWellFormed}
use raft_rx.Follower.Steps.{RunsFrom, HoldsAll, Agrees}
use raft_rx.Follower.Matching.{append_entries_from_leader-HoldsAll}
use raft_rx.Replication.{batch_from, batch_start, append_entries_for}
use raft_rx.Follower.{append_entries_from_leader}

module _ {S : Type 0} where
  -- An entry of the log carries its own index.
  index-entry_at :
      (n : Node S) (i : ℕ)
      → HasLog n
      → n.snapshot_last_included_index < i
      → i ≤ last_log_index n
      → (entry_at n i).index ≡ i
  unfolding entry_at last_log_index physical_index
  index-entry_at n i h lo hi = ground (arith, h.indexed (i - n.snapshot_last_included_index - 1))

  batch_from-RunsFrom :
      (n : Node S) (left i : ℕ)
      → HasLog n
      → n.snapshot_last_included_index < i
      → RunsFrom i (batch_from n left i) × HoldsAll n (batch_from n left i)
  unfolding batch_from
  batch_from-RunsFrom n zero i h lo = (tt, tt)
  batch_from-RunsFrom n (suc left) i h lo = elim (Bool-cases (leb i (last_log_index n))) [
    | inr end ↦ rw end (tt, tt)
    | inl more ↦
        let own = index-entry_at n i h lo (ground arith) in
        let next : i + 1 ≡ suc i = omega arith in
        let (runs, all) = rw next at (batch_from-RunsFrom n left (i + 1) h (omega arith)) in
        rw (more, next) ((own, runs), (λ _. (ground arith, rw own (refl, λ _. refl)), all))
  ]

  length-batch_from :
      (n : Node S) (left i : ℕ)
      → i ≤ last_log_index n + 1
      → (length (batch_from n left i) ≤ left)
        × (i + length (batch_from n left i) ≤ last_log_index n + 1)
        × (length (batch_from n left i) < left
            → i + length (batch_from n left i) ≡ last_log_index n + 1)
  unfolding batch_from
  length-batch_from n zero i h = (omega arith, omega arith, λ k. absurd (omega arith))
  length-batch_from n (suc left) i h = ground (arith, length-batch_from n left (i + 1))

  -- An entry of a run that a node holds, by its position.
  HoldsAll-at :
      (n : Node S) (k j : ℕ) (es : List LogEntry)
      → RunsFrom k es
      → HoldsAll n es
      → j < length es
      → n.snapshot_last_included_index < k + j
      → (k + j ≤ last_log_index n) × Agrees (get_or es j no_entry) (entry_at n (k + j))
  HoldsAll-at n k j [] r h lt above = absurd (omega arith)
  HoldsAll-at n k zero (e ∷ es) r h lt above =
      let here : k + 0 ≡ e.index = omega (arith, r.0) in rw here (h.0 (omega (arith, r.0)))
  HoldsAll-at n k (suc j) (e ∷ es) r h lt above =
      let there : k + suc j ≡ suc k + j = omega arith in
      rw there (HoldsAll-at n (suc k) j es r.1 h.1 (omega arith) (omega arith))

  batch_from-at :
      (n : Node S) (left i j : ℕ)
      → j < length (batch_from n left i)
      → get_or (batch_from n left i) j no_entry ≡ entry_at n (i + j)
  unfolding batch_from
  batch_from-at n zero i j lt = absurd (omega arith)
  batch_from-at n (suc left) i zero lt = let here : i + 0 ≡ i = omega arith in ground (arith, here)
  batch_from-at n (suc left) i (suc j) lt =
      let there : i + suc j ≡ i + 1 + j = omega arith in
      ground (arith, there, batch_from-at n left (i + 1) j)

  -- A leader's message for a peer, whose next index lies past the leader's snapshot and at most one
  -- past its log, and a well-formed follower that accepts it and whose slots have room up to the
  -- end of the leader's log: at every index that the message covers and the follower's snapshot
  -- does not, the follower's log has an entry that agrees with the leader's.
  pub append_entries_for-Agrees :
      (l f : Node S) (peer : Text) (i : ℕ)
      → HasLog l
      → l.snapshot_last_included_index < batch_start l peer
      → batch_start l peer ≤ last_log_index l + 1
      → IsWellFormed f
      → (append_entries_from_leader f (append_entries_for l peer)).1 ≡ true
      → last_log_index l ≤ f.snapshot_last_included_index + max_log
      → batch_start l peer ≤ i
      → i < batch_start l peer + length (append_entries_for l peer).entries
      → f.snapshot_last_included_index < i
      → let f' = (append_entries_from_leader f (append_entries_for l peer)).0 in
        (i ≤ last_log_index f') × Agrees (entry_at l i) (entry_at f' i)
  unfolding append_entries_for
  append_entries_for-Agrees l f peer i h lo hi v accepted room from to beyond =
      let b = batch_start l peer in
      let start : suc (b - 1) ≡ b = omega arith in
      let at : b + (i - b) ≡ i = omega arith in
      let (runs, _) = batch_from-RunsFrom l max_batch b h lo in
      let (few, within, whole) = length-batch_from l max_batch b hi in
      let m = append_entries_for l peer in
      let (all, reach, snapshot, kept) =
        append_entries_from_leader-HoldsAll f m v accepted (rw start runs) (omega arith) in
      let f' = (append_entries_from_leader f m).0 in
      let own : get_or m.entries (i - b) no_entry ≡ entry_at l (b + (i - b)) =
        batch_from-at l max_batch b (i - b) (omega arith) in
      let found : (b + (i - b) ≤ last_log_index f')
          × Agrees (get_or m.entries (i - b) no_entry) (entry_at f' (b + (i - b))) =
        HoldsAll-at f' b (i - b) m.entries runs all (omega arith) (omega (arith, snapshot)) in
      rw at at (rw own at found)
