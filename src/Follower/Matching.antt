-- ===== src/Follower/Matching.antt =====
-- The loop over the entries of an AppendEntries message (c/src/raft.c,
-- `node_append_entries_from_leader`).
use raft_rx.Follower.Steps.{
  RunsFrom, Holds, HoldsAll, KeepsBelow, append_entry-KeepsBelow, truncate_at-KeepsBelow,
  KeepsBelow-trans, Agrees-present, KeepsBelow-less, KeepsBelow-refl, absent_past_end,
  present_in_log,
}
use raft_rx.Prelude.{
  ℕ, suc, ◌+◌, ◌≤◌, ◌<◌, ◌≡◌, ◌∙◌, inl, inr, Bool, true, false, List, [], ◌∷◌, leb, arith, length,
  Bool-cases,
}
use raft_rx.Types.{Node, Message, LogEntry, max_log}
use raft_rx.LogIndex.{last_log_index, physical_index, has_log_index, entry_at}
use raft_rx.Follower.{
  truncate_at, take_entry, take_entries, settle_commit, append_entries_from_leader, fits_after,
  conflicts,
}
use raft_rx.Follower.Invariant.{HasLog, IsWellFormed}

module _ {S : Type 0} where
  -- What one round of the loop does at the entry `e`, which continues the log or lies within it.
  abbrev Takes : Node S → LogEntry → Node S → Type 0
  Takes n e n' =
      KeepsBelow e.index n n'
      × (e.index ≤ last_log_index n')
      × (n.snapshot_last_included_index < e.index → Holds n' e)

  take_entry-Takes :
      (n : Node S) (rebuild : Bool) (e : LogEntry)
      → HasLog n
      → e.index ≤ last_log_index n + 1
      → e.index ≤ n.snapshot_last_included_index + max_log
      → Takes n e (take_entry n rebuild e).0
  unfolding take_entry
  take_entry-Takes n rebuild e h le room =
      elim (Bool-cases (leb e.index n.snapshot_last_included_index)) [
        | inl covered ↦ rw covered (
          KeepsBelow-refl e.index n h le,
          unfold last_log_index in (ground arith),
          λ beyond. absurd (ground arith),
        )
        | inr past ↦ elim (Bool-cases (has_log_index n e.index)) [
          | inr absent ↦
              let (at_end, free) = absent_past_end n e.index (ground arith) le room absent in
              let (keeps, holds) = append_entry-KeepsBelow n e h at_end free in
              rw (past, absent) (keeps, holds.0, λ _. holds)
          | inl present ↦ elim (Bool-cases (conflicts n e)) [
            | inr agrees ↦
                let here : Holds n e = (
                  present_in_log n e.index present,
                  Agrees-present n e (ground arith) present agrees,
                ) in
                rw (past, present, agrees) (KeepsBelow-refl e.index n h le, here.0, λ _. here)
            | inl clash ↦
                let (cut, at_end, free) = truncate_at-KeepsBelow n e.index h present in
                let (keeps, holds) =
                  append_entry-KeepsBelow (truncate_at n e.index) e cut.shape at_end free in
                rw (past, present, clash)
                  (
                    KeepsBelow-trans e.index e.index _ _ _ (omega arith) cut keeps,
                    holds.0,
                    λ _. holds,
                  )
          ]
        ]
      ]

  Holds-kept :
      (n n' : Node S) (e : LogEntry) → KeepsBelow (suc e.index) n n' → Holds n e → Holds n' e
  Holds-kept n n' e k h = (omega (arith, k.reaches), rw (k.kept e.index (omega arith)) h.1)

  -- After the loop over consecutive entries the node holds them all, and below the first it has what
  -- it had.
  take_entries-HoldsAll :
      (n : Node S) (rebuild : Bool) (k : ℕ) (es : List LogEntry)
      → HasLog n
      → RunsFrom k es
      → k ≤ last_log_index n + 1
      → k + length es ≤ n.snapshot_last_included_index + max_log + 1
      → let n' = (take_entries n rebuild es).0 in
        KeepsBelow k n n' × (k + length es ≤ last_log_index n' + 1) × HoldsAll n' es
  unfolding take_entries
  take_entries-HoldsAll n rebuild k [] h r le room = (KeepsBelow-refl k n h le, omega arith, tt)
  take_entries-HoldsAll n rebuild k (e ∷ es) h r le room =
      let (n1, b) = take_entry n rebuild e in
      let (keeps, reach, holds) =
        take_entry-Takes n rebuild e h (omega (arith, r.0)) (omega (arith, r.0)) in
      let (keeps', reach', all) =
        take_entries-HoldsAll n1 b (suc k) es keeps.shape r.1 (omega (arith, r.0))
          (omega (arith, keeps.snapshot)) in
      (
        KeepsBelow-trans k (suc k) n n1 _ (omega arith)
            (KeepsBelow-less k e.index n n1 (omega (arith, r.0)) keeps) keeps',
        omega (arith, reach'),
        (
          λ beyond.
              Holds-kept n1 _ e (KeepsBelow-less _ (suc k) n1 _ (omega (arith, r.0)) keeps')
                (holds (omega (arith, keeps'.snapshot, keeps.snapshot))),
          all,
        ),
      )

  abbrev SameLog : Node S → Node S → Type 0
  SameLog n n' =
      (n'.snapshot_last_included_index ≡ n.snapshot_last_included_index)
      × (last_log_index n' ≡ last_log_index n)
      × ((i : ℕ) → entry_at n' i ≡ entry_at n i)

  HoldsAll-same :
      (n n' : Node S) (es : List LogEntry) → SameLog n n' → HoldsAll n es → HoldsAll n' es
  HoldsAll-same n n' [] s h = tt
  HoldsAll-same n n' (e ∷ es) s h = (
    λ beyond.
        let (reach, agrees) = h.0 (omega (arith, s.0)) in
        (omega (arith, s.1), rw (s.2 e.index) agrees),
    HoldsAll-same n n' es s h.1,
  )

  settle_commit-SameLog :
      (n : Node S) (rebuild : Bool) (leader_commit : ℕ)
      → SameLog n (settle_commit n rebuild leader_commit)
  unfolding settle_commit last_log_index entry_at physical_index
  settle_commit-SameLog n rebuild leader_commit = (ground arith, ground arith, λ i. ground arith)

  -- A message whose entries follow its previous entry without a gap, and which a well-formed node
  -- accepts and has room for: afterwards the log reaches the last entry sent and agrees with every
  -- entry sent that the snapshot does not cover; the snapshot is the same, and so is the log up to
  -- the previous entry.
  pub append_entries_from_leader-HoldsAll :
      (n : Node S) (m : Message)
      → IsWellFormed n
      → (append_entries_from_leader n m).1 ≡ true
      → RunsFrom (suc m.prev_log_index) m.entries
      → m.prev_log_index + length m.entries ≤ n.snapshot_last_included_index + max_log
      → let n' = (append_entries_from_leader n m).0 in
        HoldsAll n' m.entries
        × (m.prev_log_index + length m.entries ≤ last_log_index n')
        × (n'.snapshot_last_included_index ≡ n.snapshot_last_included_index)
        × ((i : ℕ) → i ≤ m.prev_log_index → entry_at n' i ≡ entry_at n i)
  unfolding append_entries_from_leader
  append_entries_from_leader-HoldsAll n m v accepted runs room =
      let fits : fits_after n m ≡ true = ground arith in
      let (loop, rebuild) = take_entries n false m.entries in
      let (keeps, reach, all) =
        take_entries-HoldsAll n false (suc m.prev_log_index) m.entries v.has_log runs
          (unfold fits_after in (ground arith)) (omega arith) in
      let s = settle_commit-SameLog loop rebuild m.leader_commit in
      rw fits (
        HoldsAll-same loop _ m.entries s all,
        omega (arith, s.1),
        s.0 ∙ keeps.snapshot,
        λ i le. s.2 i ∙ keeps.kept i (omega arith),
      )
