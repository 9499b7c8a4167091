-- ===== src/Compaction/Keeps.antt =====
-- What compaction does to the log of a node (c/src/raft.c, `node_do_compact`).
use raft_rx.Prelude.{
  ℕ, zero, suc, ◌+◌, ◌-◌, ◌≤◌, ◌<◌, ◌≡◌, false, List, [], ◌∷◌, ◌++◌, arith, refl, length, get_or,
  take, drop, get_or-drop, length-drop, length-append, length-take, Bool-cases, inl, inr, leb, ltb,
  Text, ap, ◌∙◌, dec_lt, ◌⊎◌,
}
use raft_rx.Types.{Node, LogEntry, no_entry}
use raft_rx.LogIndex.{last_log_index, term_at_index, entry_at, physical_index}
use raft_rx.Follower.Invariant.{HasLog, LogShape, IsWellFormed}
use raft_rx.Storage.{Disk}
use raft_rx.Compaction.{shift_down, compactible_index, compact_to, do_compact, lowest}

get_or-take :
    (xs ys : List LogEntry) (count i : ℕ) (d : LogEntry)
    → i < count
    → count ≤ length xs
    → get_or (take count xs ++ ys) i d ≡ get_or xs i d
get_or-take xs ys zero i d lt le = absurd (omega arith)
get_or-take [] ys (suc count) i d lt le = absurd (omega arith)
get_or-take (x ∷ xs) ys (suc count) zero d lt le = refl
get_or-take (x ∷ xs) ys (suc count) (suc i) d lt le =
    get_or-take xs ys count i d (omega arith) (omega arith)

get_or-shift_down :
    (log : List LogEntry) (from count i : ℕ)
    → i < count
    → from + count ≤ length log
    → get_or (shift_down log from count) i no_entry ≡ get_or log (from + i) no_entry
unfolding shift_down
get_or-shift_down log from count i lt le = ground (
  arith,
  get_or-take (drop from log) (drop count log) count i no_entry,
  get_or-drop log from i no_entry,
  length-drop from log,
)

length-shift_down :
    (log : List LogEntry) (from count : ℕ)
    → from + count ≤ length log
    → length (shift_down log from count) ≡ length log
unfolding shift_down
length-shift_down log from count le = omega (
  arith,
  length-append (take count (drop from log)) (drop count log),
  length-take count (drop from log),
  length-drop from log,
  length-drop count log,
)

lowest-le : (low : ℕ) (ps : List Text) (ms : List ℕ) → lowest low ps ms ≤ low
unfolding lowest
lowest-le low [] ms = omega arith
lowest-le low (p ∷ ps) [] = omega arith
lowest-le low (p ∷ ps) (m ∷ ms) = ground (arith, lowest-le m ps ms, lowest-le low ps ms)

module _ {S : Type 0} where
  -- Compacted up to `target`, a node has the log that it had: the same last index, and the same
  -- entries and terms from the target on, that of the target itself included.
  pub record Compacted (n : Node S) (target : ℕ) (n' : Node S) : Type 0 where
    pub well_formed : IsWellFormed n'
    pub snapshot : n'.snapshot_last_included_index ≡ target
    pub last : last_log_index n' ≡ last_log_index n
    pub entries : (i : ℕ) → target < i → i ≤ last_log_index n → entry_at n' i ≡ entry_at n i
    pub terms : (i : ℕ) → target ≤ i → i ≤ last_log_index n → term_at_index n' i ≡ term_at_index n i

  -- The log after a cut at `target`, with more than that in it.
  shifted_entry :
      (n : Node S) (target i : ℕ)
      → let keep = target - n.snapshot_last_included_index in
        HasLog n
        → n.snapshot_last_included_index < target
        → keep < n.log_count
        → target < i
        → i ≤ last_log_index n
        → get_or (shift_down n.log keep (n.log_count - keep)) (i - target - 1) no_entry
          ≡ get_or n.log (i - n.snapshot_last_included_index - 1) no_entry
  unfolding last_log_index
  shifted_entry n target i h above lt lo hi =
      let keep = target - n.snapshot_last_included_index in
      let e : keep + (i - target - 1) ≡ i - n.snapshot_last_included_index - 1 = omega arith in
      get_or-shift_down n.log keep (n.log_count - keep) (i - target - 1) (omega arith)
        (omega (arith, h.slots, h.room))
      ∙ ap (λ (k : ℕ). get_or n.log k no_entry) e

  shifted_LogShape :
      (n : Node S) (target : ℕ)
      → let keep = target - n.snapshot_last_included_index in
        HasLog n
        → n.snapshot_last_included_index < target
        → keep < n.log_count
        → LogShape (shift_down n.log keep (n.log_count - keep)) (n.log_count - keep) target
  shifted_LogShape n target h above lt =
      let keep = target - n.snapshot_last_included_index in
      record {
        slots =
            length-shift_down n.log keep (n.log_count - keep) (omega (arith, h.slots, h.room))
            ∙ h.slots;
        room = omega (arith, h.room);
        indexed = λ i k.
            rw
              (get_or-shift_down n.log keep (n.log_count - keep) i k
                (omega (arith, h.slots, h.room)))
              (omega (arith, h.indexed (keep + i) (omega arith)));
      }

  compact_to-shape :
      (n : Node S) (target : ℕ)
      → HasLog n
      → n.snapshot_last_included_index < target
      → target ≤ last_log_index n
      → HasLog (compact_to n target) × (last_log_index (compact_to n target) ≡ last_log_index n)
  unfolding compact_to last_log_index
  compact_to-shape n target h lo hi =
      elim (Bool-cases (leb n.log_count (target - n.snapshot_last_included_index))) [
        | inl all ↦ rw all (
          record { slots = h.slots; room = omega arith; indexed = λ i k. absurd (omega arith) },
          ground arith,
        )
        | inr more ↦ rw more (shifted_LogShape n target h lo (ground arith), ground arith)
      ]

  compact_to-entry :
      (n : Node S) (target i : ℕ)
      → HasLog n
      → n.snapshot_last_included_index < target
      → target < i
      → i ≤ last_log_index n
      → entry_at (compact_to n target) i ≡ entry_at n i
  unfolding compact_to entry_at physical_index
  compact_to-entry n target i h lo above hi =
      elim (Bool-cases (leb n.log_count (target - n.snapshot_last_included_index))) [
        | inl all ↦ absurd (unfold last_log_index in (ground arith))
        | inr more ↦ rw more (ground (arith, shifted_entry n target i h lo (ground arith) above hi))
      ]

  compact_to-term :
      (n : Node S) (target i : ℕ)
      → HasLog n
      → n.snapshot_last_included_index < target
      → target ≤ i
      → i ≤ last_log_index n
      → term_at_index (compact_to n target) i ≡ term_at_index n i
  compact_to-term n target i h lo above hi = elim (dec_lt target i) [
    | yes past ↦
        let e = compact_to-entry n target i h lo past hi in
        unfold compact_to term_at_index in (ground (arith, e))
    | no here ↦ unfold compact_to term_at_index in (ground arith)
  ]

  compact_to-Compacted :
      (n : Node S) (target : ℕ)
      → IsWellFormed n
      → n.snapshot_last_included_index < target
      → target ≤ n.last_applied
      → Compacted n target (compact_to n target)
  compact_to-Compacted n target v lo hi =
      let inside : target ≤ last_log_index n = omega (arith, v.applied_high) in
      let (shape, last) = compact_to-shape n target v.has_log lo inside in
      record {
        well_formed = record {
          has_log = shape;
          applied_low = unfold compact_to in (ground (arith, hi));
          applied_high = rw last (unfold compact_to in (ground (arith, v.applied_high)));
          committed = rw last (unfold compact_to in (ground (arith, v.committed)));
        };
        snapshot = unfold compact_to in refl;
        last = last;
        entries = λ i above le. compact_to-entry n target i v.has_log lo above le;
        terms = λ i above le. compact_to-term n target i v.has_log lo above le;
      }

  compactible_index-le : (n : Node S) → compactible_index n ≤ n.last_applied
  unfolding compactible_index
  compactible_index-le n = ground (arith, lowest-le n.last_applied n.config.peers n.match_index)

  -- On a well-formed node, compaction either has nothing to cut and changes neither the node nor
  -- the disk, or it leaves a well-formed node with the same log from the compacted index on, and
  -- that index has been applied.
  pub do_compact-Compacted :
      (n : Node S) (d : Disk)
      → IsWellFormed n
      → ((compactible_index n ≤ n.snapshot_last_included_index) × (do_compact n d ≡ (n, d)))
        ⊎ ((compactible_index n ≤ n.last_applied)
            × Compacted n (compactible_index n) (do_compact n d).0)
  unfolding do_compact
  do_compact-Compacted n d v =
      let le = compactible_index-le n in
      elim (dec_lt n.snapshot_last_included_index (compactible_index n)) [
        | no done ↦ inl (omega arith, ground arith)
        | yes lo ↦
            let inside : ltb (last_log_index n) (compactible_index n) ≡ false =
              ground (arith, v.applied_high) in
            let past : leb (compactible_index n) n.snapshot_last_included_index ≡ false =
              ground arith in
            inr (le, rw (past, inside) (compact_to-Compacted n (compactible_index n) v lo le))
      ]
