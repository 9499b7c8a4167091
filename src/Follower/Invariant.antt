-- ===== src/Follower/Invariant.antt =====
-- The shape of a node's log, and what AppendEntries messages do to it (c/src/raft.c).
use raft_rx.Prelude.{
  ℕ, ◌+◌, ◌≤◌, ◌<◌, ◌≡◌, inl, inr, Bool, true, false, ◌||◌, List, [], ◌∷◌, leb, ◌==◌, arith, refl,
  length, set, get_or, length-set, get_or-set_self, get_or-set_ne, Bool-cases,
}
use native.Mathlib.Decide.{dec_lt}
use raft_rx.Types.{Node, Message, LogEntry, max_log, no_entry}
use raft_rx.LogIndex.{last_log_index, physical_index, has_log_index}
use raft_rx.Outbox.{queue_message, queue_message-frame}
use raft_rx.Election.{handle_term_update}
use raft_rx.Follower.{
  append_entry, truncate_at, take_entry, take_entries, settle_commit, append_entries_from_leader,
  handle_append_entries, fits_after, conflicts,
}

-- The `count` live slots hold consecutive indexes that begin after the snapshot's.
pub record LogShape (log : List LogEntry) (count snapshot : ℕ) : Type 0 where
  pub slots : length log ≡ max_log
  pub room : count ≤ max_log
  pub indexed : (i : ℕ) → i < count → (get_or log i no_entry).index ≡ snapshot + i + 1

pub LogShape-set :
    (log : List LogEntry) (count snapshot : ℕ) (e : LogEntry)
    → LogShape log count snapshot
    → e.index ≡ snapshot + count + 1
    → count < max_log
    → LogShape (set log count e) (count + 1) snapshot
LogShape-set log count snapshot e h at_end free = record {
  slots = ground (arith, h.slots, length-set log count e);
  room = omega arith;
  indexed = λ i lt. elim (dec_lt i count) [
    | yes old ↦ rw (get_or-set_ne log count i e no_entry (omega arith)) (h.indexed i old)
    | no last ↦
        let here : i ≡ count = omega arith in
        rw (here, get_or-set_self log count e no_entry (omega (arith, h.slots))) at_end
  ];
}

LogShape-less :
    (log : List LogEntry) (count less snapshot : ℕ)
    → LogShape log count snapshot
    → less ≤ count
    → LogShape log less snapshot
LogShape-less log count less snapshot h le = record {
  slots = h.slots;
  room = omega (arith, h.room);
  indexed = λ i lt. h.indexed i (omega arith);
}

module _ {S : Type 0} where
  abbrev pub HasLog : Node S → Type 0
  HasLog n = LogShape n.log n.log_count n.snapshot_last_included_index

  -- The applied prefix covers the snapshot, and neither it nor the commit index passes the log.
  pub record IsWellFormed (n : Node S) : Type 0 where
    pub has_log : HasLog n
    pub applied_low : n.snapshot_last_included_index ≤ n.last_applied
    pub applied_high : n.last_applied ≤ last_log_index n
    pub committed : n.commit_index ≤ last_log_index n

  pub append_entry-HasLog : (n : Node S) (e : LogEntry) → HasLog n → HasLog (append_entry n e)
  unfolding append_entry last_log_index
  append_entry-HasLog n e h =
      ground (arith, h, LogShape-set n.log n.log_count n.snapshot_last_included_index e h)

  pub truncate_at-HasLog :
      (n : Node S) (index : ℕ)
      → has_log_index n index ≡ true
      → HasLog n
      → HasLog (truncate_at n index)
  unfolding truncate_at physical_index has_log_index
  truncate_at-HasLog n index k h =
      LogShape-less n.log n.log_count _ n.snapshot_last_included_index h (ground arith)

  -- In the loop only the log changes, and the applied prefix is cut only with the flag set.
  record LoopInv (n n' : Node S) (rebuild : Bool) : Type 0 where
    shape : HasLog n'
    frame :
        n' ≡ record n { log = n'.log; log_count = n'.log_count; persist_dirty = n'.persist_dirty }
    applied : rebuild ≡ false → n'.last_applied ≤ last_log_index n'

  append_entry-LoopInv :
      (n n' : Node S) (rebuild : Bool) (e : LogEntry)
      → LoopInv n n' rebuild
      → LoopInv n (append_entry n' e) rebuild
  unfolding append_entry last_log_index
  append_entry-LoopInv n n' rebuild e h = record {
    shape = append_entry-HasLog n' e h.shape;
    frame = ground (arith, h.frame);
    applied = ground (arith, h.applied);
  }

  truncate_at-LoopInv :
      (n n' : Node S) (rebuild : Bool) (index : ℕ)
      → has_log_index n' index ≡ true
      → LoopInv n n' rebuild
      → LoopInv n (truncate_at n' index) (leb index n'.last_applied || rebuild)
  unfolding truncate_at physical_index has_log_index last_log_index
  truncate_at-LoopInv n n' rebuild index k h = record {
    shape = truncate_at-HasLog n' index k h.shape;
    frame = ground (arith, h.frame);
    applied = ground arith;
  }

  take_entry-LoopInv :
      (n n' : Node S) (rebuild : Bool) (e : LogEntry)
      → LoopInv n n' rebuild
      → LoopInv n (take_entry n' rebuild e).0 (take_entry n' rebuild e).1
  unfolding take_entry
  take_entry-LoopInv n n' rebuild e h =
      elim (Bool-cases (leb e.index n'.snapshot_last_included_index)) [
        | inl covered ↦ rw covered h
        | inr beyond ↦ elim (Bool-cases (has_log_index n' e.index)) [
          | inr absent ↦ rw (beyond, absent) (append_entry-LoopInv n n' rebuild e h)
          | inl present ↦ elim (Bool-cases (conflicts n' e)) [
            | inr agrees ↦ rw (beyond, present, agrees) h
            | inl clash ↦
                rw (beyond, present, clash)
                  (append_entry-LoopInv n (truncate_at n' e.index) _ e
                    (truncate_at-LoopInv n n' rebuild e.index present h))
          ]
        ]
      ]

  take_entries-LoopInv :
      (n n' : Node S) (rebuild : Bool) (es : List LogEntry)
      → LoopInv n n' rebuild
      → LoopInv n (take_entries n' rebuild es).0 (take_entries n' rebuild es).1
  unfolding take_entries
  take_entries-LoopInv n n' rebuild [] h = h
  take_entries-LoopInv n n' rebuild (e ∷ es) h =
      take_entries-LoopInv n (take_entry n' rebuild e).0 (take_entry n' rebuild e).1 es
        (take_entry-LoopInv n n' rebuild e h)

  settle_commit-IsWellFormed :
      (n n' : Node S) (rebuild : Bool) (leader_commit : ℕ)
      → IsWellFormed n
      → LoopInv n n' rebuild
      → IsWellFormed (settle_commit n' rebuild leader_commit)
  unfolding settle_commit last_log_index
  settle_commit-IsWellFormed n n' rebuild leader_commit v h = record {
    has_log = ground (arith, h.shape);
    applied_low = ground (arith, v.applied_low, h.frame);
    applied_high = ground (arith, h.applied);
    committed = ground arith;
  }

  append_entries_from_leader-IsWellFormed :
      (n : Node S) (m : Message) → IsWellFormed n → IsWellFormed (append_entries_from_leader n m).0
  unfolding append_entries_from_leader
  append_entries_from_leader-IsWellFormed n m v =
      let start : LoopInv n n false = record {
        shape = v.has_log;
        frame = refl;
        applied = λ e. v.applied_high;
      } in
      elim (Bool-cases (fits_after n m)) [
        | inr no_fit ↦ rw no_fit v
        | inl fits ↦ rw fits (
            settle_commit-IsWellFormed n _ _ m.leader_commit v
              (take_entries-LoopInv n n false m.entries start))
      ]

  pub queue_message-IsWellFormed :
      (n : Node S) (m : Message) → IsWellFormed n → IsWellFormed (queue_message n m)
  unfolding last_log_index
  queue_message-IsWellFormed n m v = rw (queue_message-frame n m) (record {
    has_log = v.has_log;
    applied_low = v.applied_low;
    applied_high = v.applied_high;
    committed = v.committed;
  })

  pub handle_term_update-IsWellFormed :
      (n : Node S) (m : Message) → IsWellFormed n → IsWellFormed (handle_term_update n m)
  unfolding handle_term_update last_log_index
  handle_term_update-IsWellFormed n m v = record {
    has_log = ground (arith, v.has_log);
    applied_low = ground (arith, v.applied_low);
    applied_high = ground (arith, v.applied_high);
    committed = ground (arith, v.committed);
  }

  -- Whatever AppendEntries message a well-formed node handles, it stays well-formed: the log keeps
  -- its shape, and the applied prefix and the commit index stay within it.
  pub handle_append_entries-IsWellFormed :
      (n : Node S) (m : Message) (now : ℕ)
      → IsWellFormed n
      → IsWellFormed (handle_append_entries n m now)
  unfolding handle_append_entries last_log_index
  handle_append_entries-IsWellFormed n m now v =
      let v1 = handle_term_update-IsWellFormed n m v in
      elim (Bool-cases (m.term == (handle_term_update n m).current_term)) [
        | inl same_term ↦ rw same_term (
            queue_message-IsWellFormed _ _ (
              append_entries_from_leader-IsWellFormed _ m (record {
                has_log = v1.has_log;
                applied_low = v1.applied_low;
                applied_high = v1.applied_high;
                committed = v1.committed;
              })))
        | inr other ↦ rw other (queue_message-IsWellFormed _ _ v1)
      ]
