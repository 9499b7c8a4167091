-- ===== src/Phases/Saved.antt =====
-- What a tick leaves on the disk (c/src/raft.c): the state of the node is saved before its messages
-- are sent.
use raft_rx.Prelude.{
  ℕ, zero, suc, ◌≡◌, ◌⊎◌, ◌∙◌, inl, inr, true, false, if◌then◌else◌, not, List, [], ◌∷◌, ltb, arith,
  refl, sym, ap, Bool-cases,
}
use raft_rx.Types.{
  Node, Message, MessageKind, Command, max_log, max_queue, request_vote, request_vote_response,
  append_entries, append_entries_response,
}
use raft_rx.Members.{is_leader}
use raft_rx.Replication.{advance_commit_index}
use raft_rx.Replication.Marks.{advance_commit_index-Tracks, handle_append_entries_response-Tracks}
use raft_rx.Membership.{append_own, maybe_drive_membership}
use raft_rx.Membership.Marks.{append_own-Tracks, maybe_drive_membership-Tracks}
use raft_rx.Storage.{Disk, node_save}
use raft_rx.Storage.MetaFile.{write_meta}
use raft_rx.Storage.LogFile.{write_log}
use raft_rx.Compaction.{do_compact, compact_to}
use raft_rx.Apply.{apply_next, apply_loop, apply_committed}
use raft_rx.Fsm.{Runtime, evaluate}
use raft_rx.Fsm.Marks.{
  Marks, Marks-trans, Tracks, Tracks-trans, SameFiles, SameFiles-trans, IsQuiet-Tracks,
}
use raft_rx.Fsm.Evaluates.{evaluate-Tracks}
use raft_rx.Phases.{
  Host, Transport, sort_by, take_messages, take_commands, clear_pending, compact_if_due,
  save_if_dirty, latch_inputs, dump_outputs, tick,
}

module _ {S : Type 0} where
  sort_by-Tracks : (k : MessageKind) (n : Node S) (m : Message) → Tracks n (sort_by k n m)
  unfolding sort_by
  sort_by-Tracks append_entries n m = IsQuiet-Tracks n _ (ground arith)
  sort_by-Tracks request_vote n m = IsQuiet-Tracks n _ (ground arith)
  sort_by-Tracks request_vote_response n m = IsQuiet-Tracks n _ (ground arith)
  sort_by-Tracks append_entries_response n m = handle_append_entries_response-Tracks n m

  take_messages-Tracks : (n : Node S) (ms : List Message) → Tracks n (take_messages n ms)
  unfolding take_messages
  take_messages-Tracks n [] = IsQuiet-Tracks n n (ground arith)
  take_messages-Tracks n (m ∷ ms) =
      Tracks-trans n (sort_by m.kind n m) _ (sort_by-Tracks m.kind n m)
        (take_messages-Tracks (sort_by m.kind n m) ms)

  take_commands-Tracks : (n : Node S) (cs : List Command) → Tracks n (take_commands n cs)
  unfolding take_commands
  take_commands-Tracks n [] = IsQuiet-Tracks n n (ground arith)
  take_commands-Tracks n (c ∷ cs) = elim (Bool-cases (ltb n.log_count max_log)) [
    | inr full ↦ rw full (IsQuiet-Tracks n n (ground arith))
    | inl free ↦ rw free (
        Tracks-trans n (append_own n c) _ (append_own-Tracks n c)
          (take_commands-Tracks (append_own n c) cs))
  ]

  apply_loop-Marks : (fuel : ℕ) (n : Node S) → Marks n (apply_loop fuel n)
  unfolding apply_loop apply_next
  apply_loop-Marks zero n = λ clean. ground arith
  apply_loop-Marks (suc fuel) n = elim (Bool-cases (ltb n.last_applied n.commit_index)) [
    | inr at_end ↦ rw at_end (λ clean. ground arith)
    | inl more ↦ rw more (
        Marks-trans n (apply_next n) _ (λ clean. ground arith)
          (apply_loop-Marks fuel (apply_next n)))
  ]

  apply_committed-Marks : (n : Node S) → Marks n (apply_committed n)
  unfolding apply_committed
  apply_committed-Marks n = apply_loop-Marks _ n

  -- Compaction, which writes a snapshot, sets the flag.
  compact_if_due-Marks :
      (n : Node S) (d : Disk)
      → (compact_if_due n d).0.persist_dirty ≡ false
      → compact_if_due n d ≡ (n, d)
  unfolding compact_if_due do_compact compact_to
  compact_if_due-Marks n d clean = ground arith

  -- The files hold the node.
  abbrev pub IsSaved : Node S → Disk → Type 0
  IsSaved n d = node_save n d ≡ d

  -- Either the files hold the node, or nothing has changed since `before`, on the disk and of what
  -- belongs there.
  abbrev pub IsCurrent : Node S → Disk → Node S → Disk → Type 0
  IsCurrent before d n d' = IsSaved n d' ⊎ (SameFiles before n × (d' ≡ d))

  save_if_dirty-IsCurrent :
      (n : Node S) (d : Disk)
      → let (n', d') = save_if_dirty n d in
        IsSaved (record n' { outbox = [] }) d'
        ⊎ ((n.persist_dirty ≡ false) × SameFiles n (record n' { outbox = [] }) × (d' ≡ d))
  unfolding save_if_dirty node_save write_meta write_log
  save_if_dirty-IsCurrent n d = elim (Bool-cases n.persist_dirty) [
    | inl dirty ↦ rw dirty (inl refl)
    | inr clean ↦ rw clean (inr (refl, ground arith, refl))
  ]

  equal-SameFiles : (n n' : Node S) → n' ≡ n → SameFiles n n'
  equal-SameFiles n n' e = rw e (ground arith)

  compact_and_save-IsCurrent :
      (n : Node S) (d : Disk)
      → let (n1, d1) = compact_if_due n d in
        let (n2, d2) = save_if_dirty n1 d1 in
        IsSaved (record n2 { outbox = [] }) d2
        ⊎ ((n.persist_dirty ≡ false) × SameFiles n (record n2 { outbox = [] }) × (d2 ≡ d))
  compact_and_save-IsCurrent n d =
      let (n1, d1) = compact_if_due n d in
      elim (save_if_dirty-IsCurrent n1 d1) [
        | inl saved ↦ inl saved
        | inr (clean, same, kept) ↦
            let e = compact_if_due-Marks n d clean in
            inr (
              ap (λ (r : Node S × Disk). r.0.persist_dirty) (sym e) ∙ clean,
              SameFiles-trans n n1 _ (equal-SameFiles n n1 (ap (λ (r : Node S × Disk). r.0) e))
                  same,
              kept ∙ ap (λ (r : Node S × Disk). r.1) e,
            )
      ]

module _ {S T : Type 0} (tr : Transport T) where
  latch_inputs-Tracks : (h : Host S T) → Tracks h.node (latch_inputs tr h).node
  unfolding latch_inputs clear_pending
  latch_inputs-Tracks h =
      let n0 = clear_pending h.node in
      let start = IsQuiet-Tracks h.node n0 (ground arith) in
      let (l1, ms) = tr.recv h.link max_queue in
      let (l2, cs) = tr.recv_commands l1 max_queue in
      let n1 = take_messages n0 ms in
      let t1 = Tracks-trans h.node n0 n1 start (take_messages-Tracks n0 ms) in
      elim (Bool-cases (not h.node.running)) [
        | inl stopped ↦ rw stopped (IsQuiet-Tracks h.node _ (ground arith))
        | inr up ↦ elim (Bool-cases (is_leader n1)) [
          | inr other ↦ rw (up, other) t1
          | inl leads ↦ rw (up, leads) (Tracks-trans h.node n1 _ t1 (take_commands-Tracks n1 cs))
        ]
      ]

  disk-latch_inputs : (h : Host S T) → (latch_inputs tr h).disk ≡ h.disk
  unfolding latch_inputs
  disk-latch_inputs h = ground arith

  advance_if_leader : (n : Node S) → Tracks n (if is_leader n then advance_commit_index n else n)
  advance_if_leader n = elim (Bool-cases (is_leader n)) [
    | inl leads ↦ rw leads (advance_commit_index-Tracks n)
    | inr other ↦ rw other (IsQuiet-Tracks n n (ground arith))
  ]

  dump_outputs-IsCurrent :
      (h : Host S T)
      → h.node.running ≡ true
      → let h' = dump_outputs tr h in
        IsSaved h'.node h'.disk
        ⊎ ((h.node.persist_dirty ≡ false) × SameFiles h.node h'.node × (h'.disk ≡ h.disk))
  unfolding dump_outputs
  dump_outputs-IsCurrent h up =
      let n1 = if is_leader h.node then advance_commit_index h.node else h.node in
      let n2 = apply_committed n1 in
      let n3 = maybe_drive_membership n2 in
      let marks = Marks-trans h.node n1 n3 (advance_if_leader h.node).marks (
        Marks-trans n1 n2 n3 (apply_committed-Marks n1) (maybe_drive_membership-Tracks n2).marks) in
      simp up (elim (compact_and_save-IsCurrent n3 h.disk) [
        | inl saved ↦ inl saved
        | inr (clean, same, kept) ↦
            let (c, s) = marks clean in inr (c, SameFiles-trans h.node n3 _ s same, kept)
      ])

  pub tick-IsCurrent :
      (r : Runtime S) (h : Host S T) (now : ℕ)
      → h.node.running ≡ true
      → let h' = tick tr r h now in IsCurrent h.node h.disk h'.node h'.disk
  unfolding tick
  tick-IsCurrent r h now up =
      let h1 = latch_inputs tr h in
      let n2 = evaluate r h1.node now in
      let t =
        Tracks-trans h.node h1.node n2 (latch_inputs-Tracks h) (evaluate-Tracks r h1.node now) in
      let h2 = record h1 { node = n2 } in
      elim (dump_outputs-IsCurrent h2 (t.running ∙ up)) [
        | inl saved ↦ inl saved
        | inr (clean, same, kept) ↦
            let (c, s) = t.marks clean in
            inr (SameFiles-trans h.node n2 _ s same, kept ∙ disk-latch_inputs h)
      ]
