-- ===== src/Apply/Committed.antt =====
-- The entries that the loop of `raft_node_dump_outputs` applies (c/src/raft.c).
use raft_rx.Prelude.{
  ℕ, zero, suc, ◌+◌, ◌-◌, ◌≡◌, ◌∙◌, true, none, some, List, [], ◌∷◌, arith, refl, if◌then◌else◌,
  ltb, dec_lt,
}
use raft_rx.Types.{Node, Command, Application}
use raft_rx.LogIndex.{entry_at, physical_index}
use raft_rx.Members.{refresh_peers}
use raft_rx.Membership.{apply_command, apply_internal_command, is_internal}
use raft_rx.Apply.{apply_next, apply_loop, apply_committed}

module _ {S : Type 0} where
  -- What applying a command leaves alone: the log, the indexes, the term and the vote.
  pub record KeepsLog (n n' : Node S) : Type 0 where
    pub log : n'.log ≡ n.log
    pub log_count : n'.log_count ≡ n.log_count
    pub snapshot : n'.snapshot_last_included_index ≡ n.snapshot_last_included_index
    pub committed : n'.commit_index ≡ n.commit_index
    pub term : n'.current_term ≡ n.current_term
    pub vote : n'.voted_for ≡ n.voted_for
    pub application : n'.application ≡ n.application

  apply_internal_command-KeepsLog :
      (n : Node S) (c : Command)
      → KeepsLog n (apply_internal_command n c)
        × ((apply_internal_command n c).last_applied ≡ n.last_applied)
        × ((apply_internal_command n c).user ≡ n.user)
  unfolding apply_internal_command refresh_peers
  apply_internal_command-KeepsLog n c = ground arith

  apply_command-KeepsLog :
      (n : Node S) (c : Command)
      → KeepsLog n (apply_command n c) × ((apply_command n c).last_applied ≡ n.last_applied)
  unfolding apply_command
  apply_command-KeepsLog n c = ground (arith, apply_internal_command-KeepsLog n c)

  -- The application's part of a command: those of the engine do not reach it.
  abbrev pub applied_to : Application S → S → Command → S
  applied_to app s c = if is_internal c then s else (elim app.apply [ none ↦ s | some f ↦ f s c ])

  user-apply_command :
      (n : Node S) (c : Command) → (apply_command n c).user ≡ applied_to n.application n.user c
  unfolding apply_command
  user-apply_command n c = ground (arith, apply_internal_command-KeepsLog n c)

  pub apply_all : Application S → S → List Command → S
  apply_all app s [] = s
  apply_all app s (c ∷ cs) = apply_all app (applied_to app s c) cs

  -- The commands of the `count` entries after the index.
  pub commands_after : Node S → ℕ → ℕ → List Command
  commands_after n zero index = []
  commands_after n (suc count) index =
      (entry_at n (index + 1)).command ∷ commands_after n count (index + 1)

  entry_at-KeepsLog : (n n' : Node S) (i : ℕ) → KeepsLog n n' → entry_at n' i ≡ entry_at n i
  unfolding entry_at physical_index
  entry_at-KeepsLog n n' i k = ground (arith, k.log, k.snapshot)

  KeepsLog-trans : (n n' n'' : Node S) → KeepsLog n n' → KeepsLog n' n'' → KeepsLog n n''
  KeepsLog-trans n n' n'' a b = record {
    log = b.log ∙ a.log;
    log_count = b.log_count ∙ a.log_count;
    snapshot = b.snapshot ∙ a.snapshot;
    committed = b.committed ∙ a.committed;
    term = b.term ∙ a.term;
    vote = b.vote ∙ a.vote;
    application = b.application ∙ a.application;
  }

  commands_after-KeepsLog :
      (n n' : Node S) (count index : ℕ)
      → KeepsLog n n'
      → commands_after n' count index ≡ commands_after n count index
  unfolding commands_after
  commands_after-KeepsLog n n' zero index k = refl
  commands_after-KeepsLog n n' (suc count) index k = ground (
    arith,
    entry_at-KeepsLog n n' (index + 1) k,
    commands_after-KeepsLog n n' count (index + 1) k,
  )

  -- `n'` is `n` after `count` further entries have been applied: the application has had their
  -- commands in order, each once, and the log, the commit index, the term and the vote are as before.
  pub record Applied (n : Node S) (count : ℕ) (n' : Node S) : Type 0 where
    pub user : n'.user ≡ apply_all n.application n.user (commands_after n count n.last_applied)
    pub last_applied : n'.last_applied ≡ n.last_applied + count
    pub kept : KeepsLog n n'

  apply_next-Applied : (n : Node S) → Applied n 1 (apply_next n)
  unfolding apply_next apply_all commands_after
  apply_next-Applied n =
      let n1 = record n { last_applied = n.last_applied + 1 } in
      let c = (entry_at n1 (n.last_applied + 1)).command in
      let (k, at) = apply_command-KeepsLog n1 c in
      record {
        user = user-apply_command n1 c ∙ (unfold entry_at physical_index in refl);
        last_applied = at;
        kept = record {
          log = k.log;
          log_count = k.log_count;
          snapshot = k.snapshot;
          committed = k.committed;
          term = k.term;
          vote = k.vote;
          application = k.application;
        };
      }

  Applied-suc :
      (n n1 n' : Node S) (count : ℕ)
      → Applied n 1 n1
      → Applied n1 count n'
      → Applied n (suc count) n'
  unfolding apply_all commands_after
  Applied-suc n n1 n' count a b = record {
    user = ground (
      arith,
      a.user,
      b.user,
      a.last_applied,
      a.kept.application,
      commands_after-KeepsLog n n1 count n1.last_applied a.kept,
    );
    last_applied = omega (arith, a.last_applied, b.last_applied);
    kept = KeepsLog-trans n n1 n' a.kept b.kept;
  }

  Applied-zero : (n : Node S) → Applied n 0 n
  unfolding apply_all commands_after
  Applied-zero n = record {
    user = refl;
    last_applied = omega arith;
    kept = record {
      log = refl;
      log_count = refl;
      snapshot = refl;
      committed = refl;
      term = refl;
      vote = refl;
      application = refl;
    };
  }

  apply_loop-Applied :
      (n : Node S) (count : ℕ)
      → n.last_applied + count ≡ n.commit_index
      → Applied n count (apply_loop count n)
  unfolding apply_loop
  apply_loop-Applied n zero h = Applied-zero n
  apply_loop-Applied n (suc count) h =
      let a = apply_next-Applied n in
      let more : ltb n.last_applied n.commit_index ≡ true = ground arith in
      rw more (
        Applied-suc n (apply_next n) _ count a (
          apply_loop-Applied (apply_next n) count
            (omega (arith, a.last_applied, a.kept.committed))))

  -- The loop applies every entry after the last applied one up to the commit index, each once and
  -- in the order of the log: the application has had the commands of those entries that are not the
  -- engine's own, and the log, the term and the vote are kept.
  pub apply_committed-Applied :
      (n : Node S) → Applied n (n.commit_index - n.last_applied) (apply_committed n)
  unfolding apply_committed
  apply_committed-Applied n = elim (dec_lt n.last_applied n.commit_index) [
    | yes more ↦ apply_loop-Applied n (n.commit_index - n.last_applied) (omega arith)
    | no done ↦
        let none_left : n.commit_index - n.last_applied ≡ 0 = omega arith in
        rw none_left (unfold apply_loop in (Applied-zero n))
  ]
