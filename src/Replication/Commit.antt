-- ===== src/Replication/Commit.antt =====
-- The commit rule of a leader (c/src/raft.c, `node_advance_commit_index`).
use raft_rx.Prelude.{
  ℕ, zero, suc, ◌+◌, ◌-◌, ◌≤◌, ◌<◌, ◌≡◌, inl, inr, true, ◌==◌, arith, refl, Bool-cases,
}
use native.Mathlib.Decide.{dec_le}
use raft_rx.Types.{Node}
use raft_rx.LogIndex.{last_log_index, term_at_index}
use raft_rx.Members.{configuration_is_joint, member_list_contains, has_vote_quorum}
use raft_rx.Members.Quorum.{Shared, majorities-Shared}
use raft_rx.Replication.{
  has_replicated, replicated_on_members, is_committed_under_current_configuration, advance_from,
  advance_commit_index,
}

module _ {S : Type 0} where
  -- An index that the leader may commit.
  abbrev pub IsCommittable : Node S → ℕ → Type 0
  IsCommittable n idx =
      (term_at_index n idx ≡ n.current_term)
      × (is_committed_under_current_configuration n idx ≡ true)

  -- What `node_advance_commit_index` makes of `n`, looking at the indexes up to `top`: it changes
  -- nothing but the commit index and the dirty flag, goes to no index that may not be committed, and
  -- leaves no committable index behind.
  pub record Advanced (n : Node S) (top : ℕ) (n' : Node S) : Type 0 where
    pub frame : n' ≡ record n { commit_index = n'.commit_index; persist_dirty = n'.persist_dirty }
    pub grows : n.commit_index ≤ n'.commit_index
    pub moved :
        n.commit_index < n'.commit_index
        → (n'.commit_index ≤ top) × IsCommittable n n'.commit_index × (n'.persist_dirty ≡ true)
    pub highest : (i : ℕ) → n'.commit_index < i → i ≤ top → ¬ IsCommittable n i

  Advanced-skip :
      (n n' : Node S) (left : ℕ)
      → ¬ IsCommittable n (n.commit_index + suc left)
      → Advanced n (n.commit_index + left) n'
      → Advanced n (n.commit_index + suc left) n'
  Advanced-skip n n' left no_top ih = record {
    frame = ih.frame;
    grows = ih.grows;
    moved = λ h. let (a, b, c) = ih.moved h in (omega arith, b, c);
    highest = λ i lo hi c. elim (dec_le i (n.commit_index + left)) [
      | yes low ↦ ih.highest i lo low c
      | no high ↦ let e : i ≡ n.commit_index + suc left = omega arith in no_top (rw e at c)
    ];
  }

  Advanced-hit :
      (n : Node S) (idx : ℕ)
      → n.commit_index < idx
      → IsCommittable n idx
      → Advanced n idx (record n { commit_index = idx; persist_dirty = true })
  Advanced-hit n idx above c = record {
    frame = refl;
    grows = omega arith;
    moved = λ h. (omega arith, c, refl);
    highest = λ i lo hi. absurd (omega arith);
  }

  advance_from-Advanced :
      (n : Node S) (left : ℕ) → Advanced n (n.commit_index + left) (advance_from n left)
  unfolding advance_from
  advance_from-Advanced n zero = record {
    frame = refl;
    grows = omega arith;
    moved = λ h. absurd (omega arith);
    highest = λ i lo hi. absurd (omega arith);
  }
  advance_from-Advanced n (suc left) =
      let idx = n.commit_index + suc left in
      let skip = λ (h : ¬ IsCommittable n idx).
        Advanced-skip n (advance_from n left) left h (advance_from-Advanced n left) in
      elim (Bool-cases (term_at_index n idx == n.current_term)) [
        | inr other ↦ rw other (skip (λ c. ground arith))
        | inl own ↦ elim (Bool-cases (is_committed_under_current_configuration n idx)) [
          | inr few ↦ rw (own, few) (skip (λ c. ground arith))
          | inl many ↦ rw (own, many) (Advanced-hit n idx (omega arith) (ground arith, many))
        ]
      ]

  -- For a node whose commit index lies within its log: the commit index moves to the highest index
  -- of the log above it that has an entry of the current term and counts as committed, and stays if
  -- there is none; only it and the dirty flag change.
  pub advance_commit_index-Advanced :
      (n : Node S)
      → n.commit_index ≤ last_log_index n
      → Advanced n (last_log_index n) (advance_commit_index n)
  unfolding advance_commit_index
  advance_commit_index-Advanced n h =
      let e : n.commit_index + (last_log_index n - n.commit_index) ≡ last_log_index n =
        omega arith in
      rw e at (advance_from-Advanced n (last_log_index n - n.commit_index))

  -- If an index counts as committed under the configuration of one node, and another counts a
  -- quorum of votes over the same old members, then some old member is known to have the index and
  -- has voted for the other; and so for the new members, if the configuration is joint and the
  -- other counts a quorum over them.
  pub committed-meets-votes :
      (n c : Node S) (idx : ℕ)
      → is_committed_under_current_configuration n idx ≡ true
      → has_vote_quorum c n.config_state.old_members ≡ true
      → Shared
          (has_replicated n idx)
          (member_list_contains c.votes_received)
          n.config_state.old_members
        × (configuration_is_joint n.config_state ≡ true
            → has_vote_quorum c n.config_state.new_members ≡ true
            → Shared
                (has_replicated n idx)
                (member_list_contains c.votes_received)
                n.config_state.new_members)
  unfolding is_committed_under_current_configuration replicated_on_members has_vote_quorum
  committed-meets-votes n c idx h v =
      (majorities-Shared _ _ _ (ground arith) v, λ j w. majorities-Shared _ _ _ (ground arith) w)
