-- ===== src/Members/Quorum.antt =====
-- Majorities of one list of members (c/src/raft.c, `member_majority` and
-- `node_has_vote_quorum`).
use raft_rx.Prelude.{
  ◌+◌, ◌<◌, ◌≤◌, ◌≡◌, Bool, true, List, [], ◌∷◌, Text, inl, inr, length, leb, arith, Bool-cases,
}
use raft_rx.Types.{Node}
use raft_rx.Members.{member_list_contains, member_majority, tally, has_vote_quorum}

-- A member that both tests pass.
abbrev pub Shared : (Text → Bool) → (Text → Bool) → List Text → Type 0
Shared p q ms = (m : Text) × (member_list_contains ms m ≡ true) × (p m ≡ true) × (q m ≡ true)

tally-le : (p : Text → Bool) (ms : List Text) → tally p ms ≤ length ms
unfolding tally
tally-le p [] = omega arith
tally-le p (m ∷ ms) = ground (arith, tally-le p ms)

contains_self : (m : Text) (ms : List Text) → member_list_contains (m ∷ ms) m ≡ true
unfolding member_list_contains
contains_self m ms = ground arith

Shared-later : (p q : Text → Bool) (m : Text) (ms : List Text) → Shared p q ms → Shared p q (m ∷ ms)
unfolding member_list_contains
Shared-later p q m ms (x, h, a, b) = (x, ground arith, a, b)

-- More passes than members: some member passes both.
tally-Shared :
    (p q : Text → Bool) (ms : List Text) → length ms < tally p ms + tally q ms → Shared p q ms
unfolding tally
tally-Shared p q [] h = absurd (omega arith)
tally-Shared p q (m ∷ ms) h = elim (Bool-cases (p m)) [
  | inl e ↦ elim (Bool-cases (q m)) [
    | inl f ↦ (m, contains_self m ms, e, f)
    | inr f ↦ Shared-later p q m ms (tally-Shared p q ms (ground arith))
  ]
  | inr e ↦ Shared-later p q m ms (tally-Shared p q ms (ground (arith, tally-le q ms)))
]

pub majorities-Shared :
    (p q : Text → Bool) (ms : List Text)
    → leb (member_majority (length ms)) (tally p ms) ≡ true
    → leb (member_majority (length ms)) (tally q ms) ≡ true
    → Shared p q ms
unfolding member_majority
majorities-Shared p q ms h k = tally-Shared p q ms (ground arith)

-- Two nodes that each count a quorum of votes over the same members hold a vote of one same member.
pub has_vote_quorum-Shared :
    {S : Type 0} (a b : Node S) (members : List Text)
    → has_vote_quorum a members ≡ true
    → has_vote_quorum b members ≡ true
    → Shared (member_list_contains a.votes_received) (member_list_contains b.votes_received) members
unfolding has_vote_quorum
has_vote_quorum-Shared a b members h k = majorities-Shared _ _ members h k
