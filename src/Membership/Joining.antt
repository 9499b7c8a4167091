-- ===== src/Membership/Joining.antt =====
-- What a leader that asks for one more member asks for (c/src/raft.c,
-- `raft_node_request_membership_change`).
use raft_rx.Prelude.{
  ℕ, ◌≤◌, ◌<◌, ◌≡◌, ◌⊎◌, ◌∙◌, Bool, true, false, not, ◌&&◌, ◌||◌, List, [], ◌∷◌, ◌++◌, Text, same,
  is_empty, ◌==◌, length, arith, refl, length-append,
}
use raft_rx.Types.{Node, max_nodes, max_id, copy}
use raft_rx.Members.{
  member_list_contains, normalize_members, is_leader, is_leader_role, self_is_member,
}
use raft_rx.Members.Names.{AllIds, copy_id, contains-append, contains-normalize_members}
use raft_rx.Membership.{request_membership_change}

AllIds-snoc : (ms : List Text) (m : Text) → AllIds ms → length m < max_id → AllIds (ms ++ m ∷ [])
AllIds-snoc [] m a h = (h, tt)
AllIds-snoc (x ∷ ms) m a h = (a.0, AllIds-snoc ms m a.1 h)

same_self : (x : Text) → same x x ≡ true
same_self x = ground arith

nonempty_of_contains :
    (ms : List Text) (x : Text) → member_list_contains ms x ≡ true → (length ms == 0) ≡ false
unfolding member_list_contains
nonempty_of_contains [] x h = cc
nonempty_of_contains (m ∷ ms) x h = ground arith

-- The members and one more name, as the leader asks for them.
abbrev pub with_member : List Text → Text → List Text
with_member members id = normalize_members (members ++ copy max_id id ∷ []) max_nodes

pub contains-with_member :
    (members : List Text) (id x : Text)
    → AllIds members
    → length members < max_nodes
    → length id < max_id
    → member_list_contains (with_member members id) x
      ≡ (not (is_empty x) && (member_list_contains members x || same id x))
unfolding member_list_contains
contains-with_member members id x a room short =
    let e = copy_id id short in
    rw e (
      contains-normalize_members (members ++ id ∷ []) max_nodes x (AllIds-snoc members id a short)
        (omega (arith, length-append members (id ∷ [])))
      ∙ ground (arith, contains-append members (id ∷ []) x))

pub le_cases : {m n : ℕ} → m ≤ n → (m < n) ⊎ (m ≡ n)
le_cases h = ground arith

module _ {S : Type 0} where
  pub is_leader-is_leader_role : (n : Node S) → is_leader n ≡ true → is_leader_role n.state ≡ true
  unfolding is_leader
  is_leader-is_leader_role n h = ground arith

  -- Whether a name is in neither half of the members.
  abbrev pub is_stranger : Node S → Text → Bool
  is_stranger n id = not (
      member_list_contains n.config_state.old_members id
      || member_list_contains n.config_state.new_members id)

  -- The node of a leader that has asked for one more member.
  abbrev pub asked : Node S → Text → Node S
  asked n id = record n {
    requested_membership = with_member n.config_state.old_members id;
    requested_membership_pending = true;
  }

  pub is_leader-asked : (n : Node S) (id : Text) → is_leader (asked n id) ≡ is_leader n
  unfolding is_leader self_is_member
  is_leader-asked n id = refl

  pub request_membership_change-with_member :
      (n : Node S) (id : Text)
      → let members = n.config_state.old_members in
        is_leader n ≡ true
        → AllIds members
        → length members < max_nodes
        → (0 < length id) × (length id < max_id)
        → (request_membership_change n (members ++ copy max_id id ∷ [])).0 ≡ record n {
          requested_membership = with_member members id;
          requested_membership_pending = true;
        }
  unfolding request_membership_change
  request_membership_change-with_member n id leads a room (some, short) =
      let members = n.config_state.old_members in
      let there = contains-with_member members id id a room short in
      let filled =
        nonempty_of_contains (with_member members id) id (there ∙ ground (arith, some)) in
      rw (leads, filled) refl
