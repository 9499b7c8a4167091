-- ===== src/Members/Peers.antt =====
-- The two loops of `node_refresh_peers` (c/src/raft.c).
use raft_rx.Prelude.{
  ◌≤◌, ◌<◌, ◌≡◌, not, ◌||◌, ◌&&◌, List, [], ◌∷◌, ◌++◌, Text, same, arith, length, length-append,
}
use raft_rx.Types.{ClusterConfiguration, max_id, max_peers, copy}
use raft_rx.Members.{member_list_contains, add_old_peers, add_new_peers, peers_of}
use raft_rx.Members.Names.{AllIds, copy_id, contains-append}

length-add_old_peers-le :
    (self : Text) (ms ps : List Text)
    → length ps ≤ max_peers
    → length (add_old_peers self ms ps) ≤ max_peers
unfolding add_old_peers
length-add_old_peers-le self [] ps h = h
length-add_old_peers-le self (m ∷ ms) ps h = ground (
  arith,
  length-add_old_peers-le self ms ps,
  length-add_old_peers-le self ms (ps ++ copy max_id m ∷ []),
  length-append ps (copy max_id m ∷ []),
)

length-add_new_peers-le :
    (self : Text) (ms ps : List Text)
    → length ps ≤ max_peers
    → length (add_new_peers self ms ps) ≤ max_peers
unfolding add_new_peers
length-add_new_peers-le self [] ps h = h
length-add_new_peers-le self (m ∷ ms) ps h = ground (
  arith,
  length-add_new_peers-le self ms ps,
  length-add_new_peers-le self ms (ps ++ copy max_id m ∷ []),
  length-append ps (copy max_id m ∷ []),
)

-- Neither loop takes a peer away.
le-length-add_new_peers :
    (self : Text) (ms ps : List Text) → length ps ≤ length (add_new_peers self ms ps)
unfolding add_new_peers
le-length-add_new_peers self [] ps = omega arith
le-length-add_new_peers self (m ∷ ms) ps = ground (
  arith,
  le-length-add_new_peers self ms ps,
  le-length-add_new_peers self ms (ps ++ copy max_id m ∷ []),
  length-append ps (copy max_id m ∷ []),
)

-- As long as a slot is left, the first loop has added every other member.
contains-add_old_peers :
    (self : Text) (ms ps : List Text) (x : Text)
    → AllIds ms
    → length (add_old_peers self ms ps) < max_peers
    → member_list_contains (add_old_peers self ms ps) x
      ≡ (member_list_contains ps x || not (same x self) && member_list_contains ms x)
unfolding add_old_peers member_list_contains
contains-add_old_peers self [] ps x a h = ground arith
contains-add_old_peers self (m ∷ ms) ps x a h = ground (
  arith,
  contains-add_old_peers self ms ps x a.1,
  contains-add_old_peers self ms (ps ++ m ∷ []) x a.1,
  contains-append ps (m ∷ []) x,
  copy_id m a.0,
)

contains-add_new_peers :
    (self : Text) (ms ps : List Text) (x : Text)
    → AllIds ms
    → length (add_new_peers self ms ps) < max_peers
    → member_list_contains (add_new_peers self ms ps) x
      ≡ (member_list_contains ps x || not (same x self) && member_list_contains ms x)
unfolding add_new_peers member_list_contains
contains-add_new_peers self [] ps x a h = ground arith
contains-add_new_peers self (m ∷ ms) ps x a h = ground (
  arith,
  contains-add_new_peers self ms ps x a.1,
  contains-add_new_peers self ms (ps ++ m ∷ []) x a.1,
  contains-append ps (m ∷ []) x,
  copy_id m a.0,
)

-- For a configuration of names of fewer than 16 bytes, the peers fit their array; and unless they
-- fill it, they are exactly the members of the old and of the new half other than the node itself.
pub contains-peers_of :
    (self : Text) (c : ClusterConfiguration)
    → AllIds c.old_members
    → AllIds c.new_members
    → (length (peers_of self c) ≤ max_peers)
      × (length (peers_of self c) < max_peers
          → (x : Text)
          → member_list_contains (peers_of self c) x ≡ (
              not (same x self)
              && (member_list_contains c.old_members x || member_list_contains c.new_members x)))
unfolding peers_of member_list_contains
contains-peers_of self c a b = (
  length-add_new_peers-le self c.new_members _
      (length-add_old_peers-le self c.old_members [] (omega arith)),
  λ h x. ground (
    arith,
    contains-add_new_peers self c.new_members (add_old_peers self c.old_members []) x b h,
    contains-add_old_peers self c.old_members [] x a,
    le-length-add_new_peers self c.new_members (add_old_peers self c.old_members []),
  ),
)
