-- ===== src/Members.antt =====
-- The configuration helpers of raft.c (c/src/raft.c): member lists, the peers of a node, majorities
-- and votes.
pub mod Names
pub mod Order
pub mod Normalize
pub mod Peers
pub mod Quorum
use mathlib.Core.List.{reverse}
use raft_rx.Prelude.{
  ℕ, zero, suc, ◌+◌, ◌/◌, Bool, true, false, not, ◌&&◌, ◌||◌, Option, none, some, List, [], ◌∷◌,
  ◌++◌, Text, same, is_empty, greater, if◌then◌else◌, ltb, leb, length,
}
use raft_rx.Types.{Node, ClusterConfiguration, Role, leader, max_id, max_nodes, max_peers, copy}

unfoldable pub member_list_contains : List Text → Text → Bool
member_list_contains [] id = false
member_list_contains (m ∷ ms) id = same m id || member_list_contains ms id

-- The first loop of `normalize_members`: the members kept so far are `out`.
unfoldable pub collect : ℕ → List Text → List Text → List Text
collect capacity [] out = out
collect capacity (m ∷ ms) out =
    if ltb (length out) capacity
    then collect capacity ms
        (if is_empty m || member_list_contains out m then out else out ++ copy max_id m ∷ [])
    else out

-- The `while` loop of the insertion sort. The list is the sorted prefix from its end to its start.
unfoldable pub sink : Text → List Text → List Text
sink m [] = m ∷ []
sink m (p ∷ before) = if greater p m then p ∷ sink m before else m ∷ p ∷ before

-- Its `for` loop.
unfoldable pub sort_from : List Text → List Text → List Text
sort_from before [] = reverse before
sort_from before (m ∷ ms) = sort_from (sink m before) ms

unfoldable pub normalize_members : List Text → ℕ → List Text
normalize_members members capacity = sort_from [] (collect capacity members [])

unfoldable pub configuration_is_joint : ClusterConfiguration → Bool
configuration_is_joint c = ltb 0 (length c.new_members)

unfoldable pub configuration_set_stable : List Text → ℕ → ClusterConfiguration
configuration_set_stable members index = record {
  old_members = normalize_members members max_nodes;
  new_members = [];
  index = index;
}

unfoldable pub configuration_set_joint : List Text → List Text → ℕ → ClusterConfiguration
configuration_set_joint old_members new_members index = record {
  old_members = normalize_members old_members max_nodes;
  new_members = normalize_members new_members max_nodes;
  index = index;
}

-- The two loops of `node_refresh_peers`.
unfoldable pub add_old_peers : Text → List Text → List Text → List Text
add_old_peers self [] peers = peers
add_old_peers self (m ∷ ms) peers =
    if ltb (length peers) max_peers
    then add_old_peers self ms (if same m self then peers else peers ++ copy max_id m ∷ [])
    else peers

unfoldable pub add_new_peers : Text → List Text → List Text → List Text
add_new_peers self [] peers = peers
add_new_peers self (m ∷ ms) peers =
    if ltb (length peers) max_peers
    then add_new_peers self ms
        (if same m self || member_list_contains peers m then peers else peers ++ copy max_id m ∷ [])
    else peers

unfoldable pub peers_of : Text → ClusterConfiguration → List Text
peers_of self c = add_new_peers self c.new_members (add_old_peers self c.old_members [])

unfoldable pub member_majority : ℕ → ℕ
member_majority member_count = member_count / 2 + 1

-- How many of the members pass a test.
unfoldable pub tally : (Text → Bool) → List Text → ℕ
tally test [] = 0
tally test (m ∷ ms) = if test m then suc (tally test ms) else tally test ms

unfoldable pub index_of : List Text → Text → Option ℕ
index_of [] id = none
index_of (p ∷ ps) id =
    if same p id then some 0 else (elim (index_of ps id) [ none ↦ none | some i ↦ some (suc i) ])

abbrev pub is_leader_role : Role → Bool
is_leader_role leader = true
is_leader_role _ = false

module _ {S : Type 0} where
  unfoldable pub refresh_peers : Node S → Node S
  refresh_peers n = record n {
    config = record n.config { peers = peers_of n.config.node_id n.config_state };
  }

  unfoldable pub self_is_member : Node S → Bool
  self_is_member n =
      member_list_contains n.config_state.old_members n.config.node_id
      || member_list_contains n.config_state.new_members n.config.node_id

  unfoldable pub is_leader : Node S → Bool
  is_leader n = n.running && self_is_member n && is_leader_role n.state

  -- `none` is the -1 of the source.
  unfoldable pub peer_index : Node S → Text → Option ℕ
  peer_index n id = index_of n.config.peers id

  unfoldable pub record_vote : Node S → Text → Node S
  record_vote n peer =
      if member_list_contains n.votes_received peer
      then n
      else (if ltb (length n.votes_received) (max_peers + 1)
          then record n { votes_received = n.votes_received ++ copy max_id peer ∷ [] }
          else n)

  unfoldable pub has_vote_quorum : Node S → List Text → Bool
  has_vote_quorum n members =
      leb (member_majority (length members)) (tally (member_list_contains n.votes_received) members)
