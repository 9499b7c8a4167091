-- ===== src/Cluster/Nodes.antt =====
-- The nodes of a cluster and the queues of its transport (c/src/raft.c, `raft_cluster_add_node` and
-- `raft_cluster_leader`).
use raft_rx.Prelude.{
  ℕ, suc, ◌≤◌, ◌≡◌, ◌∙◌, ◌⊎◌, sym, inl, inr, false, Option, none, some, List, [], ◌∷◌, ◌++◌, Text,
  leb, length, if◌then◌else◌, map, arith, refl, ap, length-append, Bool-cases, Option-cases,
}
use raft_rx.Types.{Node, NodeConfig, Application, max_nodes, max_id, copy}
use raft_rx.Members.{index_of}
use raft_rx.Storage.{Disk}
use raft_rx.Lifecycle.{node_init}
use raft_rx.Lifecycle.Names.{node_init-node_id}
use raft_rx.Memory.{register_node, find_node}
use raft_rx.Cluster.{Cluster, Machines, add_node}

-- The position of a name, or one for a name that has none.
abbrev pub position_or : Option ℕ → ℕ → ℕ
position_or none i = i
position_or (some j) i = j

index_of-snoc :
    (ids : List Text) (id : Text)
    → index_of (ids ++ id ∷ []) id ≡ some (position_or (index_of ids id) (length ids))
unfolding index_of
index_of-snoc [] id = ground arith
index_of-snoc (x ∷ ids) id = elim (Option-cases (index_of ids id)) [
  | inl unknown ↦ ground (arith, index_of-snoc ids id)
  | inr (i, known) ↦ ground (arith, index_of-snoc ids id)
]

module _ {A B : Type 0} (f : A → B) where
  map-snoc : (xs : List A) (x : A) → map f (xs ++ x ∷ []) ≡ map f xs ++ f x ∷ []
  map-snoc [] x = refl
  map-snoc (y ∷ xs) x = ap (λ ys. f y ∷ ys) (map-snoc xs x)

  length-map : (xs : List A) → length (map f xs) ≡ length xs
  length-map [] = refl
  length-map (x ∷ xs) = ap suc (length-map xs)

-- The name of a node, as it stands in an array of 16 bytes.
abbrev pub cut_name : {S : Type 0} → Node S → Text
cut_name n = copy max_id n.config.node_id

module _ {S R : Type 0} where
  -- The names with a queue are those of the nodes, at their positions.
  abbrev pub IsRegistered : Cluster S R → Type 0
  IsRegistered c = (c.transport.node_ids ≡ map cut_name c.nodes) × (length c.nodes ≤ max_nodes)

  -- If the names with a queue are those of the nodes, cut to 15 bytes, each at its node's position,
  -- so they are after a node is added. A full cluster stays as it is and gives none. Otherwise the
  -- initialised node comes last, and its name is found at its position, unless an earlier node has
  -- the same cut name: then at that one's; the result is the position if the runtime takes the
  -- machine, and none if not, with the node added all the same.
  pub add_node-IsRegistered :
      (machines : Machines S R) (c : Cluster S R) (config : NodeConfig) (d : Disk)
      (application : Application S) (user : S) (period : ℕ)
      → IsRegistered c
      → let at = length c.nodes in
        let name = copy max_id config.node_id in
        let node = node_init config application user d c.clock_ms in
        let added = (machines.add_machine c.runtime at period).1 in
        let (c', result) = add_node machines c config d application user period in
        IsRegistered c'
        × (((at ≡ max_nodes) × (c' ≡ c) × (result ≡ none))
            ⊎ ((c'.nodes ≡ c.nodes ++ node ∷ [])
                × (find_node c'.transport name ≡ some (position_or (find_node c.transport name) at))
                × (result ≡ (if added then some at else none))))
  unfolding add_node register_node
  add_node-IsRegistered machines c config d application user period (names, room) =
      let ids = c.transport.node_ids in
      let name = copy max_id config.node_id in
      let node = node_init config application user d c.clock_ms in
      let size : length ids ≡ length c.nodes =
        ap (λ (xs : List Text). length xs) names ∙ length-map cut_name c.nodes in
      elim (Bool-cases (leb max_nodes (length c.nodes))) [
        | inl full ↦ rw full ((names, room), inl (ground arith, refl, refl))
        | inr free ↦
            let taken : leb max_nodes (length ids) ≡ false =
              ap (λ (k : ℕ). leb max_nodes k) size ∙ free in
            rw (free, taken)
              (
                (
                  ap (λ (xs : List Text). xs ++ name ∷ []) names
                      ∙ ap (λ (x : Text). map cut_name c.nodes ++ copy max_id x ∷ [])
                          (sym (node_init-node_id config application user d c.clock_ms))
                      ∙ sym (map-snoc cut_name c.nodes node),
                  ground (arith, length-append c.nodes (node ∷ [])),
                ),
                inr (
                  refl,
                  (index_of-snoc ids name
                      ∙ ap (λ (k : ℕ). some (position_or (index_of ids name) k)) size),
                  refl,
                ),
              )
      ]
